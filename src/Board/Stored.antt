-- ===== src/Board/Stored.antt =====
-- The metadata that the task store has after the two updates of a transition, src/taskBoard.ts: the
-- second one unsets the keys that are not written again.
use arch_loop.Prelude.{
  Bool, true, false, not, ◌++◌, ◌==◌, String, Option, none, some, List, every, same_text,
  same_text_iff, if◌then◌else◌, or_option, is_some, Bool-cases, Option-cases, ◌≡◌, inl, inr, refl,
  sym, ap, ◌∙◌, In, keep_sound, keep_complete, eq_iff, eq_refl,
}
use arch_loop.Prelude.Trim.{trim}
use arch_loop.Prelude.Json.{Json, Fields, end, field, text, member}
use arch_loop.Board.{among, nonempty, status_text}
use arch_loop.Board.Metadata.{keys, spread, member-spread}
use arch_loop.Board.Status.{blocked_keys, needs_info_keys, conflict_keys, wontfix_keys, done_keys}
use arch_loop.Board.Projection.{BoardTask}
use arch_loop.Board.Written.{
  Request, next_metadata, merged_metadata, removed_keys, unique_strings, failure_keys, clear_owned,
}
use arch_loop.Board.Labels.{among-false, unique_strings-In}
use arch_loop.Board.Lookup.{next-merged}
use arch_loop.Board.Transition.{trimmed_parts, unset_args}

-- The keys that a transition may delete.
abbrev owned_keys : List String
owned_keys =
    List.◌∷◌ "claim" List.[]
    ++ failure_keys
    ++ blocked_keys
    ++ needs_info_keys
    ++ conflict_keys
    ++ wontfix_keys
    ++ done_keys

member-keys : (x : String) (fs : Fields) {v : Json} → member x fs ≡ some v → In x (keys fs)
member-keys x end e = cc
member-keys x (field k v fs) e = elim (Bool-cases (k == x)) [
  | inl h ↦ inl (sym ((eq_iff k x).0 h))
  | inr h ↦ inr (member-keys x fs (rw h at e))
]

keys-member : (x : String) (fs : Fields) → In x (keys fs) → is_some (member x fs) ≡ true
keys-member x end m = elim m [ ]
keys-member x (field k v fs) m = elim (Bool-cases (k == x)) [
  | inl h ↦ rw h refl
  | inr h ↦ elim m [
    | inl e ↦ cc (sym h ∙ ap (λ y. k == y) e ∙ eq_refl k)
    | inr n ↦ rw h (keys-member x fs n)
  ]
]

among-append :
    (ps bs : List String) (x : String)
    → among (ps ++ bs) x ≡ false
    → (among ps x ≡ false) × (among bs x ≡ false)
among-append List.[] bs x h = (refl, h)
among-append (List.◌∷◌ a ps) bs x h = elim (Bool-cases (a == x)) [
  | inl e ↦ cc (rw e at h)
  | inr e ↦ let (p, q) = among-append ps bs x (rw e at h) in (rw e p, q)
]

among-In : (ks : List String) (x : String) → among ks x ≡ true → In x ks
among-In List.[] x h = cc h
among-In (List.◌∷◌ k ks) x h = elim (Bool-cases (k == x)) [
  | inl e ↦ inl (sym ((eq_iff k x).0 e))
  | inr e ↦ inr (among-In ks x (rw e at h))
]

In-among : (ks : List String) (x : String) → In x ks → among ks x ≡ true
In-among List.[] x m = elim m [ ]
In-among (List.◌∷◌ k ks) x (inl e) = rw (e, eq_refl k) refl
In-among (List.◌∷◌ k ks) x (inr m) = elim (Bool-cases (k == x)) [
  | inl e ↦ rw e refl
  | inr e ↦ rw e (In-among ks x m)
]

every-In :
    (p : String → Bool) (ks : List String) {x : String} → every p ks ≡ true → In x ks → p x ≡ true
every-In p List.[] h m = elim m [ ]
every-In p (List.◌∷◌ k ks) h m = elim (Bool-cases (p k)) [
  | inl e ↦ elim m [ inl c ↦ rw c e | inr n ↦ every-In p ks (rw e at h) n ]
  | inr e ↦ cc (rw e at h)
]

-- A text that trimming leaves as it is, and that is not empty.
abbrev IsTrimmed : String → Type 0
IsTrimmed x = nonempty (trim x) ≡ some x

owned-IsTrimmed : (x : String) → among owned_keys x ≡ true → IsTrimmed x
unfolding trim
owned-IsTrimmed x h = (same_text_iff (nonempty (trim x)) (some x)).0 (
    every-In (λ k. same_text (nonempty (trim k)) (some k)) owned_keys refl
      (among-In owned_keys x h))

trimmed_parts_same :
    (ks : List String) → ((k : String) → In k ks → IsTrimmed k) → trimmed_parts ks ≡ ks
unfolding trimmed_parts
trimmed_parts_same List.[] h = refl
trimmed_parts_same (List.◌∷◌ k ks) h =
    rw (h k (inl refl), trimmed_parts_same ks (λ x m. h x (inr m))) refl

In-unique_strings : (xs : List String) (x : String) → In x xs → In x (unique_strings xs)
unfolding unique_strings
In-unique_strings List.[] x m = m
In-unique_strings (List.◌∷◌ y ys) x (inl e) = inl e
In-unique_strings (List.◌∷◌ y ys) x (inr m) = elim (Bool-cases (x == y)) [
  | inl e ↦ inl ((eq_iff x y).0 e)
  | inr e ↦
      inr (
        keep_complete (λ z. not (z == y)) (unique_strings ys) (In-unique_strings ys x m)
          (rw e refl))
]

both_ways : (b c : Bool) → (b ≡ true → c ≡ true) → (c ≡ true → b ≡ true) → b ≡ c
both_ways true c f g = sym (f refl)
both_ways false true f g = g refl
both_ways false false f g = refl

among-unset_args :
    (ks : List String) (x : String)
    → ((k : String) → In k ks → IsTrimmed k)
    → among (unset_args ks) x ≡ among ks x
unfolding unset_args
among-unset_args ks x h = rw (trimmed_parts_same ks h) (
    both_ways (among (unique_strings ks) x) (among ks x)
      (λ m. In-among ks x (unique_strings-In ks x (among-In (unique_strings ks) x m)))
      (λ m. In-among (unique_strings ks) x (In-unique_strings ks x (among-In ks x m))))

is_some_or : (o p : Option Json) → is_some p ≡ true → is_some (or_option o p) ≡ true
is_some_or none p h = h
is_some_or (some x) p h = refl

abbrev no_json : Option Json
no_json = none

if_same_none : (b : Bool) → (if b then none else none) ≡ no_json
if_same_none true = refl
if_same_none false = refl

module _ (task : BoardTask) (q : Request) where
  merged_old :
      (x : String)
      → is_some (member x task.metadata) ≡ true
      → is_some (member x (merged_metadata task q)) ≡ true
  unfolding merged_metadata
  merged_old x h =
      let patched = spread task.metadata (clear_owned q.metadata) in
      rw
        (
          member-spread x patched (field "hubStatus" (text (status_text q.hub_status)) end),
          member-spread x task.metadata (clear_owned q.metadata),
        )
        (is_some_or (member x (field "hubStatus" (text (status_text q.hub_status)) end))
          (or_option (member x (clear_owned q.metadata)) (member x task.metadata))
          (is_some_or (member x (clear_owned q.metadata)) (member x task.metadata) h))

  -- A key of the task that is not the transition's own is written again.
  kept :
      (x : String)
      → among owned_keys x ≡ false
      → is_some (member x task.metadata) ≡ true
      → is_some (member x (next_metadata task q)) ≡ true
  kept x h m =
      let (c, rest) =
        among-append (List.◌∷◌ "claim" List.[])
          (failure_keys ++ blocked_keys ++ needs_info_keys ++ conflict_keys ++ wontfix_keys
            ++ done_keys)
          x h in
      let (f, rest) =
        among-append failure_keys
          (blocked_keys ++ needs_info_keys ++ conflict_keys ++ wontfix_keys ++ done_keys) x rest in
      let (b, rest) =
        among-append blocked_keys (needs_info_keys ++ conflict_keys ++ wontfix_keys ++ done_keys) x
          rest in
      let (n, rest) =
        among-append needs_info_keys (conflict_keys ++ wontfix_keys ++ done_keys) x rest in
      let (k, rest) = among-append conflict_keys (wontfix_keys ++ done_keys) x rest in
      let (w, d) = among-append wontfix_keys done_keys x rest in
      ap is_some (
        next-merged task q x (among-false failure_keys x "failed" f refl)
          (among-false failure_keys x "failureReason" f refl)
          (among-false (List.◌∷◌ "claim" List.[]) x "claim" c refl) f b n k w d)
      ∙ merged_old x m

  removed_sound :
      (k : String)
      → In k (removed_keys task.metadata (next_metadata task q))
      → (is_some (member k task.metadata) ≡ true)
        × (not (is_some (member k (next_metadata task q))) ≡ true)
  unfolding removed_keys
  removed_sound k m =
      let (here, gone) =
        keep_sound (λ x. not (is_some (member x (next_metadata task q)))) (keys task.metadata) m in
      (keys-member k task.metadata here, gone)

  removed-IsTrimmed :
      (k : String) → In k (removed_keys task.metadata (next_metadata task q)) → IsTrimmed k
  unfolding removed_keys
  removed-IsTrimmed k m =
      let (old, gone) = removed_sound k m in
      elim (Bool-cases (among owned_keys k)) [
        | inl h ↦ owned-IsTrimmed k h
        | inr h ↦ cc (sym (ap not (kept k h old)) ∙ gone)
      ]

  -- What stands under a key after both updates is what was written.
  pub final_member :
      (x : String)
      → let next = next_metadata task q in
        let removed = removed_keys task.metadata next in
        (if among (unset_args removed) x
          then none
          else or_option (member x next) (member x task.metadata))
        ≡ member x next
  unfolding removed_keys
  final_member x =
      let next = next_metadata task q in
      let removed = removed_keys task.metadata next in
      let unset = among-unset_args removed x removed-IsTrimmed in
      elim (Option-cases (member x next)) [
        | inr (v, e) ↦ elim (Bool-cases (among removed x)) [
          | inl h ↦
              cc (sym (ap (λ o. not (is_some o)) e) ∙ (removed_sound x (among-In removed x h)).1)
          | inr h ↦ rw (unset, h, e) refl
        ]
        | inl e ↦ elim (Option-cases (member x task.metadata)) [
          | inl f ↦ rw (e, f) (if_same_none (among (unset_args removed) x))
          | inr (v, f) ↦
              rw
                (
                  unset,
                  In-among removed x (
                      keep_complete (λ k. not (is_some (member k next))) (keys task.metadata)
                        (member-keys x task.metadata f) (rw e refl)),
                  e,
                )
                refl
        ]
      ]
