-- ===== src/Board/Labels.antt =====
-- The labels that a transition sets, src/taskBoard.ts.
use arch_loop.Prelude.{
  Bool, true, false, not, ◌&&◌, ◌==◌, String, Option, none, some, List, [], ◌∷◌, ◌++◌, keep,
  Bool-cases, ◌≡◌, ◌⊎◌, inl, inr, refl, sym, ap, ◌∙◌, eq_iff, In, keep_sound, In-append,
}
use arch_loop.Recovery.{HubTaskStatus, inbox}
use arch_loop.Board.{normalize_key, status_label, status_of_key, among}
use arch_loop.Board.Status.{labels_status}
use arch_loop.Board.Written.{is_managed, managed_keys, unique_strings, user_labels, labels_to_set}
use arch_loop.Board.Transition.{status_labels}

pub label_managed : (s : HubTaskStatus) → is_managed (status_label s) ≡ true
unfolding is_managed managed_keys normalize_key
label_managed inbox = refl
label_managed _ = refl

-- Filtering commutes.
keep-keep : (p q : String → Bool) (xs : List String) → keep p (keep q xs) ≡ keep q (keep p xs)
keep-keep p q [] = refl
keep-keep p q (x ∷ xs) = elim (Bool-cases (p x)) [
  | inl a ↦ elim (Bool-cases (q x)) [
    | inl b ↦ rw (a, b, a, keep-keep p q xs) refl
    | inr b ↦ rw (a, b, keep-keep p q xs) refl
  ]
  | inr a ↦ elim (Bool-cases (q x)) [
    | inl b ↦ rw (a, b, a, keep-keep p q xs) refl
    | inr b ↦ rw (a, b, keep-keep p q xs) refl
  ]
]

-- Removing a text that does not pass a filter changes nothing for that filter.
keep_without :
    (p : String → Bool) (x : String) (xs : List String)
    → p x ≡ false
    → keep p (keep (λ y. not (y == x)) xs) ≡ keep p xs
keep_without p x [] h = refl
keep_without p x (y ∷ ys) h = elim (Bool-cases (y == x)) [
  | inl a ↦ rw (a, keep_without p x ys h, ap p ((eq_iff y x).0 a) ∙ h) refl
  | inr a ↦ rw (a, keep_without p x ys h) refl
]

keep-unique_strings :
    (p : String → Bool) (xs : List String) → keep p (unique_strings xs) ≡ unique_strings (keep p xs)
unfolding unique_strings
keep-unique_strings p [] = refl
keep-unique_strings p (x ∷ xs) = elim (Bool-cases (p x)) [
  | inl h ↦
      rw (h, keep-keep p (λ y. not (y == x)) (unique_strings xs), keep-unique_strings p xs) refl
  | inr h ↦ rw (h, keep_without p x (unique_strings xs) h) (keep-unique_strings p xs)
]

pub keep-append :
    (p : String → Bool) (xs ys : List String) → keep p (xs ++ ys) ≡ keep p xs ++ keep p ys
keep-append p [] ys = refl
keep-append p (x ∷ xs) ys = elim (Bool-cases (p x)) [
  | inl h ↦ rw (h, keep-append p xs ys) refl
  | inr h ↦ rw (h, keep-append p xs ys) refl
]

keep_user : (labels removed : List String) → keep is_managed (user_labels labels removed) ≡ []
keep_user [] removed = refl
keep_user (l ∷ ls) removed = elim (Bool-cases (is_managed l)) [
  | inl h ↦ rw h (keep_user ls removed)
  | inr h ↦ elim (Bool-cases (among removed l)) [
    | inl k ↦ rw (h, k) (keep_user ls removed)
    | inr k ↦ rw (h, k, h) (keep_user ls removed)
  ]
]

keep_with_label :
    (labels removed : List String) (s : HubTaskStatus)
    → keep is_managed (user_labels labels removed ++ status_label s ∷ []) ≡ status_label s ∷ []
keep_with_label labels removed s =
    keep-append is_managed (user_labels labels removed) (status_label s ∷ [])
    ∙ rw (keep_user labels removed, label_managed s) refl

-- Before they are split at commas, the labels of a transition have one status label.
pub labels_to_set-managed :
    (labels : List String) (s : HubTaskStatus) (removed : List String)
    → status_labels (labels_to_set labels s removed) ≡ status_label s ∷ []
unfolding labels_to_set unique_strings
labels_to_set-managed labels s removed =
    keep-unique_strings is_managed (user_labels labels removed ++ status_label s ∷ [])
    ∙ rw (keep_with_label labels removed s) refl

-- A status that a label may tell beside the new one: only the label `inbox` is not a managed one.
abbrev pub IsHarmless : HubTaskStatus → Option HubTaskStatus → Type 0
IsHarmless s o = (o ≡ none) ⊎ ((o ≡ some inbox) ⊎ (o ≡ some s))

pub among-false :
    (ks : List String) (k x : String) → among ks k ≡ false → among ks x ≡ true → (x == k) ≡ false
among-false ks k x h m = elim (Bool-cases (x == k)) [
  | inl a ↦ cc (sym m ∙ ap (among ks) ((eq_iff x k).0 a) ∙ h)
  | inr a ↦ a
]

-- A key that is not managed is no status but `inbox`.
unmanaged_key :
    (s : HubTaskStatus) (k : String) → among managed_keys k ≡ false → IsHarmless s (status_of_key k)
unfolding managed_keys normalize_key status_of_key
unmanaged_key s k h = elim (Bool-cases ("inbox" == k)) [
  | inl a ↦ rw (among-false managed_keys k "needs_triage" h refl, a) (inr (inl refl))
  | inr a ↦
      rw
        (
          among-false managed_keys k "needs_triage" h refl,
          among-false managed_keys k "needs_info" h refl,
          among-false managed_keys k "ready_for_agent" h refl,
          among-false managed_keys k "ready_for_human" h refl,
          among-false managed_keys k "blocked" h refl,
          among-false managed_keys k "implementing" h refl,
          among-false managed_keys k "reviewing" h refl,
          among-false managed_keys k "waiting_for_merge" h refl,
          among-false managed_keys k "merging" h refl,
          among-false managed_keys k "publishing" h refl,
          among-false managed_keys k "done" h refl,
          among-false managed_keys k "wontfix" h refl,
          among-false managed_keys k "failed" h refl,
          among-false managed_keys k "sync_conflict" h refl,
          a,
        )
        (inl refl)
]

unmanaged_status :
    (s : HubTaskStatus) (l : String)
    → is_managed l ≡ false
    → IsHarmless s (status_of_key (normalize_key l))
unfolding is_managed
unmanaged_status s l h = unmanaged_key s (normalize_key l) h

first_false : (b c : Bool) → not b && c ≡ true → b ≡ false
first_false true c h = sym h
first_false false c h = refl

label_status : (s : HubTaskStatus) → status_of_key (normalize_key (status_label s)) ≡ some s
unfolding normalize_key status_of_key
label_status inbox = refl
label_status _ = refl

pub unique_strings-In : (xs : List String) (x : String) → In x (unique_strings xs) → In x xs
unfolding unique_strings
unique_strings-In [] x m = m
unique_strings-In (y ∷ ys) x (inl e) = inl e
unique_strings-In (y ∷ ys) x (inr m) =
    inr (unique_strings-In ys x (keep_sound (λ z. not (z == y)) (unique_strings ys) m).0)

labels_status-IsHarmless :
    (s : HubTaskStatus) (ls : List String)
    → ((l : String) → In l ls → IsHarmless s (status_of_key (normalize_key l)))
    → IsHarmless s (labels_status ls)
unfolding labels_status
labels_status-IsHarmless s [] h = inl refl
labels_status-IsHarmless s (l ∷ ls) h = elim (h l (inl refl)) [
  | inl e ↦ rw e (labels_status-IsHarmless s ls (λ x m. h x (inr m)))
  | inr (inl e) ↦ rw e (inr (inl refl))
  | inr (inr e) ↦ rw e (inr (inr refl))
]

pub labels_to_set-IsHarmless :
    (labels : List String) (s : HubTaskStatus) (removed : List String)
    → IsHarmless s (labels_status (labels_to_set labels s removed))
unfolding labels_to_set
labels_to_set-IsHarmless labels s removed =
    let users = user_labels labels removed in
    labels_status-IsHarmless s (unique_strings (users ++ status_label s ∷ [])) (λ l m.
      elim (In-append users (status_label s ∷ []) l
        (unique_strings-In (users ++ status_label s ∷ []) l m)) [
          | inl n ↦ unmanaged_status s l (
              first_false (is_managed l) (not (among removed l))
                ((keep_sound (λ x. not (is_managed x) && not (among removed x)) labels n).1))
          | inr (inl e) ↦ rw e (inr (inr (label_status s)))
          | inr (inr n) ↦ elim n [ ]
        ])
