-- ===== src/Landing/Queue/Suffix.antt =====
-- `invalidateHubLandingSpeculativeSuffix` of src/hubLandingQueue.ts.
use arch_loop.Prelude.{
  ◌<◌, ◌≡◌, refl, String, none, some, true, false, keep, In, map-In, Bool-cases, Option-cases, inl,
  inr, arith, find, keep_complete, keep_sound, List, [], ◌∷◌, map, subst, sym,
}
use arch_loop.Landing.Queue.{Ticket, invalidated, File, Queue, is_task, tickets_of, find_ticket}
use arch_loop.Landing.Queue.Head.{is_terminal, is_blocked}
use arch_loop.Landing.Queue.Marks.{
  is_kept, is_dropped, invalidate, invalidate_past, invalidate_suffix,
}
use arch_loop.Landing.Queue.Validity.{IsValidFile, map-IsValid}

-- Invalidating a suffix keeps the queue well formed.
pub invalidate_suffix-IsValid :
    (now reason from : String) (file : File)
    → IsValidFile file
    → IsValidFile (invalidate_suffix now reason from file).0
unfolding invalidate_suffix
invalidate_suffix-IsValid now reason from none v = tt
invalidate_suffix-IsValid now reason from (some q) v =
    elim (Option-cases (find (is_task from) q.tickets)) [
      | inl absent ↦ rw (absent, invalidate_suffix) v
      | inr (origin, found) ↦
          rw (found, invalidate_suffix)
            (map-IsValid (invalidate_past now reason origin) (λ t. ground arith) q v)
    ]

-- What became of a ticket when the suffix behind `origin` was invalidated.
pub record Invalidated (now reason : String) (t u : Ticket) : Type 0 where
  pub same_task : u.task_id ≡ t.task_id
  pub same_sequence : u.sequence ≡ t.sequence
  pub status : u.status ≡ invalidated
  pub no_candidate : u.candidate_oid ≡ none
  pub no_predecessor : u.predecessor_oid ≡ none
  pub no_transaction : u.transaction_id ≡ none
  pub source : u.source_oid ≡ t.source_oid
  pub given_reason : u.suffix_invalidation_reason ≡ some reason
  pub marked_at : u.suffix_invalidated_at ≡ some now

abbrev pub IsBehind : Ticket → Ticket → Type 0
IsBehind origin t =
    (origin.sequence < t.sequence) × (is_terminal t.status ≡ false) × (is_blocked t.status ≡ false)

is_kept-behind : (origin t : Ticket) → IsBehind origin t → is_kept origin t ≡ false
unfolding is_kept
is_kept-behind origin t b = ground (arith, b.1, b.2)

is_kept-other : (origin t : Ticket) → (IsBehind origin t → ⊥) → is_kept origin t ≡ true
is_kept-other origin t n = elim (Bool-cases (is_kept origin t)) [
  | inl kept ↦ kept
  | inr dropped ↦ absurd (n (unfold is_kept in (ground arith, ground arith, ground arith)))
]

invalidate_past-behind :
    (now reason : String) (origin t : Ticket)
    → IsBehind origin t
    → invalidate_past now reason origin t ≡ invalidate now reason t
unfolding invalidate_past
invalidate_past-behind now reason origin t b = rw (is_kept-behind origin t b)

is_dropped-behind : (origin t : Ticket) → IsBehind origin t → is_dropped origin t ≡ true
is_dropped-behind origin t b = rw (is_kept-behind origin t b, is_dropped)

invalidate_past-other :
    (now reason : String) (origin t : Ticket)
    → (IsBehind origin t → ⊥)
    → invalidate_past now reason origin t ≡ t
unfolding invalidate_past
invalidate_past-other now reason origin t n = rw (is_kept-other origin t n)

invalidate-Invalidated :
    (now reason : String) (t : Ticket) → Invalidated now reason t (invalidate now reason t)
invalidate-Invalidated now reason t = record {
  same_task = refl;
  same_sequence = refl;
  status = refl;
  no_candidate = refl;
  no_predecessor = refl;
  no_transaction = refl;
  source = refl;
  given_reason = refl;
  marked_at = refl;
}

In-map :
    (f : Ticket → Ticket) (xs : List Ticket) (u : Ticket)
    → In u (map f xs)
    → (x : Ticket) × In x xs × (u ≡ f x)
In-map f [] u m = elim m [ ]
In-map f (x ∷ xs) u (inl e) = (x, inl refl, e)
In-map f (x ∷ xs) u (inr m) = let (y, n, e) = In-map f xs u m in (y, inr n, e)

is_dropped-IsBehind : (origin t : Ticket) → is_dropped origin t ≡ true → IsBehind origin t
is_dropped-IsBehind origin t h = elim (Bool-cases (is_kept origin t)) [
  | inl kept ↦ cc (rw kept at h)
  | inr dropped ↦ unfold is_kept in (ground arith, ground arith, ground arith)
]

reported-IsBehind :
    (now reason : String) (q : Queue) (origin u : Ticket)
    → In u (map (invalidate now reason) (keep (is_dropped origin) q.tickets))
    → (x : Ticket) × In x q.tickets × IsBehind origin x × Invalidated now reason x u
reported-IsBehind now reason q origin u m =
    let (x, n, e) = In-map (invalidate now reason) (keep (is_dropped origin) q.tickets) u m in
    let (listed, dropped) = keep_sound (is_dropped origin) q.tickets n in
    (
      x,
      listed,
      is_dropped-IsBehind origin x dropped,
      subst (Invalidated now reason x) (sym e) (invalidate-Invalidated now reason x),
    )

-- Where the task has a ticket, every ticket behind it that is neither landed, failed nor blocked
-- on a prerequisite is invalidated and loses its candidate, every other ticket stays in the queue
-- as it is; the invalidated tickets are reported, and nothing else is.
pub invalidate_suffix_lem :
    (now reason from : String) (q : Queue) (origin t : Ticket)
    → find_ticket from (some q) ≡ some origin
    → In t q.tickets
    → (IsBehind origin t
        → (u : Ticket) × Invalidated now reason t u
          × In u (tickets_of (invalidate_suffix now reason from (some q)).0)
          × In u (invalidate_suffix now reason from (some q)).1)
      × ((IsBehind origin t → ⊥) → In t (tickets_of (invalidate_suffix now reason from (some q)).0))
      × ((u : Ticket)
          → In u (invalidate_suffix now reason from (some q)).1
          → (x : Ticket) × In x q.tickets × IsBehind origin x × Invalidated now reason x u)
unfolding invalidate_suffix find_ticket
invalidate_suffix_lem now reason from q origin t found m =
    rw (found, invalidate_suffix)
      (
        λ b. (
          invalidate now reason t,
          invalidate-Invalidated now reason t,
          rw (← invalidate_past-behind now reason origin t b)
              (map-In (invalidate_past now reason origin) q.tickets t m),
          map-In (invalidate now reason) (keep (is_dropped origin) q.tickets) t
              (keep_complete (is_dropped origin) q.tickets m (is_dropped-behind origin t b)),
        ),
        λ n.
            rw (← invalidate_past-other now reason origin t n)
              (map-In (invalidate_past now reason origin) q.tickets t m),
        λ u n. reported-IsBehind now reason q origin u n,
      )
