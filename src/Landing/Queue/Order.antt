-- ===== src/Landing/Queue/Order.antt =====
-- Sorting and filtering tickets: what the queue head, the hold and the chain share.
use arch_loop.Prelude.{
  ℕ, ◌≤◌, ◌≡◌, sym, none, some, List, [], ◌∷◌, Bool, true, false, leb, leb→le, head?, keep,
  keep_sound, keep_complete, ◌↔◌, In, All, All-mem, Bool-cases, inl, inr, arith,
}
use mathlib.Core.Option.{some-injective, some-ne-none}
use arch_loop.Landing.Queue.{Ticket}
use arch_loop.Landing.Queue.Head.{insert_by, sort_by_sequence}

abbrev pub From : ℕ → Ticket → Type 0
From n t = n ≤ t.sequence

-- The tickets stand in the order of their sequence numbers; two may have the same.
abbrev pub IsSorted : List Ticket → Type 0
IsSorted [] = Unit
IsSorted (t ∷ ts) = All (From t.sequence) ts × IsSorted ts

pub From-weaken : (n m : ℕ) (ts : List Ticket) → n ≤ m → All (From m) ts → All (From n) ts
From-weaken n m [] h k = tt
From-weaken n m (t ∷ ts) h k = (omega arith, From-weaken n m ts h k.1)

insert_by-From :
    (n : ℕ) (t : Ticket) (us : List Ticket)
    → n ≤ t.sequence
    → All (From n) us
    → All (From n) (insert_by t us)
unfolding insert_by
insert_by-From n t [] h k = (h, tt)
insert_by-From n t (u ∷ us) h k = ground (arith, insert_by-From n t us h k.1)

insert_by-IsSorted : (t : Ticket) (us : List Ticket) → IsSorted us → IsSorted (insert_by t us)
unfolding insert_by
insert_by-IsSorted t [] s = (tt, tt)
insert_by-IsSorted t (u ∷ us) s = elim (Bool-cases (leb t.sequence u.sequence)) [
  | inl le ↦ rw le (
    (
      leb→le t.sequence u.sequence le,
      From-weaken t.sequence u.sequence us (leb→le t.sequence u.sequence le) s.0,
    ),
    s,
  )
  | inr gt ↦ rw gt (insert_by-From u.sequence t us (ground arith) s.0, insert_by-IsSorted t us s.1)
]

pub sort-IsSorted : (ts : List Ticket) → IsSorted (sort_by_sequence ts)
unfolding sort_by_sequence
sort-IsSorted [] = tt
sort-IsSorted (t ∷ ts) = insert_by-IsSorted t (sort_by_sequence ts) (sort-IsSorted ts)

insert_by-mem : (x t : Ticket) (us : List Ticket) → In x (insert_by t us) ↔ In x (t ∷ us)
unfolding insert_by
insert_by-mem x t [] = (λ m. m, λ m. m)
insert_by-mem x t (u ∷ us) = elim (Bool-cases (leb t.sequence u.sequence)) [
  | inl le ↦ rw le (λ m. m, λ m. m)
  | inr gt ↦
      let (to, from) = insert_by-mem x t us in
      rw gt (
        λ m. elim m [
          | inl e ↦ inr (inl e)
          | inr n ↦ elim (to n) [ inl e ↦ inl e | inr later ↦ inr (inr later) ]
        ],
        λ m. elim m [
          | inl e ↦ inr (from (inl e))
          | inr n ↦ elim n [ inl e ↦ inl e | inr later ↦ inr (from (inr later)) ]
        ],
      )
]

-- Sorting keeps the members.
pub sort-mem : (x : Ticket) (ts : List Ticket) → In x (sort_by_sequence ts) ↔ In x ts
unfolding sort_by_sequence
sort-mem x [] = (λ m. m, λ m. m)
sort-mem x (t ∷ ts) =
    let (to, from) = sort-mem x ts in
    let (into, out) = insert_by-mem x t (sort_by_sequence ts) in
    (
      λ m. elim (into m) [ inl e ↦ inl e | inr n ↦ inr (to n) ],
      λ m. out (elim m [ inl e ↦ inl e | inr n ↦ inr (from n) ]),
    )

-- The first of the sorted tickets that pass is one with the least sequence number.
pub record IsFirst (p : Ticket → Bool) (ts : List Ticket) (t : Ticket) : Type 0 where
  pub listed : In t ts
  pub passes : p t ≡ true
  pub least : (u : Ticket) → In u ts → p u ≡ true → t.sequence ≤ u.sequence

head-least :
    (t u : Ticket) (ts : List Ticket)
    → IsSorted ts
    → head? ts ≡ some t
    → In u ts
    → In t ts × (t.sequence ≤ u.sequence)
head-least t u [] s e m = elim m [ ]
head-least t u (x ∷ xs) s e m =
    let c : x ≡ t = some-injective x t e in
    (
      inl (sym c),
      rw (← c) (elim m [ inl d ↦ rw d (omega arith) | inr n ↦ All-mem (From x.sequence) xs n s.0 ]),
    )

pub sorted-head-IsFirst :
    (p : Ticket → Bool) (ts : List Ticket) (t : Ticket)
    → head? (sort_by_sequence (keep p ts)) ≡ some t
    → IsFirst p ts t
sorted-head-IsFirst p ts t e = record {
  listed = (keep_sound p ts m).0;
  passes = (keep_sound p ts m).1;
  least = λ u n h.
      let k = (sort-mem u (keep p ts)).1 (keep_complete p ts n h) in
      (head-least t u (sort_by_sequence (keep p ts)) (sort-IsSorted (keep p ts)) e k).1;
}
  where
    first : (us : List Ticket) → head? us ≡ some t → In t us
    first [] e = absurd (some-ne-none t (sym e))
    first (x ∷ us) e = inl (sym (some-injective x t e))

    m : In t (keep p ts)
    m = (sort-mem t (keep p ts)).0 (first (sort_by_sequence (keep p ts)) e)

pub sorted-head_none :
    (p : Ticket → Bool) (ts : List Ticket) (u : Ticket)
    → head? (sort_by_sequence (keep p ts)) ≡ none
    → In u ts
    → p u ≡ false
sorted-head_none p ts u e m = elim (Bool-cases (p u)) [
  | inl good ↦ absurd (
      empty (sort_by_sequence (keep p ts)) e
        ((sort-mem u (keep p ts)).1 (keep_complete p ts m good)))
  | inr bad ↦ bad
]
  where
    empty : (us : List Ticket) → head? us ≡ none → In u us → ⊥
    empty [] e m = m
    empty (x ∷ us) e m = some-ne-none x e
