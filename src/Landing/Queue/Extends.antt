-- ===== src/Landing/Queue/Extends.antt =====
-- Queues that grow at their end: tickets that keep their identity and place, and new ones behind.
use arch_loop.Prelude.{
  ℕ, ◌+◌, ◌≤◌, ◌≡◌, refl, sym, ◌∙◌, ◌≢◌, ◌⊎◌, String, List, [], ◌∷◌, ◌++◌, ◌==◌, eq_iff, In, All,
  All-mem, All-append, Bool-cases, inl, inr, arith,
}
use arch_loop.Landing.Queue.{Ticket}
use arch_loop.Landing.Queue.Assign.{set_first}
use arch_loop.Landing.Queue.Validity.{Before, IsOrdered, IsNumbered, Keeps}

-- The tickets of the first list, each changed at most beside its identity and place, and behind
-- them tickets numbered from `next` on.
abbrev pub Extends : ℕ → List Ticket → List Ticket → Type 0
Extends next [] us = All (λ u. next ≤ u.sequence) us
Extends next (t ∷ ts) [] = ⊥
Extends next (t ∷ ts) (u ∷ us) = Keeps t u × Extends next ts us

pub Extends-refl : (next : ℕ) (ts : List Ticket) → Extends next ts ts
Extends-refl next [] = tt
Extends-refl next (t ∷ ts) = ((refl, refl, refl), Extends-refl next ts)

pub Keeps-trans : (t u v : Ticket) → Keeps t u → Keeps u v → Keeps t v
Keeps-trans t u v h k = (k.0 ∙ h.0, k.1 ∙ h.1, k.2 ∙ h.2)

pub Keeps-sym : (t u : Ticket) → Keeps t u → Keeps u t
Keeps-sym t u h = (sym h.0, sym h.1, sym h.2)

from_weaken :
    (n m : ℕ) (ts : List Ticket)
    → n ≤ m
    → All (λ u. m ≤ u.sequence) ts
    → All (λ u. n ≤ u.sequence) ts
from_weaken n m [] le h = tt
from_weaken n m (t ∷ ts) le h = (omega arith, from_weaken n m ts le h.1)

from_Extends :
    (n m : ℕ) (ts us : List Ticket)
    → n ≤ m
    → All (λ u. n ≤ u.sequence) ts
    → Extends m ts us
    → All (λ u. n ≤ u.sequence) us
from_Extends n m [] us le h e = from_weaken n m us le e
from_Extends n m (t ∷ ts) [] le h e = tt
from_Extends n m (t ∷ ts) (u ∷ us) le h e =
    (omega (arith, e.0.0), from_Extends n m ts us le h.1 e.1)

pub Extends-trans :
    (n m : ℕ) (ts us vs : List Ticket) → n ≤ m → Extends n ts us → Extends m us vs → Extends n ts vs
Extends-trans n m [] us vs le h k = from_Extends n m us vs le h k
Extends-trans n m (t ∷ ts) [] vs le h k = absurd h
Extends-trans n m (t ∷ ts) (u ∷ us) [] le h k = k
Extends-trans n m (t ∷ ts) (u ∷ us) (v ∷ vs) le h k =
    (Keeps-trans t u v h.0 k.0, Extends-trans n m ts us vs le h.1 k.1)

pub Extends-push :
    (next : ℕ) (t : Ticket) (ts : List Ticket)
    → t.sequence ≡ next
    → Extends next ts (ts ++ (t ∷ []))
Extends-push next t [] e = (omega arith, tt)
Extends-push next t (u ∷ us) e = ((refl, refl, refl), Extends-push next t us e)

-- What `set_first` leaves, where the ticket that it puts in keeps the identity of the one that it
-- replaces.
pub Extends-set_first :
    (next : ℕ) (id : String) (t : Ticket) (ts : List Ticket)
    → ((u : Ticket) → In u ts → u.ticket_id ≡ id → Keeps u t)
    → Extends next ts (set_first id t ts)
unfolding set_first
Extends-set_first next id t [] h = tt
Extends-set_first next id t (u ∷ us) h = elim (Bool-cases (u.ticket_id == id)) [
  | inl here ↦ rw here (h u (inl refl) ((eq_iff u.ticket_id id).0 here), Extends-refl next us)
  | inr there ↦ rw there ((refl, refl, refl), Extends-set_first next id t us (λ v m. h v (inr m)))
]

-- A member before has its successor after.
pub Extends-forward :
    (next : ℕ) (ts us : List Ticket) (t : Ticket)
    → Extends next ts us
    → In t ts
    → (u : Ticket) × In u us × Keeps t u
Extends-forward next [] us t e m = elim m [ ]
Extends-forward next (x ∷ ts) [] t e m = absurd e
Extends-forward next (x ∷ ts) (u ∷ us) t e (inl c) = (u, inl refl, rw c e.0)
Extends-forward next (x ∷ ts) (u ∷ us) t e (inr m) =
    let (v, n, k) = Extends-forward next ts us t e.1 m in (v, inr n, k)

-- A member after is the successor of one before, or new.
pub Extends-backward :
    (next : ℕ) (ts us : List Ticket) (u : Ticket)
    → Extends next ts us
    → In u us
    → ((t : Ticket) × In t ts × Keeps t u) ⊎ (next ≤ u.sequence)
Extends-backward next [] us u e m = inr (All-mem (λ v. next ≤ v.sequence) us m e)
Extends-backward next (t ∷ ts) [] u e m = elim m [ ]
Extends-backward next (t ∷ ts) (x ∷ us) u e (inl c) = inl (t, inl refl, rw c e.0)
Extends-backward next (t ∷ ts) (x ∷ us) u e (inr m) = elim (Extends-backward next ts us u e.1 m) [
  | inl (s, n, k) ↦ inl (s, inr n, k)
  | inr new ↦ inr new
]

pub IsOrdered-push :
    (next : ℕ) (t : Ticket) (ts : List Ticket)
    → t.sequence ≡ next
    → ((u : Ticket) → In u ts → u.task_id ≢ t.task_id)
    → All (IsNumbered next) ts
    → IsOrdered ts
    → IsOrdered (ts ++ (t ∷ []))
IsOrdered-push next t [] e other h o = (tt, tt)
IsOrdered-push next t (u ∷ us) e other h o = (
  All-append (Before u) us (t ∷ []) o.0 ((omega (arith, h.0.0), other u (inl refl)), tt),
  IsOrdered-push next t us e (λ v m. other v (inr m)) h.1 o.1,
)

pub IsNumbered-suc :
    (next : ℕ) (ts : List Ticket) → All (IsNumbered next) ts → All (IsNumbered (next + 1)) ts
IsNumbered-suc next [] h = tt
IsNumbered-suc next (t ∷ ts) h = ((omega (arith, h.0.0), h.0.1), IsNumbered-suc next ts h.1)

pub All-set_first :
    (P : Ticket → Type 0) (id : String) (t : Ticket) (ts : List Ticket)
    → ((u : Ticket) → In u ts → u.ticket_id ≡ id → P u → P t)
    → All P ts
    → All P (set_first id t ts)
unfolding set_first
All-set_first P id t [] h k = tt
All-set_first P id t (u ∷ us) h k = elim (Bool-cases (u.ticket_id == id)) [
  | inl here ↦ rw here (h u (inl refl) ((eq_iff u.ticket_id id).0 here) k.0, k.1)
  | inr there ↦ rw there (k.0, All-set_first P id t us (λ v m. h v (inr m)) k.1)
]

Before-Keeps_left :
    (t u : Ticket) (us : List Ticket) → Keeps u t → All (Before u) us → All (Before t) us
Before-Keeps_left t u [] k h = tt
Before-Keeps_left t u (v ∷ vs) k h =
    ((omega (arith, k.0, h.0.0), λ e. h.0.1 (sym k.1 ∙ e)), Before-Keeps_left t u vs k h.1)

module _ (id : String) (t : Ticket) where
  pub IsOrdered-set_first :
      (ts : List Ticket)
      → ((u : Ticket) → In u ts → u.ticket_id ≡ id → Keeps u t)
      → IsOrdered ts
      → IsOrdered (set_first id t ts)
  unfolding set_first
  IsOrdered-set_first [] h o = tt
  IsOrdered-set_first (u ∷ us) h o = elim (Bool-cases (u.ticket_id == id)) [
    | inl here ↦
        rw here
          (Before-Keeps_left t u us (h u (inl refl) ((eq_iff u.ticket_id id).0 here)) o.0, o.1)
    | inr there ↦ rw there (
      All-set_first (Before u) id t us (λ v m e b. after v (h v (inr m) e) b) o.0,
      IsOrdered-set_first us (λ v m. h v (inr m)) o.1,
    )
  ]
    where
      after : (v : Ticket) → Keeps v t → Before u v → Before u t
      after v k b = (omega (arith, k.0, b.0), λ e. b.1 (e ∙ k.1))

  pub IsNumbered-set_first :
      (next : ℕ) (ts : List Ticket)
      → ((u : Ticket) → In u ts → u.ticket_id ≡ id → Keeps u t)
      → All (IsNumbered next) ts
      → All (IsNumbered next) (set_first id t ts)
  IsNumbered-set_first next ts h k =
      All-set_first (IsNumbered next) id t ts (λ u m e n. same u (h u m e) n) k
    where
      same : (u : Ticket) → Keeps u t → IsNumbered next u → IsNumbered next t
      same u k n = (omega (arith, k.0, n.0), cc (k.0, k.1, k.2, n.1))
