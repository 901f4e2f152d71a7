-- ===== src/Landing/Queue/Update.antt =====
-- `updateTicket` of src/hubLandingQueue.ts on a well-formed queue: the ticket of the task is
-- patched, every other one is left alone, and the queue stays well formed.
use arch_loop.Prelude.{
  ℕ, ◌≡◌, refl, String, none, some, List, [], ◌∷◌, map, In, true, ◌==◌, eq_iff, eq_refl, find,
  find-mem, All, All-mem, Bool-cases, Option-cases, inl, inr, arith, subst,
}
use mathlib.Core.Option
use mathlib.Core.Option.{some-injective, some-ne-none}
use arch_loop.Landing.Queue.{
  Ticket, File, is_task, swap_in, find_ticket, update_ticket, replace_ticket,
}
use arch_loop.Landing.Queue.Validity.{
  Before, IsOrdered, IsNumbered, IsValidFile, Keeps, at_task, map-IsValid, ticket_id-ne,
}

module _ (next : ℕ) (t : Ticket) (numbered : IsNumbered next t) where
  -- Behind a ticket nothing has its id.
  swap_in-past :
      (u : Ticket) (ts : List Ticket)
      → u.ticket_id ≡ t.ticket_id
      → All (Before t) ts
      → All (IsNumbered next) ts
      → map (swap_in u) ts ≡ ts
  swap_in-past u [] e h k = refl
  swap_in-past u (x ∷ xs) e h k = ground (
    arith,
    swap_in-past u xs e h.1 k.1,
    eq_iff x.ticket_id u.ticket_id,
    ticket_id-ne t x h.0 numbered k.0,
  )

at_task-past :
    (task : String) (patch : Ticket → Ticket) (t : Ticket) (ts : List Ticket)
    → t.task_id ≡ task
    → All (Before t) ts
    → map (at_task task patch) ts ≡ ts
at_task-past task patch t [] e h = refl
at_task-past task patch t (x ∷ xs) e h =
    ground (arith, at_task-past task patch t xs e h.1, eq_iff x.task_id task, h.0.1)

-- The step of the search at a ticket of the task, and at another one.
swap_in-here :
    (next : ℕ) (task : String) (patch : Ticket → Ticket) (x : Ticket) (xs : List Ticket)
    → (patch x).ticket_id ≡ x.ticket_id
    → IsOrdered (x ∷ xs)
    → All (IsNumbered next) (x ∷ xs)
    → (x.task_id == task) ≡ true
    → map (swap_in (patch x)) (x ∷ xs) ≡ map (at_task task patch) (x ∷ xs)
swap_in-here next task patch x xs same h k here = rw (
  swap_in-past next x k.0 (patch x) xs same h.0 k.1,
  at_task-past task patch x xs ((eq_iff x.task_id task).0 here) h.0,
  same,
  eq_refl x.ticket_id,
  here,
)

swap_in-there :
    (next : ℕ) (patch : Ticket → Ticket) (current x : Ticket) (xs : List Ticket)
    → (patch current).ticket_id ≡ current.ticket_id
    → IsOrdered (x ∷ xs)
    → All (IsNumbered next) (x ∷ xs)
    → In current xs
    → swap_in (patch current) x ≡ x
swap_in-there next patch current x xs same h k m = ground (
  arith,
  eq_iff x.ticket_id (patch current).ticket_id,
  ticket_id-ne x current (All-mem (Before x) xs m h.0) k.0 (All-mem (IsNumbered next) xs m k.1),
)

swap_in-at_task :
    (next : ℕ) (task : String) (patch : Ticket → Ticket) (current : Ticket) (ts : List Ticket)
    → (patch current).ticket_id ≡ current.ticket_id
    → IsOrdered ts
    → All (IsNumbered next) ts
    → find (is_task task) ts ≡ some current
    → map (swap_in (patch current)) ts ≡ map (at_task task patch) ts
swap_in-at_task next task patch current [] same h k e = cc
swap_in-at_task next task patch current (x ∷ xs) same h k e =
    elim (Bool-cases (x.task_id == task)) [
      | inl here ↦
          let c : x ≡ current = some-injective x current (rw here at e) in
          subst (λ y. map (swap_in (patch y)) (x ∷ xs) ≡ map (at_task task patch) (x ∷ xs)) c
            (swap_in-here next task patch x xs (rw (← c) at same) h k here)
      | inr there ↦
          let later : find (is_task task) xs ≡ some current = rw there at e in
          rw (
            swap_in-there next patch current x xs same h k (find-mem (is_task task) xs later).0,
            swap_in-at_task next task patch current xs same h.1 k.1 later,
            there,
          )
    ]

-- A task without a ticket: nothing is patched.
at_task-absent :
    (task : String) (patch : Ticket → Ticket) (ts : List Ticket)
    → find (is_task task) ts ≡ none
    → map (at_task task patch) ts ≡ ts
at_task-absent task patch [] e = refl
at_task-absent task patch (x ∷ xs) e = elim (Bool-cases (x.task_id == task)) [
  | inl here ↦ absurd (some-ne-none x (rw here at e))
  | inr there ↦ rw (there, at_task-absent task patch xs (rw there at e))
]

-- `updateTicket` as a map over the queue.
abbrev pub patched : String → (Ticket → Ticket) → File → File
patched task patch none = none
patched task patch (some q) = some (record q { tickets = map (at_task task patch) q.tickets })

pub update_ticket_lem :
    (task : String) (patch : Ticket → Ticket) (file : File)
    → ((t : Ticket) → Keeps t (patch t))
    → IsValidFile file
    → update_ticket task patch file
      ≡ (patched task patch file, Option.map patch (find_ticket task file))
unfolding update_ticket replace_ticket find_ticket
update_ticket_lem task patch none keeps v = refl
update_ticket_lem task patch (some q) keeps v =
    elim (Option-cases (find (is_task task) q.tickets)) [
      | inl absent ↦ rw (absent, update_ticket, at_task-absent task patch q.tickets absent)
      | inr (t, found) ↦ rw (
        found,
        update_ticket,
        swap_in-at_task q.next_sequence task patch t q.tickets (keeps t).2 v.ordered v.numbered
            found,
      )
    ]

pub patched-IsValid :
    (task : String) (patch : Ticket → Ticket) (file : File)
    → ((t : Ticket) → Keeps t (patch t))
    → IsValidFile file
    → IsValidFile (patched task patch file)
patched-IsValid task patch none keeps v = tt
patched-IsValid task patch (some q) keeps v =
    map-IsValid (at_task task patch) (λ t. ground (arith, (keeps t).0, (keeps t).1, (keeps t).2)) q
      v

pub update_ticket-IsValid :
    (task : String) (patch : Ticket → Ticket) (file : File)
    → ((t : Ticket) → Keeps t (patch t))
    → IsValidFile file
    → IsValidFile (update_ticket task patch file).0
update_ticket-IsValid task patch file keeps v =
    rw (update_ticket_lem task patch file keeps v) (patched-IsValid task patch file keeps v)

find-at_task :
    (task other : String) (patch : Ticket → Ticket) (ts : List Ticket)
    → ((t : Ticket) → Keeps t (patch t))
    → find (is_task other) (map (at_task task patch) ts)
      ≡ Option.map (at_task task patch) (find (is_task other) ts)
find-at_task task other patch [] keeps = refl
find-at_task task other patch (x ∷ xs) keeps =
    let same : (at_task task patch x).task_id ≡ x.task_id = ground (arith, (keeps x).1) in
    rw (same) (elim (Bool-cases (x.task_id == other)) [
      | inl here ↦ rw here
      | inr there ↦ rw there (find-at_task task other patch xs keeps)
    ])

-- What a search finds after an update: the patched ticket for the task, what it found before for
-- any other task.
pub find_ticket-update_ticket :
    (task other : String) (patch : Ticket → Ticket) (file : File)
    → ((t : Ticket) → Keeps t (patch t))
    → IsValidFile file
    → find_ticket other (update_ticket task patch file).0
      ≡ Option.map (at_task task patch) (find_ticket other file)
unfolding find_ticket
find_ticket-update_ticket task other patch none keeps v =
    rw (update_ticket_lem task patch none keeps v)
find_ticket-update_ticket task other patch (some q) keeps v =
    rw (update_ticket_lem task patch (some q) keeps v)
      (find-at_task task other patch q.tickets keeps)
