-- ===== src/Landing/Queue/Validity.antt =====
-- The well-formed queue: tickets stand in the order of their sequence numbers, one for each task,
-- with the ids of src/hubLandingQueue.ts; and the list lemmas that operations on it share.
use arch_loop.Prelude.{
  ℕ, ◌<◌, ◌≡◌, sym, ◌∙◌, ◌≢◌, String, none, some, List, [], ◌∷◌, map, if◌then◌else◌, ◌==◌, All,
  arith,
}
use arch_loop.Landing.Queue.{Ticket, Queue, File}
use arch_loop.Landing.Queue.TicketId.{ticket_id, ticket_id-injective}

abbrev pub Before : Ticket → Ticket → Type 0
Before t u = (t.sequence < u.sequence) × (t.task_id ≢ u.task_id)

abbrev pub IsOrdered : List Ticket → Type 0
IsOrdered [] = Unit
IsOrdered (t ∷ ts) = All (Before t) ts × IsOrdered ts

abbrev pub IsNumbered : ℕ → Ticket → Type 0
IsNumbered next t = (t.sequence < next) × (t.ticket_id ≡ ticket_id t.task_id t.sequence)

pub record IsValid (q : Queue) : Type 0 where
  pub ordered : IsOrdered q.tickets
  pub numbered : All (IsNumbered q.next_sequence) q.tickets

-- The file is missing or holds a well-formed queue.
abbrev pub IsValidFile : File → Type 0
IsValidFile none = Unit
IsValidFile (some q) = IsValid q

-- A change of a ticket that keeps its identity and its place.
abbrev pub Keeps : Ticket → Ticket → Type 0
Keeps t u = (u.sequence ≡ t.sequence) × (u.task_id ≡ t.task_id) × (u.ticket_id ≡ t.ticket_id)

abbrev pub at_task : String → (Ticket → Ticket) → Ticket → Ticket
at_task task patch t = if t.task_id == task then patch t else t

module _ (f : Ticket → Ticket) (keeps : (t : Ticket) → Keeps t (f t)) where
  map-All-Before :
      (t : Ticket) (ts : List Ticket) → All (Before t) ts → All (Before (f t)) (map f ts)
  map-All-Before t [] h = tt
  map-All-Before t (u ∷ us) h = (
    (omega (arith, keeps t, keeps u), λ e. h.0.1 (sym (keeps t).1 ∙ e ∙ (keeps u).1)),
    map-All-Before t us h.1,
  )

  pub map-IsOrdered : (ts : List Ticket) → IsOrdered ts → IsOrdered (map f ts)
  map-IsOrdered [] h = tt
  map-IsOrdered (t ∷ ts) h = (map-All-Before t ts h.0, map-IsOrdered ts h.1)

  pub map-All-IsNumbered :
      (next : ℕ) (ts : List Ticket) → All (IsNumbered next) ts → All (IsNumbered next) (map f ts)
  map-All-IsNumbered next [] h = tt
  map-All-IsNumbered next (t ∷ ts) h = (
    (omega (arith, keeps t), cc ((keeps t).0, (keeps t).1, (keeps t).2, h.0.1)),
    map-All-IsNumbered next ts h.1,
  )

  pub map-IsValid : (q : Queue) → IsValid q → IsValid (record q { tickets = map f q.tickets })
  map-IsValid q v = record {
    ordered = map-IsOrdered q.tickets v.ordered;
    numbered = map-All-IsNumbered q.next_sequence q.tickets v.numbered;
  }

pub ticket_id-ne :
    {next : ℕ} (t u : Ticket)
    → Before t u
    → IsNumbered next t
    → IsNumbered next u
    → t.ticket_id ≢ u.ticket_id
ticket_id-ne t u b h k e = absurd (
    omega
      (arith, ticket_id-injective t.task_id u.task_id t.sequence u.sequence (sym h.1 ∙ e ∙ k.1)))
