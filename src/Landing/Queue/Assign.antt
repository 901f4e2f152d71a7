-- ===== src/Landing/Queue/Assign.antt =====
-- Tickets for tasks: `assignHubLandingQueueTickets` and `ensureHubLandingQueueTicket`.
use arch_loop.Prelude.{
  ℕ, ◌+◌, String, Option, none, some, List, [], ◌∷◌, ◌++◌, if◌then◌else◌, ◌==◌, or_else, or_option,
}
use arch_loop.Landing.Queue.{
  TicketStatus, queued, invalidated, Ticket, Queue, File, empty_queue, find_ticket,
}
use arch_loop.Landing.Queue.TicketId.{ticket_id}

pub record TaskInput : Type 0 where
  pub task_id : String
  pub blocker_task_ids : Option (List String)
  pub source_oid : Option String

-- The `Map` from task ids to tickets, newest entry first.
abbrev pub TicketMap : Type 0
TicketMap = List (String × Ticket)

unfoldable pub get : String → TicketMap → Option Ticket
get task [] = none
get task ((k, t) ∷ m) = if k == task then some t else get task m

-- `new Map(tickets.map(...))`: a later ticket of the same task wins
unfoldable pub map_from : TicketMap → List Ticket → TicketMap
map_from m [] = m
map_from m (t ∷ ts) = map_from ((t.task_id, t) ∷ m) ts

abbrev pub refresh_invalidated : TicketStatus → TicketStatus
refresh_invalidated invalidated = queued
refresh_invalidated s = s

-- `tickets[index] = updated` at the first ticket with the id, if there is one
unfoldable pub set_first : String → Ticket → List Ticket → List Ticket
set_first id t [] = []
set_first id t (u ∷ us) = if u.ticket_id == id then t ∷ us else u ∷ set_first id t us

abbrev pub refreshed : TaskInput → Ticket → Ticket
refreshed task current = record current {
  blocker_task_ids = or_else task.blocker_task_ids current.blocker_task_ids;
  source_oid = or_option task.source_oid current.source_oid;
  status = refresh_invalidated current.status;
}

unfoldable pub new_ticket : TaskInput → ℕ → String → Ticket
new_ticket task sequence now = record {
  ticket_id = ticket_id task.task_id sequence;
  sequence = sequence;
  task_id = task.task_id;
  assigned_at = now;
  status = queued;
  blocker_task_ids = or_else task.blocker_task_ids [];
  source_oid = task.source_oid;
  predecessor_oid = none;
  candidate_oid = none;
  transaction_id = none;
  activation_id = none;
  activation_drift_rebuilds = 0;
  last_observed_target_oid = none;
  quiet_wait_entered_at = none;
  suffix_invalidated_at = none;
  suffix_invalidation_reason = none;
}

-- What the loop of `assignHubLandingQueueTickets` carries.
pub record Progress : Type 0 where
  pub by_task : TicketMap
  pub next_sequence : ℕ
  pub tickets : List Ticket

-- one round of the loop; a ticket that exists is refreshed and keeps its place
unfoldable pub assign_task : String → Progress → TaskInput → Progress
unfolding get set_first new_ticket
assign_task now p task = elim (get task.task_id p.by_task) [
  | some current ↦ record p {
    tickets = set_first current.ticket_id (refreshed task current) p.tickets;
  }
  | none ↦
      let t = new_ticket task p.next_sequence now in
      record {
        by_task = (task.task_id, t) ∷ p.by_task;
        next_sequence = p.next_sequence + 1;
        tickets = p.tickets ++ (t ∷ []);
      }
]

unfoldable pub assign_all : String → Progress → List TaskInput → Progress
assign_all now p [] = p
assign_all now p (task ∷ tasks) = assign_all now (assign_task now p task) tasks

unfoldable pub start : Queue → Progress
unfolding map_from
start q = record {
  by_task = map_from [] q.tickets;
  next_sequence = q.next_sequence;
  tickets = q.tickets;
}

-- the queue that is written and returned
unfoldable pub assign_tickets : String → String → List TaskInput → File → Queue
unfolding empty_queue start assign_all assign_task
assign_tickets now ref tasks file =
    let p = assign_all now (start (or_else file (empty_queue ref))) tasks in
    record { publish_target_ref = ref; next_sequence = p.next_sequence; tickets = p.tickets }

-- `find(...)!` is `none` where the source would return undefined
unfoldable pub ensure_ticket : String → String → TaskInput → File → File × Option Ticket
unfolding assign_tickets find_ticket
ensure_ticket now ref task file =
    let q = assign_tickets now ref (task ∷ []) file in (some q, find_ticket task.task_id (some q))
