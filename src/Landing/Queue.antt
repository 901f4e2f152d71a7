-- ===== src/Landing/Queue.antt =====
-- The landing queue, src/hubLandingQueue.ts: tickets and the queue file. The file `queue.json` is
-- modelled by what `readHubLandingQueue` returns for it, an `Option Queue`; an operation takes the
-- file and returns the file that it leaves, with its result.
pub mod TicketId
pub mod Assign
pub mod Head
pub mod Marks
pub mod Quiet
pub mod Validity
pub mod Update
pub mod Order
pub mod Fifo
pub mod Steady
pub mod QuietWait
pub mod Drift
pub mod Delivery
pub mod Suffix
pub mod Extends
pub mod Round
pub mod Assigned
mod Tests
use arch_loop.Prelude.{
  ℕ, String, Option, none, some, List, [], ◌∷◌, map, Bool, true, false, if◌then◌else◌, ◌==◌, find,
}

pub data TicketStatus : Type 0 where
  queued speculating verified landed publishing invalidated : TicketStatus
  blocked_unshipped_prerequisite failed target_quiet_wait : TicketStatus

pub record Ticket : Type 0 where
  pub ticket_id : String
  pub sequence : ℕ
  pub task_id : String
  pub assigned_at : String
  pub status : TicketStatus
  pub blocker_task_ids : List String
  pub source_oid : Option String
  pub predecessor_oid : Option String
  pub candidate_oid : Option String
  pub transaction_id : Option String
  pub activation_id : Option String
  pub activation_drift_rebuilds : ℕ
  pub last_observed_target_oid : Option String
  pub quiet_wait_entered_at : Option String
  pub suffix_invalidated_at : Option String
  pub suffix_invalidation_reason : Option String

pub record Queue : Type 0 where
  pub publish_target_ref : String
  pub next_sequence : ℕ
  pub tickets : List Ticket

abbrev pub File : Type 0
File = Option Queue

abbrev pub is_task : String → Ticket → Bool
is_task task t = t.task_id == task

abbrev pub tickets_of : File → List Ticket
tickets_of none = []
tickets_of (some q) = q.tickets

unfoldable pub find_ticket : String → File → Option Ticket
find_ticket task file = find (is_task task) (tickets_of file)

unfoldable pub empty_queue : String → Queue
empty_queue ref = record { publish_target_ref = ref; next_sequence = 1; tickets = [] }

abbrev pub swap_in : Ticket → Ticket → Ticket
swap_in t entry = if entry.ticket_id == t.ticket_id then t else entry

unfoldable pub replace_ticket : Queue → Ticket → Queue
replace_ticket q t = record q { tickets = map (swap_in t) q.tickets }

-- `updateTicket`; the patch is the function from the ticket to `{ ...ticket, ...patch }`
unfoldable pub update_ticket : String → (Ticket → Ticket) → File → File × Option Ticket
unfolding replace_ticket
update_ticket task patch none = (none, none)
update_ticket task patch (some q) = elim (find (is_task task) q.tickets) [
  | none ↦ (some q, none)
  | some current ↦ (some (replace_ticket q (patch current)), some (patch current))
]
