-- ===== src/Landing/Queue/Marks.antt =====
-- Recording what became of a ticket, and invalidating the suffix behind one.
use arch_loop.Prelude.{
  String, Option, none, some, List, [], ◌∷◌, map, Bool, true, false, ◌||◌, if◌then◌else◌, ◌==◌, leb,
  find, keep,
}
use arch_loop.Landing.Queue.{
  speculating, verified, landed, publishing, invalidated, blocked_unshipped_prerequisite, failed,
  Ticket, File, is_task, update_ticket,
}
use arch_loop.Landing.Queue.Head.{is_terminal, is_blocked}

-- `HubLandingPublishPolicy` of src/hubLandingPolicy.ts
pub data PublishPolicy : Type 0 where
  off best_effort required : PublishPolicy

abbrev pub with_candidate : String → String → String → String → Ticket → Ticket
with_candidate source predecessor candidate transaction t = record t {
  status = speculating;
  source_oid = some source;
  predecessor_oid = some predecessor;
  candidate_oid = some candidate;
  transaction_id = some transaction;
}

unfoldable pub record_candidate :
    String → String → String → String → String → File → File × Option Ticket
unfolding update_ticket
record_candidate task source predecessor candidate transaction =
    update_ticket task (with_candidate source predecessor candidate transaction)

unfoldable pub mark_verified : String → File → File × Option Ticket
unfolding update_ticket
mark_verified task = update_ticket task (λ t. record t { status = verified })

abbrev pub set_landed : Ticket → Ticket
set_landed t = record t {
  status = landed;
  activation_drift_rebuilds = 0;
  quiet_wait_entered_at = none;
}

abbrev pub set_publishing : Ticket → Ticket
set_publishing t = record t {
  status = publishing;
  activation_drift_rebuilds = 0;
  quiet_wait_entered_at = none;
}

unfoldable pub mark_landed : String → File → File × Option Ticket
unfolding update_ticket
mark_landed task =
    update_ticket task (λ t. record t {
      status = landed;
      activation_drift_rebuilds = 0;
      quiet_wait_entered_at = none;
    })

unfoldable pub mark_publishing : String → File → File × Option Ticket
unfolding update_ticket
mark_publishing task = update_ticket task (λ t. record t {
  status = publishing;
  activation_drift_rebuilds = 0;
  quiet_wait_entered_at = none;
})

-- After the local land: a required delivery stays `publishing`.
unfoldable pub mark_after_local_land : String → PublishPolicy → File → File × Option Ticket
unfolding mark_publishing mark_landed
mark_after_local_land task required = mark_publishing task
mark_after_local_land task _ = mark_landed task

unfoldable pub mark_failed : String → File → File × Option Ticket
unfolding update_ticket
mark_failed task = update_ticket task (λ t. record t { status = failed })

unfoldable pub mark_blocked_prerequisite : String → File → File × Option Ticket
unfolding update_ticket
mark_blocked_prerequisite task =
    update_ticket task (λ t. record t { status = blocked_unshipped_prerequisite })

-- the tickets that `invalidateHubLandingSpeculativeSuffix` leaves alone
unfoldable pub is_kept : Ticket → Ticket → Bool
is_kept origin t = leb t.sequence origin.sequence || is_terminal t.status || is_blocked t.status

abbrev pub invalidate : String → String → Ticket → Ticket
invalidate now reason t = record t {
  status = invalidated;
  candidate_oid = none;
  predecessor_oid = none;
  transaction_id = none;
  suffix_invalidated_at = some now;
  suffix_invalidation_reason = some reason;
}

unfoldable pub invalidate_past : String → String → Ticket → Ticket → Ticket
invalidate_past now reason origin t = if is_kept origin t then t else invalidate now reason t

abbrev pub is_dropped : Ticket → Ticket → Bool
is_dropped origin t = if is_kept origin t then false else true

-- `if (ticket.transactionId)`: the transactions that are handed to `invalidateHubLandingCandidate`
abbrev pub transactions : List Ticket → List String
transactions [] = []
transactions (t ∷ ts) = elim t.transaction_id [
  | none ↦ transactions ts
  | some id ↦ if id == "" then transactions ts else id ∷ transactions ts
]

-- The file that is left, the tickets that were invalidated, and the transactions whose candidates
-- were, in the order of the calls.
unfoldable pub invalidate_suffix :
    String → String → String → File → File × List Ticket × List String
unfolding invalidate_past is_kept
invalidate_suffix now reason from none = (none, [], [])
invalidate_suffix now reason from (some q) = elim (find (is_task from) q.tickets) [
  | none ↦ (some q, [], [])
  | some origin ↦ (
    some (record q { tickets = map (invalidate_past now reason origin) q.tickets }),
    map (invalidate now reason) (keep (is_dropped origin) q.tickets),
    transactions (keep (is_dropped origin) q.tickets),
  )
]
