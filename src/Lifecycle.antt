-- ===== src/Lifecycle.antt =====
-- What a run records of a task, src/hubTaskLifecycle.ts: the events of its log and the transitions of
-- its status. Of an event, the fields that recovery reads are kept.
pub mod Claiming
pub mod Claimant
pub mod Logged
pub mod Conflict
mod Tests
use arch_loop.Prelude.{
  String, Option, none, some, List, [], ◌∷◌, ◌++◌, Bool, true, false, ◌==◌, keep, any,
  if◌then◌else◌,
}
use arch_loop.Prelude.Json.{Json, Fields, bool, text, end, field}
use arch_loop.Recovery.{
  HubTaskStatus, reviewing, waiting_for_merge, merging, blocked, failed, sync_conflict,
  is_completed, Event, EventType, task_implementation_succeeded, task_review_succeeded, other_event,
}
use arch_loop.Board.{status_text}
use arch_loop.Board.Metadata.{spread, delete_key}
use arch_loop.Board.Projection.{BoardTask, Claim}
use arch_loop.Board.Written.{Request}
use arch_loop.Board.Transition.{
  TaskStore, Result, moved, refused, Refusal, not_loaded, load, transition, close_task,
}

abbrev pub request : HubTaskStatus → Fields → Option String → Request
request s metadata reason = record {
  hub_status = s;
  metadata = metadata;
  failure_reason = reason;
  labels_to_remove = [];
  replace_claim = false;
}

abbrev pub event : EventType → String → HubTaskStatus → Event
event type id s = record { type = type; task_id = id; status = status_text s }

-- `recordHubTaskStatusAdvanced`, the event
abbrev pub advanced : String → BoardTask → Event
advanced id t = event (other_event "task_status_advanced") id t.hub_status

-- `resolvePostImplementationStatus`
abbrev pub post_implementation_status : Bool → HubTaskStatus
post_implementation_status has_reviewer = if has_reviewer then reviewing else waiting_for_merge

abbrev add_text : String → Option String → Fields → Fields
add_text k none fs = fs
add_text k (some s) fs = field k (text s) fs

-- `materializeClaimMetadata`; a key without a value is left out, as in JSON
unfoldable pub materialize_claim : Claim → Fields
materialize_claim c = elim c.raw [
  | field k v fs ↦ field k v fs
  | end ↦ add_text "runId" c.run_id (
      add_text "batchId" c.batch_id
        (add_text "branch" c.branch (add_text "claimedAt" c.claimed_at end)))
]

unfoldable pub with_claim : Fields → Claim → Fields
unfolding spread materialize_claim
with_claim metadata c = spread metadata (field "claim" (Json.object (materialize_claim c)) end)

-- Why a merge phase failed: `MergePhaseFailureEvent`, by its type and reason.
pub data MergeFailure : Type 0 where
  merge_conflict merge_failed unknown verification_failure close_failed : MergeFailure

abbrev pub merge_failure_event : MergeFailure → String
merge_failure_event verification_failure = "verification_failed"
merge_failure_event close_failed = "task_close_failed"
merge_failure_event _ = "merge_failed"

abbrev pub merge_failure_reason : MergeFailure → String
merge_failure_reason merge_conflict = "merge_conflict"
merge_failure_reason merge_failed = "merge_failed"
merge_failure_reason unknown = "unknown"
merge_failure_reason verification_failure = "verification_failure"
merge_failure_reason close_failed = "close_failed"

-- `HubLandingRepairExhaustionReason`
pub data Exhaustion : Type 0 where
  merge_conflict_unresolved verification_failed : Exhaustion

abbrev pub exhaustion_text : Exhaustion → String
exhaustion_text merge_conflict_unresolved = "merge_conflict_unresolved"
exhaustion_text verification_failed = "verification_failed"

abbrev pub exhaustion_event : Exhaustion → String
exhaustion_event merge_conflict_unresolved = "merge_failed"
exhaustion_event verification_failed = "verification_failed"

unfoldable pub blocked_patch : Fields → Exhaustion → Fields
unfolding spread
blocked_patch metadata e = spread metadata (
    field "blocked" (bool true) (
      field "blocked_reason" (text (exhaustion_text e))
        (field "blockedReason" (text (exhaustion_text e)) end)))

-- `HUB_COLLABORATION_LABELS_TO_CLEAR`
abbrev pub collaboration_labels : List String
collaboration_labels =
    "needs-triage" ∷ "needs-info" ∷ "ready-for-agent" ∷ "ready-for-human" ∷ "blocked" ∷ "wontfix"
    ∷ "sync-conflict" ∷ []

-- the update of `recordHubTaskSyncConflict`
unfoldable pub conflict_request : BoardTask → String → Request
conflict_request task reason = record {
  hub_status = if is_completed task.hub_status then task.hub_status else sync_conflict;
  metadata = field "sync_state" (text "conflict") (field "sync_conflict_reason" (text reason) end);
  failure_reason = none;
  labels_to_remove =
      if is_completed task.hub_status
      then []
      else keep (λ l. any (λ x. x == l) task.labels) collaboration_labels;
  replace_claim = false;
}

module _ {S : Type 0} (bd : TaskStore S) where
  -- The task store and the log of task events of the run.
  abbrev pub World : Type 0
  World = S × List Event

  -- The event of the new status follows the transition, unless that throws.
  abbrev pub report : String → List Event → S × Result → World × Result
  report id log (s, moved t) = ((s, log ++ (advanced id t ∷ [])), moved t)
  report id log (s, refused r) = ((s, log), refused r)

  -- The event of an outcome stands in the log before the status of the task changes.
  unfoldable pub record_outcome : EventType → String → Request → World → World × Result
  unfolding transition
  record_outcome type id q (s, log) =
      report id (log ++ (event type id q.hub_status ∷ [])) (transition bd id q s)

  -- `recordImplementationSuccess`
  unfoldable pub record_implementation_success :
      String → Bool → Fields → Claim → World → World × Result
  unfolding record_outcome with_claim
  record_implementation_success id has_reviewer metadata c =
      record_outcome task_implementation_succeeded id
        (request (post_implementation_status has_reviewer) (with_claim metadata c) none)

  -- `recordImplementationFailure`
  unfoldable pub record_implementation_failure :
      String → String → Fields → Claim → World → World × Result
  unfolding record_outcome with_claim
  record_implementation_failure id reason metadata c =
      record_outcome (other_event "task_implementation_failed") id
        (request failed (with_claim metadata c) (some reason))

  -- `recordHubTaskReviewSuccess`
  unfoldable pub record_review_success : String → Fields → Claim → World → World × Result
  unfolding record_outcome with_claim
  record_review_success id metadata c =
      record_outcome task_review_succeeded id
        (request waiting_for_merge (with_claim metadata c) none)

  -- `recordHubTaskReviewFailure`
  unfoldable pub record_review_failure : String → String → Fields → World → World × Result
  unfolding record_outcome
  record_review_failure id reason metadata =
      record_outcome (other_event "task_review_failed") id (request failed metadata (some reason))

  -- `recordMergePhaseFailure`
  unfoldable pub record_merge_phase_failure :
      String → MergeFailure → Fields → World → World × Result
  unfolding record_outcome
  record_merge_phase_failure id f metadata =
      record_outcome (other_event (merge_failure_event f)) id
        (request failed metadata (some (merge_failure_reason f)))

  -- `recordRepairExhaustion`
  unfoldable pub record_repair_exhaustion : String → Exhaustion → Fields → World → World × Result
  unfolding record_outcome blocked_patch
  record_repair_exhaustion id e metadata =
      record_outcome (other_event (exhaustion_event e)) id
        (request blocked (blocked_patch metadata e) none)

  abbrev pub report_closure : String → List Event → S × Result → World × Result
  report_closure id log (s, moved t) = (
    (s, log ++ (event (other_event "task_closed") id t.hub_status ∷ advanced id t ∷ [])),
    moved t,
  )
  report_closure id log (s, refused r) = ((s, log), refused r)

  -- `recordTaskClosure` with the default closer: the task is closed before the events
  unfoldable pub record_task_closure : String → Fields → World → World × Result
  unfolding close_task
  record_task_closure id metadata (s, log) = report_closure id log (close_task bd id metadata s)

  -- `recordImplementationStarted`
  abbrev pub record_implementation_started : String → HubTaskStatus → World → World
  record_implementation_started id status (s, log) =
      (s, log ++ (event (other_event "task_implementation_started") id status ∷ []))

  -- `recordTaskMergeStarted`
  abbrev pub record_merge_started : String → World → World
  record_merge_started id (s, log) =
      (s, log ++ (event (other_event "merge_started") id merging ∷ []))

  -- `enterMergePhase`: the first task that is refused ends it
  unfoldable pub enter_merge_phase : List BoardTask → S → S × Option Refusal
  unfolding transition
  enter_merge_phase [] s = (s, none)
  enter_merge_phase (t ∷ ts) s =
      let (next, result) = transition bd t.id (request merging t.metadata none) s in
      elim result [ moved u ↦ enter_merge_phase ts next | refused r ↦ (next, some r) ]

  -- `revertTaskToWaitingForMerge`
  unfoldable pub revert_to_waiting : BoardTask → S → S × Result
  unfolding transition
  revert_to_waiting t = transition bd t.id (request waiting_for_merge t.metadata none)

  abbrev conflict_for : String → String → S → Option BoardTask → S × Result
  conflict_for id reason s none = (s, refused not_loaded)
  conflict_for id reason s (some task) = transition bd id (conflict_request task reason) s

  -- `recordHubTaskSyncConflict`
  unfoldable pub record_sync_conflict : String → String → S → S × Result
  unfolding load conflict_request
  record_sync_conflict id reason s = conflict_for id reason s (load bd id s)

  -- `releaseStaleHubTaskClaim` and `recoverFailedHubTask`, without the claim in the patch
  unfoldable pub persist_stripped : String → HubTaskStatus → Fields → S → S × Result
  unfolding transition delete_key
  persist_stripped id s metadata = transition bd id (request s (delete_key "claim" metadata) none)
