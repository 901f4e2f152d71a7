-- ===== src/Recovery/Router.antt =====
-- Where an interrupted task goes, src/hubTaskRecoveryRouter.ts.
use arch_loop.Prelude.{
  String, Option, none, some, List, [], ◌∷◌, Bool, true, false, if◌then◌else◌, ◌==◌, is_some,
}
use arch_loop.Recovery.{
  HubTaskStatus, reviewing, waiting_for_merge, ready_for_agent, Event,
  task_implementation_succeeded, task_review_succeeded, other_event,
}

-- The status of `task_implementation_succeeded`, where it is one of the two next phases.
abbrev next_phase : String → Option HubTaskStatus
next_phase status =
    if status == "reviewing"
    then some reviewing
    else if status == "waiting_for_merge"
    then some waiting_for_merge
    else none

-- `resolvePhaseCompletionStatus` of an event that is there
unfoldable pub completion_status : Event → Option HubTaskStatus
completion_status e = elim e.type [
  | task_review_succeeded ↦ some waiting_for_merge
  | task_implementation_succeeded ↦ next_phase e.status
  | other_event name ↦ none
]

unfoldable pub is_phase_completion : Event → Bool
unfolding completion_status
is_phase_completion e = is_some (completion_status e)

-- A `Map` from task ids to events, newest entry first.
abbrev pub EventMap : Type 0
EventMap = List (String × Event)

unfoldable pub event_of : String → EventMap → Option Event
event_of task [] = none
event_of task ((k, e) ∷ m) = if k == task then some e else event_of task m

unfoldable pub latest_from : EventMap → List Event → EventMap
unfolding is_phase_completion
latest_from m [] = m
latest_from m (e ∷ es) = latest_from (if is_phase_completion e then (e.task_id, e) ∷ m else m) es

-- `latestPhaseCompletionEventByTask`
unfoldable pub latest_completion : List Event → EventMap
unfolding latest_from
latest_completion events = latest_from [] events

-- `InterruptedTaskRecoveryRoute`; the reason tells which sentence it is
pub data RouteReason : Type 0 where
  phase_completed reuses_worktree fresh : RouteReason

pub record Route : Type 0 where
  pub target_status : HubTaskStatus
  pub preserve_claim : Bool
  pub reason : RouteReason

retry : Bool → Route
retry has_work = record {
  target_status = ready_for_agent;
  preserve_claim = false;
  reason = if has_work then reuses_worktree else fresh;
}

resume_at : HubTaskStatus → Route
resume_at status = record {
  target_status = status;
  preserve_claim = true;
  reason = phase_completed;
}

unfoldable pub route_by : Option HubTaskStatus → Bool → Route
unfolding retry resume_at
route_by none has_work = retry has_work
route_by (some status) has_work = resume_at status

-- `routeInterruptedTaskRecovery`; the status of the task is only printed in the reason
unfoldable pub route : Option Event → Bool → Route
unfolding route_by
route none has_work = route_by none has_work
route (some e) has_work = route_by (completion_status e) has_work
