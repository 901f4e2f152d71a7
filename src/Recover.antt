-- ===== src/Recover.antt =====
-- The recovery of one task, src/hubTaskRecover.ts: what is planned. The sentences of the summaries
-- are kept as their kinds.
pub mod Apply
pub mod Said
pub mod Planned
pub mod Applied
mod Tests
use arch_loop.Prelude.{
  String, Option, none, some, List, [], ◌∷◌, Bool, true, false, ◌==◌, ◌||◌, any, if◌then◌else◌,
  is_some, or_else,
}
use arch_loop.Prelude.Json.{Json, Fields, null, bool, text, member, is_literal}
use arch_loop.Recovery.{
  HubTaskStatus, inbox, needs_info, ready_for_agent, ready_for_human, blocked, implementing,
  reviewing, merging, wontfix, failed, sync_conflict, Event,
}
use arch_loop.Recovery.Branch.{resolve_branch}
use arch_loop.Recovery.Router.{Route, RouteReason, route}
use arch_loop.Board.Status.{has_value, same_status, wontfix_keys}
use arch_loop.Board.Projection.{BoardTask, Claim, value_or}

-- `HubFailureReason`
pub data FailureReason : Type 0 where
  agent_failed sandbox_failed merge_conflict merge_failed : FailureReason
  verification_failure close_failed unknown : FailureReason

abbrev pub failure_named : String → FailureReason
failure_named s =
    if s == "agent_failed"
    then agent_failed
    else if s == "sandbox_failed"
    then sandbox_failed
    else if s == "merge_conflict"
    then merge_conflict
    else if s == "merge_failed"
    then merge_failed
    else if s == "verification_failure"
    then verification_failure
    else if s == "close_failed"
    then close_failed
    else unknown

abbrev pub failure_of : Option Json → Option FailureReason
failure_of (some (text s)) = some (failure_named s)
failure_of _ = none

-- `readFailureReason`
unfoldable pub read_failure_reason : BoardTask → Option FailureReason
read_failure_reason task =
    failure_of
      (value_or (member "failureReason" task.metadata) (member "failure_reason" task.metadata))

-- the test of one value in `hasTruthyMetadata`: beside the empty values, `false` is none
abbrev pub is_truthy_value : Option Json → Bool
is_truthy_value (some (bool false)) = false
is_truthy_value o = has_value o

abbrev pub has_truthy : Fields → List String → Bool
has_truthy fs ks = any (λ k. is_truthy_value (member k fs)) ks

abbrev pub reason_keys : List String
reason_keys = "blocked_reason" ∷ "blockedReason" ∷ "blocked_reason_kind" ∷ "blockedReasonKind" ∷ []

-- `HUMAN_FAILURE_REASONS`
abbrev pub is_human_failure : Option FailureReason → Bool
is_human_failure (some merge_conflict) = true
is_human_failure (some verification_failure) = true
is_human_failure _ = false

abbrev pub is_human_task : Fields → Bool
is_human_task fs =
    is_literal "HITL" (member "slice_type" fs)
    || is_literal "HITL" (member "sliceType" fs)
    || is_literal "human" (member "kind" fs)

-- `resolveFailedRecoveryTarget`
unfoldable pub failed_target : BoardTask → Option FailureReason → HubTaskStatus
failed_target task reason =
    if has_truthy task.metadata wontfix_keys
    then wontfix
    else if has_truthy task.metadata reason_keys
    then blocked
    else if is_human_task task.metadata
    then ready_for_human
    else if is_human_failure reason
    then ready_for_human
    else ready_for_agent

-- The sentence of a summary.
pub data Sentence : Type 0 where
  routed : RouteReason → Sentence
  routed_human : RouteReason → FailureReason → Sentence
  routed_override : RouteReason → HubTaskStatus → Sentence
  unmerged_work : String → Sentence
  cleared_failure : HubTaskStatus → String → Sentence
  closed_again : String → Sentence
  released : HubTaskStatus → Sentence
  with_cleanup : Sentence → String → Sentence

abbrev pub override_sentence : RouteReason → HubTaskStatus → Option FailureReason → Sentence
override_sentence r t none = routed_override r t
override_sentence r t (some f) =
    if same_status t ready_for_human
    then if is_human_failure (some f) then routed_human r f else routed_override r t
    else routed_override r t

-- `resolveStaleExecutionSummary`
unfoldable pub stale_sentence : Route → HubTaskStatus → Option FailureReason → Sentence
stale_sentence r t reason =
    if same_status t r.target_status then routed r.reason else override_sentence r.reason t reason

-- `StaleExecutionRecoveryPlan`
pub record Plan : Type 0 where
  pub prior_status : HubTaskStatus
  pub target_status : HubTaskStatus
  pub preserve_claim : Bool
  pub reason : Sentence

unfoldable pub plan_route : BoardTask → Route → Plan
unfolding read_failure_reason failed_target stale_sentence
plan_route task r =
    let reason = read_failure_reason task in
    let target = failed_target task reason in
    if r.preserve_claim
    then record {
      prior_status = task.hub_status;
      target_status = r.target_status;
      preserve_claim = true;
      reason = routed r.reason;
    }
    else record {
      prior_status = task.hub_status;
      target_status = target;
      preserve_claim = false;
      reason = stale_sentence r target reason;
    }

-- `planStaleExecutionRecovery`
unfoldable pub plan_stale : BoardTask → Option Event → Bool → Plan
unfolding route plan_route
plan_stale task latest has_work = plan_route task (route latest has_work)

abbrev pub claim_branch : Option Claim → Option String
claim_branch none = none
claim_branch (some c) = c.branch

-- `resolveTaskBranch`
unfoldable pub task_branch : BoardTask → String
unfolding resolve_branch
task_branch task = or_else (claim_branch task.claim) (resolve_branch task.id task.title)

-- `resolveStaleExecutionPlan`: the branch is asked for only where no phase was completed
unfoldable pub resolve_plan : (String → Bool) → (String → Option Event) → BoardTask → Plan
unfolding plan_stale task_branch
resolve_plan has_work latest task =
    let event = latest task.id in
    plan_stale task event (if is_some event then false else has_work (task_branch task))

-- `isInterruptedExecutionStatus`
abbrev pub is_interrupted : HubTaskStatus → Bool
is_interrupted implementing = true
is_interrupted reviewing = true
is_interrupted merging = true
is_interrupted _ = false

-- `COLLABORATION_STATUSES`
abbrev pub is_collaboration : HubTaskStatus → Bool
is_collaboration inbox = true
is_collaboration needs_info = true
is_collaboration ready_for_agent = true
is_collaboration ready_for_human = true
is_collaboration blocked = true
is_collaboration sync_conflict = true
is_collaboration _ = false
