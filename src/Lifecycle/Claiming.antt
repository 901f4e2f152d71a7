-- ===== src/Lifecycle/Claiming.antt =====
-- The claim of a task for a run, `claimHubTask` of src/taskBoard.ts, and which tasks a run takes.
use arch_loop.Prelude.{
  String, Option, none, some, List, [], ◌∷◌, ◌++◌, Bool, ◌&&◌, not, keep, same_text, if◌then◌else◌,
  is_some,
}
use arch_loop.Prelude.Json.{Fields, bool, text, object, end, field}
use arch_loop.Recovery.{ready_for_agent, implementing, waiting_for_merge, other_event, Event}
use arch_loop.Board.Metadata.{spread}
use arch_loop.Board.Status.{same_status}
use arch_loop.Board.Projection.{BoardTask, Claim, is_claim_active}
use arch_loop.Board.Written.{Request}
use arch_loop.Board.Transition.{
  TaskStore, Result, moved, refused, Refusal, not_loaded, load, transition,
}
use arch_loop.Lifecycle.{World, request, event}

-- What a claim is made of; git tells the last two.
pub record ClaimInput : Type 0 where
  pub run_id : String
  pub batch_id : String
  pub task_id : String
  pub branch : String
  pub claimed_at : String
  pub base_head : Option String
  pub branch_existed : Option Bool

abbrev optional_text : String → Option String → Fields → Fields
optional_text k none fs = fs
optional_text k (some s) fs = field k (text s) fs

abbrev optional_flag : String → Option Bool → Fields → Fields
optional_flag k none fs = fs
optional_flag k (some b) fs = field k (bool b) fs

-- `createHubTaskClaimMetadata`, its raw record
unfoldable pub claim_fields : ClaimInput → Fields
claim_fields c = field "runId" (text c.run_id) (
    field "batchId" (text c.batch_id) (
      field "taskId" (text c.task_id) (
        field "branch" (text c.branch) (
          field "claimedAt" (text c.claimed_at) (
            optional_text "baseHead" c.base_head
              (optional_flag "branchExistedBeforeClaim" c.branch_existed end))))))

-- the update of `claimHubTask`
unfoldable pub claim_request : BoardTask → ClaimInput → Request
unfolding spread claim_fields
claim_request task c =
    request implementing (spread task.metadata (field "claim" (object (claim_fields c)) end)) none

-- `ClaimHubTaskResult`, by its outcome; a claimed task comes with the record of the new claim
pub data Claimed : Type 0 where
  claimed : BoardTask → Fields → Claimed
  skipped : BoardTask → Claimed
  threw : Refusal → Claimed

module _ {S : Type 0} (bd : TaskStore S) (c : ClaimInput) where
  unfoldable pub report_claim : List Event → S × Result → World bd × Claimed
  unfolding claim_fields
  report_claim log (s, moved t) = (
    (s, log ++ (event (other_event "task_claimed") c.task_id t.hub_status ∷ [])),
    claimed t (claim_fields c),
  )
  report_claim log (s, refused r) = ((s, log), threw r)

  unfoldable pub claim_loaded : Option BoardTask → World bd → World bd × Claimed
  unfolding claim_request transition report_claim
  claim_loaded none w = (w, threw not_loaded)
  claim_loaded (some task) (s, log) =
      if is_claim_active task.hub_status
      then (
        (s, log ++ (event (other_event "task_claim_skipped") c.task_id task.hub_status ∷ [])),
        skipped task,
      )
      else report_claim log (transition bd c.task_id (claim_request task c) s)

  -- `claimHubTask`
  unfoldable pub claim_task : World bd → World bd × Claimed
  unfolding claim_loaded load
  claim_task (s, log) = claim_loaded (load bd c.task_id s) (s, log)

-- `isHubFlowEligibleTask`; the state of a claim is active where there is one and its status is
unfoldable pub is_flow_eligible : BoardTask → Bool
is_flow_eligible task =
    same_status task.hub_status ready_for_agent
    && not (is_some task.claim && is_claim_active task.hub_status)

-- `selectHubFlowTasks`
unfoldable pub select_flow_tasks : List BoardTask → List BoardTask
unfolding is_flow_eligible
select_flow_tasks tasks = keep is_flow_eligible tasks

abbrev batch_of : Option Claim → Option String
batch_of none = none
batch_of (some c) = c.batch_id

-- `selectHubBatchMergeTasks`
unfoldable pub select_merge_tasks : List BoardTask → String → List BoardTask
select_merge_tasks tasks batch =
    keep
      (λ t. same_status t.hub_status waiting_for_merge && same_text (batch_of t.claim) (some batch))
      tasks
