-- ===== src/Recover/Apply.antt =====
-- The recovery of one task, `recoverHubTask` of src/hubTaskRecover.ts. Git, the verification and the
-- clean-up of a branch are parameters.
use arch_loop.Prelude.{
  String, Option, none, some, Bool, true, false, ◌&&◌, not, if◌then◌else◌, is_some,
}
use arch_loop.Recovery.{HubTaskStatus, waiting_for_merge, failed, Event}
use arch_loop.Recovery.Startup.{
  Outcome, released_claim, recovered_failed, recovered_close_failed, unchanged,
}
use arch_loop.Board.Status.{same_status}
use arch_loop.Board.Projection.{BoardTask, has_stale_claim}
use arch_loop.Board.Transition.{
  TaskStore, Result, moved, refused, Refusal, not_loaded, load, transition, close_task,
}
use arch_loop.Lifecycle.{request, persist_stripped}
use arch_loop.Recover.{
  Sentence, unmerged_work, cleared_failure, closed_again, released, with_cleanup, Plan,
  resolve_plan, read_failure_reason, FailureReason, close_failed, failed_target, task_branch,
  is_interrupted, is_collaboration,
}

-- `RecoverHubTaskResult`
pub record Recovered : Type 0 where
  pub outcome : Outcome
  pub prior_status : HubTaskStatus
  pub hub_status : HubTaskStatus
  pub summary : Sentence
  pub task : BoardTask

-- Why a recovery throws.
pub data RecoverError : Type 0 where
  transition_refused : Refusal → RecoverError
  comment_failed not_merged verification_failed not_recoverable : RecoverError

pub data Recovery : Type 0 where
  recovered : Recovered → Recovery
  threw : RecoverError → Recovery

-- What surrounds the task store: whether a branch has unmerged work and whether it is merged, the
-- event log of the project, the comment on a task, the verification of a branch, and the clean-up of
-- a branch, which tells what it did.
pub record Surroundings (S : Type 0) : Type 0 where
  pub has_work : String → Bool
  pub is_merged : String → Bool
  pub latest_event : String → Option Event
  pub comment : String → Sentence → S → S × Bool
  pub verify : BoardTask → String → Bool
  pub cleanup : String → S → S × String

abbrev is_close_failed : Option FailureReason → Bool
is_close_failed (some close_failed) = true
is_close_failed _ = false

abbrev pub result_of : Outcome → BoardTask → Sentence → BoardTask → Recovered
result_of outcome task summary updated = record {
  outcome = outcome;
  prior_status = task.hub_status;
  hub_status = updated.hub_status;
  summary = summary;
  task = updated;
}

module _ {S : Type 0} (bd : TaskStore S) (around : Surroundings S) (id : String) where
  abbrev pub commented : Recovered → S × Bool → S × Recovery
  commented r (s, true) = (s, recovered r)
  commented r (s, false) = (s, threw comment_failed)

  -- `recordRecoveryResult`
  unfoldable pub record_recovery : Recovered → S → S × Recovery
  record_recovery r s = commented r (around.comment id r.summary s)

  -- An update of the task and, unless that throws, the comment.
  unfoldable pub after_update : Outcome → BoardTask → Sentence → S × Result → S × Recovery
  unfolding record_recovery
  after_update outcome task summary (s, moved t) =
      record_recovery (result_of outcome task summary t) s
  after_update outcome task summary (s, refused r) = (s, threw (transition_refused r))

  -- `recoverStaleExecutionStatus` by its plan
  unfoldable pub apply_plan : BoardTask → Plan → S → S × Recovery
  unfolding after_update transition persist_stripped
  apply_plan task plan s =
      if plan.preserve_claim
      then if same_status plan.prior_status plan.target_status
        then (s, recovered (result_of unchanged task plan.reason task))
        else after_update recovered_failed task plan.reason
            (transition bd id (request plan.target_status task.metadata none) s)
      else after_update recovered_failed task plan.reason
          (persist_stripped bd id plan.target_status task.metadata s)

  -- `recoverStaleExecutionStatus`
  unfoldable pub recover_execution : BoardTask → S → S × Recovery
  unfolding apply_plan resolve_plan
  recover_execution task s =
      apply_plan task (resolve_plan around.has_work around.latest_event task) s

  unfoldable pub after_cleanup : BoardTask → BoardTask → HubTaskStatus → S × String → S × Recovery
  unfolding record_recovery
  after_cleanup task updated target (s, text) =
      record_recovery
        (result_of recovered_failed task
          (with_cleanup (cleared_failure target (task_branch task)) text) updated)
        s

  abbrev pub clean_after : BoardTask → HubTaskStatus → S × Result → S × Recovery
  clean_after task target (s, moved t) =
      after_cleanup task t target (around.cleanup (task_branch task) s)
  clean_after task target (s, refused r) = (s, threw (transition_refused r))

  -- `recoverGenericFailedTask`
  unfoldable pub recover_generic : BoardTask → Option FailureReason → S → S × Recovery
  unfolding after_update transition persist_stripped failed_target task_branch
  recover_generic task reason s =
      if around.has_work (task_branch task) && is_some task.claim
      then after_update recovered_failed task (unmerged_work (task_branch task))
          (transition bd id (request waiting_for_merge task.metadata none) s)
      else clean_after task (failed_target task reason)
          (persist_stripped bd id (failed_target task reason) task.metadata s)

  -- `recoverCloseFailedTask`; the default closer
  unfoldable pub recover_close_failed : BoardTask → S → S × Recovery
  unfolding after_update close_task task_branch
  recover_close_failed task s =
      if not (around.is_merged (task_branch task))
      then (s, threw not_merged)
      else if not (around.verify task (task_branch task))
      then (s, threw verification_failed)
      else after_update recovered_close_failed task (closed_again (task_branch task))
          (close_task bd task.id task.metadata s)

  -- `releaseStaleClaim`
  unfoldable pub release_stale_claim : BoardTask → S → S × Recovery
  unfolding after_update persist_stripped
  release_stale_claim task s =
      after_update released_claim task (released task.hub_status)
        (persist_stripped bd id task.hub_status task.metadata s)

  unfoldable pub recover_task : BoardTask → S → S × Recovery
  unfolding recover_generic recover_close_failed recover_execution release_stale_claim
  recover_task task s =
      if same_status task.hub_status failed
      then if is_close_failed (read_failure_reason task)
        then recover_close_failed task s
        else recover_generic task (read_failure_reason task) s
      else if is_interrupted task.hub_status
      then recover_execution task s
      else if has_stale_claim task && is_collaboration task.hub_status
      then release_stale_claim task s
      else (s, threw not_recoverable)

  unfoldable pub recover_loaded : Option BoardTask → S → S × Recovery
  unfolding recover_task
  recover_loaded none s = (s, threw (transition_refused not_loaded))
  recover_loaded (some task) s = recover_task task s

  -- `recoverHubTask`
  unfoldable pub recover_hub_task : S → S × Recovery
  unfolding recover_loaded load
  recover_hub_task s = recover_loaded (load bd id s) s
