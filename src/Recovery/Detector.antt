-- ===== src/Recovery/Detector.antt =====
-- Which tasks are interrupted, src/hubTaskInterruptedExecutionDetector.ts.
use arch_loop.Lease.Store.{LeaseRecord, StoredOwner}
use arch_loop.Recovery.Branch.{resolve_branch}
use arch_loop.Prelude.{
  String, Option, none, some, List, [], ◌∷◌, Bool, false, if◌then◌else◌, ◌==◌, ◌||◌, find, or_else,
  same_text,
}
use arch_loop.Lease.{branch_to_worktree_name}
use arch_loop.Recovery.{HubTaskStatus, implementing, reviewing, merging, Task}

pub data Phase : Type 0 where
  implementing_phase reviewing_phase merging_phase : Phase

-- `INTERRUPTED_EXECUTION_STATUSES`, with the status as a phase
unfoldable pub phase_of : HubTaskStatus → Option Phase
phase_of implementing = some implementing_phase
phase_of reviewing = some reviewing_phase
phase_of merging = some merging_phase
phase_of _ = none

abbrev pub lease_is_active : Option LeaseRecord → Bool
lease_is_active none = false
lease_is_active (some lease) = lease.is_active

unfoldable pub phase_unless : Bool → Option Phase → Option Phase
phase_unless active none = none
phase_unless active (some phase) = if active then none else some phase

-- `isInterruptedHubTaskExecution`: the phase, where the task is interrupted
unfoldable pub interrupted_phase : Task → Option LeaseRecord → Option Phase
unfolding phase_of phase_unless
interrupted_phase task lease = phase_unless (lease_is_active lease) (phase_of task.hub_status)

pub record Interrupted : Type 0 where
  pub task_id : String
  pub task : Task
  pub phase : Phase

-- `resolveTaskBranch`
unfoldable pub branch_of : Task → String
unfolding resolve_branch
branch_of task = or_else task.claim_branch (resolve_branch task.id task.title)

abbrev pub owner_task_id : Option StoredOwner → Option String
owner_task_id none = none
owner_task_id (some owner) = owner.task_id

unfoldable pub lease_matches : Task → LeaseRecord → Bool
unfolding branch_of
lease_matches task lease =
    same_text (owner_task_id lease.owner) (some task.id)
    || (lease.branch == branch_of task
        || lease.worktree_name == branch_to_worktree_name (branch_of task))

-- `findWorktreeLeaseForTask`
unfoldable pub lease_for_task : Task → List LeaseRecord → Option LeaseRecord
unfolding lease_matches
lease_for_task task leases = find (lease_matches task) leases

unfoldable pub add_found : Task → Option Phase → List Interrupted → List Interrupted
add_found task none rest = rest
add_found task (some phase) rest = record { task_id = task.id; task = task; phase = phase } ∷ rest

-- `detectInterruptedHubTaskExecutions`
unfoldable pub detect : List Task → List LeaseRecord → List Interrupted
unfolding add_found interrupted_phase lease_for_task
detect [] leases = []
detect (task ∷ tasks) leases =
    add_found task (interrupted_phase task (lease_for_task task leases)) (detect tasks leases)
