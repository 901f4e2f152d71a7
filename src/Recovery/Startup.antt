-- ===== src/Recovery/Startup.antt =====
-- Recovery at the start of a run, src/hubRunAutoRecover.ts.
use arch_loop.Lease.Store.{LeaseRecord}
use arch_loop.Prelude.{
  ℕ, String, Option, none, some, List, [], ◌∷◌, ◌++◌, length, Bool, true, false, if◌then◌else◌,
}
use arch_loop.Recovery.{HubTaskStatus, Task}
use arch_loop.Recovery.Detector.{Phase, Interrupted, detect}

pub data Outcome : Type 0 where
  released_claim recovered_failed recovered_close_failed unchanged : Outcome

-- `RecoverHubTaskResult`, without the task, which is not read
pub record RecoverResult : Type 0 where
  pub outcome : Outcome
  pub prior_status : HubTaskStatus
  pub hub_status : HubTaskStatus
  pub summary : String

-- What awaiting `recoverTask` gives.
pub data Attempt : Type 0 where
  returned : RecoverResult → Attempt
  threw : String → Attempt

-- `HubRunAutoRecoveryEntry`
pub record Entry : Type 0 where
  pub task_id : String
  pub prior_status : HubTaskStatus
  pub hub_status : HubTaskStatus
  pub outcome : Outcome
  pub interrupted_phase : Phase
  pub summary : String

-- `HubRunAutoRecoveryFailure`
pub record Failure : Type 0 where
  pub task_id : String
  pub interrupted_phase : Phase
  pub message : String

pub record Summary : Type 0 where
  pub recovered_count : ℕ
  pub failed_count : ℕ
  pub recoveries : List Entry
  pub failures : List Failure

abbrev pub empty_summary : Summary
empty_summary = record { recovered_count = 0; failed_count = 0; recoveries = []; failures = [] }

abbrev pub is_unchanged : Outcome → Bool
is_unchanged unchanged = true
is_unchanged _ = false

unfoldable pub entry : Interrupted → RecoverResult → Entry
entry i r = record {
  task_id = i.task_id;
  prior_status = r.prior_status;
  hub_status = r.hub_status;
  outcome = r.outcome;
  interrupted_phase = i.phase;
  summary = r.summary;
}

unfoldable pub failure : Interrupted → String → Failure
failure i message = record { task_id = i.task_id; interrupted_phase = i.phase; message = message }

-- What the loop carries: the two lists.
abbrev pub Lists : Type 0
Lists = List Entry × List Failure

unfoldable pub record_attempt : Interrupted → Attempt → Lists → Lists
unfolding entry failure
record_attempt i (returned r) (recoveries, failures) =
    (if is_unchanged r.outcome then recoveries else recoveries ++ (entry i r ∷ []), failures)
record_attempt i (threw message) (recoveries, failures) =
    (recoveries, failures ++ (failure i message ∷ []))

-- `W` is what a recovery may change, and `recover_task` is `recoverTask` for a task id.
module _ {W : Type 0} (recover_task : String → W → W × Attempt) where
  unfoldable pub recover_each : List Interrupted → W → Lists → W × Lists
  unfolding record_attempt
  recover_each [] w lists = (w, lists)
  recover_each (i ∷ is) w lists =
      let (next, attempt) = recover_task i.task_id w in
      recover_each is next (record_attempt i attempt lists)

  -- `autoRecoverInterruptedHubTasks`; the board is missing where loading it throws
  unfoldable pub auto_recover : Option (List Task) → List LeaseRecord → W → W × Summary
  unfolding recover_each detect
  auto_recover none leases w = (w, empty_summary)
  auto_recover (some tasks) leases w =
      let (after, (recoveries, failures)) = recover_each (detect tasks leases) w ([], []) in
      (
        after,
        record {
          recovered_count = length recoveries;
          failed_count = length failures;
          recoveries = recoveries;
          failures = failures;
        },
      )
