-- ===== src/Recovery/Tests.antt =====
-- Recovery of interrupted tasks at concrete inputs.
use arch_loop.Prelude.{
  ℕ, ◌+◌, String, none, some, List, [], ◌∷◌, length, map, Bool, true, false, ◌≡◌, refl, ◌↔◌, In,
  arith,
}
use arch_loop.Prelude.Trim.{trim}
use arch_loop.Prelude.Json.{number}
use arch_loop.Lease.Metadata.{LeaseMetadata, hub, json, serialize, IsWritable}
use arch_loop.Lease.Store.{LeaseRecord, parse_lease_file, without_lock, parse_lease_file-serialize}
use arch_loop.Recovery.{
  Task, implementing, ready_for_agent, Event, task_implementation_succeeded, reviewing, other_event,
}
use arch_loop.Recovery.Branch.{resolve_branch}
use arch_loop.Recovery.Router.{is_phase_completion, event_of, latest_completion, route}
use arch_loop.Recovery.Routed.{IsTarget, route_events}
use arch_loop.Recovery.Detector.{Interrupted, implementing_phase, detect}
use arch_loop.Recovery.Detected.{IsStuck, detect_iff}
use arch_loop.Recovery.Startup.{released_claim, Attempt, returned, auto_recover}
use arch_loop.Recovery.Attempted.{
  attempts, recovered, failed_ones, unchanged_count, auto_recover_lem,
}

branch_test : resolve_branch " ARCH 1 " "Fix: the Bug!" ≡ "archloop/arch-1-fix-the-bug"
unfolding resolve_branch
branch_test = refl

abbrev first_task : Task
first_task = record {
  id = "t1";
  title = "First";
  hub_status = implementing;
  claim_branch = some "archloop/t1-first";
  claim_is_active = true;
  remote_refs = [];
}

abbrev second_task : Task
second_task = record {
  id = "t2";
  title = "Second";
  hub_status = ready_for_agent;
  claim_branch = none;
  claim_is_active = false;
  remote_refs = [];
}

abbrev lease : LeaseMetadata
lease = record {
  owner = hub "t1" "f1" "b1";
  pid = 7;
  branch = "archloop/t1-first";
  acquired_at = "Monday";
}

lease-IsWritable : IsWritable lease
lease-IsWritable = record {
  has_pid = omega arith;
  has_branch = tt;
  has_time = tt;
  has_owner = (tt, tt, tt);
}

abbrev nobody : ℕ → Bool
nobody n = false

abbrev listed : LeaseRecord
listed = record {
  worktree_name = without_lock "archloop-t1-first.lock";
  branch = "archloop/t1-first";
  pid = some (number 7);
  acquired_at = "Monday";
  owner = none;
  is_active = false;
  malformed = false;
}

parse_lease_file-serialize_example :
    parse_lease_file nobody "archloop-t1-first.lock" (json (serialize lease)) ≡ listed
parse_lease_file-serialize_example =
    parse_lease_file-serialize nobody "archloop-t1-first.lock" lease lease-IsWritable
      (unfold trim in refl) (unfold trim in refl)

abbrev stuck : Interrupted
stuck = record { task_id = "t1"; task = first_task; phase = implementing_phase }

detect_iff_example : In stuck (detect (first_task ∷ second_task ∷ []) (listed ∷ [])) ↔ (
    In first_task (first_task ∷ second_task ∷ [])
    × (stuck.task_id ≡ first_task.id)
    × IsStuck (listed ∷ []) first_task implementing_phase)
detect_iff_example = detect_iff (listed ∷ []) (first_task ∷ second_task ∷ []) stuck

detect_test : detect (first_task ∷ second_task ∷ []) (listed ∷ []) ≡ stuck ∷ []
unfolding detect without_lock
detect_test = refl

abbrev implemented : Event
implemented = record { type = task_implementation_succeeded; task_id = "t1"; status = "reviewing" }

abbrev merged_other : Event
merged_other = record { type = other_event "merge_succeeded"; task_id = "t1"; status = "done" }

abbrev log : List Event
log = implemented ∷ merged_other ∷ []

route_test : (route (event_of "t1" (latest_completion log)) false).target_status ≡ reviewing
unfolding route event_of latest_completion
route_test = refl

route_events_example :
    let r = route (event_of "t1" (latest_completion log)) false in
    IsTarget r.target_status r.preserve_claim
    × ((r.preserve_claim ≡ true)
        ↔ ((e : Event) × In e log × (e.task_id ≡ "t1") × (is_phase_completion e ≡ true)))
route_events_example = route_events "t1" log false

-- Each recovery releases a claim and is counted.
abbrev release_claim : String → ℕ → ℕ × Attempt
release_claim id n = (
  n + 1,
  returned (record {
    outcome = released_claim;
    prior_status = implementing;
    hub_status = ready_for_agent;
    summary = "released";
  }),
)

auto_recover_lem_example :
    let found = detect (first_task ∷ []) (listed ∷ []) in
    let tried = (attempts release_claim found 0).1 in
    let (after, summary) = auto_recover release_claim (some (first_task ∷ [])) (listed ∷ []) 0 in
    (map (λ x. x.0) tried ≡ found)
    × (after ≡ (attempts release_claim found 0).0)
    × (summary.recoveries ≡ recovered tried)
    × (summary.failures ≡ failed_ones tried)
    × (summary.recovered_count + summary.failed_count + unchanged_count tried ≡ length found)
auto_recover_lem_example = auto_recover_lem release_claim (first_task ∷ []) (listed ∷ []) 0
