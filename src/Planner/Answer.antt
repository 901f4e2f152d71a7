-- ===== src/Planner/Answer.antt =====
-- The use of the planner's answer and the plans, `planHubFlowBatch` of src/hubBatchPlanner.ts.
use arch_loop.Prelude.{
  ℕ, ◌-◌, String, Option, none, some, List, [], ◌∷◌, ◌++◌, length, take, map, keep, find_last, Bool,
  true, false, not, ◌&&◌, if◌then◌else◌, ◌==◌,
}
use arch_loop.Recovery.{Task}
use arch_loop.Planner.{
  Strategy, DeferredReason, FallbackReason, Deferred, Output, Candidate, PlannerResult,
  is_eligible_task, contains, ids_of, too_many, partition_eligible, validate_output,
  build_conservative, map_selected, planned, limited, conservative, explicit_blocker,
  planner_unavailable, planner_failed, malformed_output,
}

-- `collectSelectedTaskBlockerIds`
abbrev pub blocker_ids : List Candidate → List String
blocker_ids [] = []
blocker_ids (c ∷ cs) = c.blockers_resolved ++ blocker_ids cs

abbrev is_explicit_blocker : DeferredReason → Bool
is_explicit_blocker explicit_blocker = true
is_explicit_blocker _ = false

abbrev pub is_empty : List String → Bool
is_empty [] = true
is_empty (x ∷ xs) = false

-- `shouldRecoverExplicitBlockerDeferral`
unfoldable pub should_recover : Deferred → Option Candidate → List String → Bool
should_recover deferred none blockers = false
should_recover deferred (some c) blockers =
    is_explicit_blocker deferred.reason
    && (is_empty c.open_blockers && (is_empty c.unknown_blockers && not (contains blockers c.id)))

-- a `Set` of texts in the order of insertion
abbrev add_new : List String → String → List String
add_new ids id = if contains ids id then ids else ids ++ (id ∷ [])

-- the loop over the deferred tasks: those that stay deferred, and the ids whose deferral is invalid
split_deferred :
    List Candidate
    → List String
    → List Deferred
    → List Deferred × List String
    → List Deferred × List String
unfolding should_recover
split_deferred candidates blockers [] acc = acc
split_deferred candidates blockers (d ∷ ds) (kept, invalid) =
    let candidate = find_last (λ c. c.id == d.task_id) candidates in
    split_deferred candidates blockers ds (
      if should_recover d candidate blockers
      then (kept, add_new invalid d.task_id)
      else (kept ++ (d ∷ []), invalid))

pub record PlannedSelection : Type 0 where
  pub selected_tasks : List Task
  pub deferred_tasks : List Deferred
  pub has_diagnostic : Bool

-- `resolvePlannedBatchSelection`
unfoldable pub resolve_planned : List Task → List Candidate → Output → ℕ → PlannedSelection
unfolding map_selected split_deferred
resolve_planned eligible enriched output max_tasks =
    let selected = map_selected eligible output.selected_task_ids in
    let blockers = blocker_ids (keep (λ c. contains output.selected_task_ids c.id) enriched) in
    let (kept, invalid) = split_deferred enriched blockers output.deferred ([], []) in
    let recovered =
      take (max_tasks - length selected) (keep (λ t. contains invalid t.id) eligible) in
    let remaining = keep (λ id. not (contains (ids_of recovered) id)) invalid in
    record {
      selected_tasks = selected ++ recovered;
      deferred_tasks = kept ++ map too_many remaining;
      has_diagnostic = not (is_empty invalid);
    }

-- What came of calling the planner, with what `parseHubBatchPlannerOutput` made of its answer.
pub data PlannerRun : Type 0 where
  unavailable failed_run : PlannerRun
  answered : List Candidate → Option Output → PlannerRun

abbrev planned_result : ℕ → Output → PlannedSelection → PlannerResult
planned_result max_tasks output s = record {
  selected_tasks = s.selected_tasks;
  deferred_tasks = s.deferred_tasks;
  requested = planned;
  used = planned;
  max_tasks = max_tasks;
  fallback_reason = none;
  has_diagnostic = s.has_diagnostic;
  rationale = output.rationale;
}

-- the answer of the planner, after it was validated
unfoldable pub use_output : List Task → List Candidate → Output → ℕ → PlannerResult
unfolding resolve_planned
use_output eligible enriched output max_tasks =
    if is_empty output.selected_task_ids
    then planned_result max_tasks output
        (record { selected_tasks = []; deferred_tasks = output.deferred; has_diagnostic = false })
    else planned_result max_tasks output (resolve_planned eligible enriched output max_tasks)

unfoldable pub use_validated :
    List Task → List Candidate → Output → ℕ → Option FallbackReason → PlannerResult
unfolding build_conservative use_output
use_validated candidates enriched output max_tasks (some issue) =
    build_conservative candidates planned max_tasks (some issue) output.rationale output.deferred
use_validated candidates enriched output max_tasks none =
    use_output (keep is_eligible_task candidates) enriched output max_tasks

unfoldable pub use_answer : List Task → List Candidate → Option Output → ℕ → PlannerResult
unfolding build_conservative validate_output use_validated
use_answer candidates enriched none max_tasks =
    build_conservative candidates planned max_tasks (some malformed_output) none []
use_answer candidates enriched (some output) max_tasks =
    use_validated candidates enriched output max_tasks
      (validate_output output (ids_of (keep is_eligible_task candidates)) max_tasks)

-- `planPlannedHubFlowBatch`, where the signal of the run does not abort it
unfoldable pub plan_planned : List Task → PlannerRun → ℕ → PlannerResult
unfolding use_answer
plan_planned candidates unavailable max_tasks =
    build_conservative candidates planned max_tasks (some planner_unavailable) none []
plan_planned candidates failed_run max_tasks =
    build_conservative candidates planned max_tasks (some planner_failed) none []
plan_planned candidates (answered enriched output) max_tasks =
    use_answer candidates enriched output max_tasks

-- `planHubFlowBatch`
unfoldable pub plan_batch : Strategy → List Task → PlannerRun → ℕ → PlannerResult
unfolding build_conservative partition_eligible plan_planned
plan_batch conservative candidates run max_tasks =
    build_conservative candidates conservative max_tasks none none []
plan_batch limited candidates run max_tasks =
    let (selected, deferred) = partition_eligible candidates max_tasks in
    record {
      selected_tasks = selected;
      deferred_tasks = deferred;
      requested = limited;
      used = limited;
      max_tasks = max_tasks;
      fallback_reason = none;
      has_diagnostic = false;
      rationale = none;
    }
plan_batch planned candidates run max_tasks = plan_planned candidates run max_tasks
