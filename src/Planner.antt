-- ===== src/Planner.antt =====
-- Which tasks the next batch takes, src/hubBatchPlanner.ts.
mod Tests
pub mod Answer
pub mod Selected
pub mod Fresh
pub mod Freshness
pub mod Repeated
pub mod Blockers
pub mod Resolved
use arch_loop.Prelude.{
  ℕ, ◌-◌, String, Option, none, some, List, [], ◌∷◌, ◌++◌, length, take, map, keep, any, find_last,
  Bool, true, false, not, ◌&&◌, if◌then◌else◌, ◌==◌, ltb,
}
use arch_loop.Recovery.{HubTaskStatus, ready_for_agent, Task}

pub data Strategy : Type 0 where
  planned limited conservative : Strategy

-- `HUB_BATCH_DEFERRED_REASONS`
pub data DeferredReason : Type 0 where
  explicit_blocker selected_api_shape_dependency same_core_module : DeferredReason
  docs_or_qa_for_selected_behavior design_decision_dependency over_max_tasks : DeferredReason
  lower_priority : DeferredReason

-- `HUB_BATCH_SELECTION_INVALID_REASONS`
pub data InvalidReason : Type 0 where
  duplicate_selection over_limit not_in_candidate_set not_ready_for_agent active_claim :
      InvalidReason

-- `HUB_BATCH_FALLBACK_REASONS`, and the reasons against a stale selection, which the code joins
pub data FallbackReason : Type 0 where
  planner_unavailable planner_failed malformed_output : FallbackReason
  invalid_task_ids duplicate_task_ids too_many_tasks : FallbackReason
  stale_selection : List InvalidReason → FallbackReason

pub record Deferred : Type 0 where
  pub task_id : String
  pub reason : DeferredReason

-- `HubBatchPlannerAgentOutput`
pub record Output : Type 0 where
  pub selected_task_ids : List String
  pub deferred : List Deferred
  pub rationale : Option String

-- What is read of a `HubBatchPlannerCandidate`; of a resolved blocker, its task.
pub record Candidate : Type 0 where
  pub id : String
  pub blockers_resolved : List String
  pub open_blockers : List String
  pub unknown_blockers : List String

-- `HubBatchPlannerResult`; the flag says that there is a diagnostic reason
pub record PlannerResult : Type 0 where
  pub selected_tasks : List Task
  pub deferred_tasks : List Deferred
  pub requested : Strategy
  pub used : Strategy
  pub max_tasks : ℕ
  pub fallback_reason : Option FallbackReason
  pub has_diagnostic : Bool
  pub rationale : Option String

abbrev pub is_ready : HubTaskStatus → Bool
is_ready ready_for_agent = true
is_ready _ = false

-- `isHubFlowEligibleTask` of src/taskBoard.ts
unfoldable pub is_eligible_task : Task → Bool
is_eligible_task t = is_ready t.hub_status && not t.claim_is_active

-- A `Set` of texts as the list of its members.
abbrev pub contains : List String → String → Bool
contains ids id = any (λ x. x == id) ids

abbrev pub ids_of : List Task → List String
ids_of ts = map (λ t. t.id) ts

abbrev pub drop {ℓ} : {A : Type ℓ} → ℕ → List A → List A
drop ℕ.zero xs = xs
drop (ℕ.suc n) [] = []
drop (ℕ.suc n) (x ∷ xs) = drop n xs

abbrev pub too_many : String → Deferred
too_many id = record { task_id = id; reason = over_max_tasks }

-- `partitionEligibleCandidates`
unfoldable pub partition_eligible : List Task → ℕ → List Task × List Deferred
unfolding is_eligible_task
partition_eligible candidates limit =
    let eligible = keep is_eligible_task candidates in
    (take limit eligible, map too_many (ids_of (drop limit eligible)))

validate_ids : List String → List String → List String → Option FallbackReason
validate_ids eligible seen [] = none
validate_ids eligible seen (id ∷ ids) =
    let rest = validate_ids eligible (id ∷ seen) ids in
    if not (contains eligible id)
    then some invalid_task_ids
    else if contains seen id
    then some duplicate_task_ids
    else rest

-- `validateHubBatchPlannerOutput`
unfoldable pub validate_output : Output → List String → ℕ → Option FallbackReason
unfolding validate_ids
validate_output output eligible max_tasks =
    elim (validate_ids eligible [] output.selected_task_ids) [
      | some issue ↦ some issue
      | none ↦ if ltb max_tasks (length output.selected_task_ids) then some too_many_tasks else none
    ]

-- `buildConservativeBatchResult`
unfoldable pub build_conservative :
    List Task → Strategy → ℕ → Option FallbackReason → Option String → List Deferred → PlannerResult
unfolding is_eligible_task
build_conservative candidates requested max_tasks fallback rationale deferred =
    let eligible = keep is_eligible_task candidates in
    let selected = take 1 eligible in
    let is_left = λ (id : String). not (contains (ids_of selected) id) in
    record {
      selected_tasks = selected;
      deferred_tasks =
          keep (λ d. is_left d.task_id) deferred
          ++ map too_many (ids_of (keep (λ t. is_left t.id) eligible));
      requested = requested;
      used = conservative;
      max_tasks = max_tasks;
      fallback_reason = fallback;
      has_diagnostic = false;
      rationale = rationale;
    }

-- `new Map(tasks.map((task) => [task.id, task])).get(id)`: the last task of the id
abbrev pub task_by_id : List Task → String → Option Task
task_by_id tasks id = find_last (λ t. t.id == id) tasks

-- `task ? [task] : []`
abbrev pub found_task : Option Task → List Task
found_task none = []
found_task (some t) = t ∷ []

-- `mapSelectedTasks`
unfoldable pub map_selected : List Task → List String → List Task
map_selected tasks [] = []
map_selected tasks (id ∷ ids) = found_task (task_by_id tasks id) ++ map_selected tasks ids
