-- ===== src/Planner/Selected.antt =====
-- What a plan selects, `planHubFlowBatch` of src/hubBatchPlanner.ts.
use arch_loop.Prelude.{
  ℕ, ◌+◌, ◌-◌, ◌≤◌, ◌<◌, String, Option, none, some, List, [], ◌∷◌, ◌++◌, length, take, keep,
  find_last, find_last-mem, keep_sound, mem-All, All, All-append, All-take, All-mem, length-take-le,
  Bool, true, ◌==◌, ◌≡◌, refl, In, Bool-cases, inl, inr, arith,
}
use arch_loop.Recovery.{Task}
use arch_loop.Planner.{
  Strategy, planned, limited, conservative, is_eligible_task, Output, Candidate, partition_eligible,
  validate_output, build_conservative, task_by_id, map_selected, FallbackReason, Deferred,
  found_task, malformed_output, planner_unavailable, planner_failed,
}
use arch_loop.Planner.Answer.{
  PlannerRun, unavailable, failed_run, answered, resolve_planned, use_output, use_answer,
  plan_planned, plan_batch, is_empty, use_validated,
}

-- A task that stands among the candidates and is ready without an active claim.
abbrev pub IsChoice : List Task → Task → Type 0
IsChoice candidates t = In t candidates × (is_eligible_task t ≡ true)

-- Choices only, and no more of them than allowed; at least one is allowed.
pub record IsSelection (candidates : List Task) (max_tasks : ℕ) (ts : List Task) : Type 0 where
  pub choices : All (IsChoice candidates) ts
  pub within : length ts ≤ max_tasks

pub eligible-All :
    (candidates : List Task) → All (IsChoice candidates) (keep is_eligible_task candidates)
eligible-All candidates =
    mem-All (IsChoice candidates) (keep is_eligible_task candidates)
      (λ t m. keep_sound is_eligible_task candidates m)

keep-All : (P : Task → Type 0) (p : Task → Bool) (ts : List Task) → All P ts → All P (keep p ts)
keep-All P p ts h = mem-All P (keep p ts) (λ t m. All-mem P ts (keep_sound p ts m).0 h)

found_task-All :
    (P : Task → Type 0) (tasks : List Task) (p : Task → Bool)
    → All P tasks
    → (o : Option Task) → find_last p tasks ≡ o
    → All P (found_task o)
found_task-All P tasks p h none e = tt
found_task-All P tasks p h (some t) e = (All-mem P tasks (find_last-mem p tasks e).0 h, tt)

map_selected-All :
    (P : Task → Type 0) (tasks : List Task) (ids : List String)
    → All P tasks
    → All P (map_selected tasks ids)
unfolding map_selected
map_selected-All P tasks [] h = tt
map_selected-All P tasks (id ∷ ids) h =
    All-append P (found_task (task_by_id tasks id)) (map_selected tasks ids)
      (found_task-All P tasks (λ t. t.id == id) h (task_by_id tasks id) refl)
      (map_selected-All P tasks ids h)

length-append : (xs ys : List Task) → length (xs ++ ys) ≡ length xs + length ys
length-append [] ys = ground arith
length-append (x ∷ xs) ys = ground (arith, length-append xs ys)

length-found_task : (o : Option Task) → length (found_task o) ≤ 1
length-found_task none = omega arith
length-found_task (some t) = omega arith

length-map_selected :
    (tasks : List Task) (ids : List String) → length (map_selected tasks ids) ≤ length ids
unfolding map_selected
length-map_selected tasks [] = omega arith
length-map_selected tasks (id ∷ ids) = omega (
  arith,
  length-map_selected tasks ids,
  length-append (found_task (task_by_id tasks id)) (map_selected tasks ids),
  length-found_task (task_by_id tasks id),
)

length-append_take :
    (xs ys : List Task) (n : ℕ) → length xs ≤ n → length (xs ++ take (n - length xs) ys) ≤ n
length-append_take xs ys n h =
    omega (arith, h, length-append xs (take (n - length xs) ys), length-take-le (n - length xs) ys)

validated-within :
    (output : Output) (eligible : List String) (max_tasks : ℕ)
    → validate_output output eligible max_tasks ≡ none
    → length output.selected_task_ids ≤ max_tasks
unfolding validate_output
validated-within output eligible max_tasks e = ground arith

module _ (candidates : List Task) (max_tasks : ℕ) (positive : 0 < max_tasks) where
  conservative-IsSelection :
      (requested : Strategy) (fallback : Option FallbackReason) (rationale : Option String)
      (deferred : List Deferred)
      → IsSelection candidates max_tasks (
          (build_conservative candidates requested max_tasks fallback rationale
            deferred).selected_tasks)
  unfolding build_conservative
  conservative-IsSelection requested fallback rationale deferred = record {
    choices = All-take (IsChoice candidates) 1 _ (eligible-All candidates);
    within = omega (arith, length-take-le 1 (keep is_eligible_task candidates), positive);
  }

  resolve_planned-IsSelection :
      (enriched : List Candidate) (output : Output)
      → length output.selected_task_ids ≤ max_tasks
      → IsSelection candidates max_tasks (
          (resolve_planned
            (keep is_eligible_task candidates)
            enriched
            output
            max_tasks).selected_tasks)
  unfolding resolve_planned
  resolve_planned-IsSelection enriched output h = record {
    choices =
        All-append (IsChoice candidates) (map_selected eligible output.selected_task_ids) _
          (map_selected-All (IsChoice candidates) eligible output.selected_task_ids
            (eligible-All candidates))
          (All-take (IsChoice candidates) _ _
            (keep-All (IsChoice candidates) _ eligible (eligible-All candidates)));
    within =
        length-append_take (map_selected eligible output.selected_task_ids) _ max_tasks
          (omega (arith, h, length-map_selected eligible output.selected_task_ids));
  }
    where
      eligible : List Task
      eligible = keep is_eligible_task candidates

  use_validated-IsSelection :
      (enriched : List Candidate) (output : Output) (issue : Option FallbackReason)
      → (issue ≡ none → length output.selected_task_ids ≤ max_tasks)
      → IsSelection candidates max_tasks
          ((use_validated candidates enriched output max_tasks issue).selected_tasks)
  unfolding use_validated use_output
  use_validated-IsSelection enriched output (some issue) h =
      conservative-IsSelection planned (some issue) output.rationale output.deferred
  use_validated-IsSelection enriched output none h =
      elim (Bool-cases (is_empty output.selected_task_ids)) [
        | inl e ↦ rw e (record { choices = tt; within = omega arith })
        | inr e ↦ rw e (resolve_planned-IsSelection enriched output (h refl))
      ]

  use_answer-IsSelection :
      (enriched : List Candidate) (output : Option Output)
      → IsSelection candidates max_tasks
          (use_answer candidates enriched output max_tasks).selected_tasks
  unfolding use_answer
  use_answer-IsSelection enriched none =
      conservative-IsSelection planned (some malformed_output) none []
  use_answer-IsSelection enriched (some output) =
      use_validated-IsSelection enriched output _ (λ e. validated-within output _ max_tasks e)

  -- Whatever the strategy and the planner's answer are, a batch that may have a task selects tasks of
  -- the candidates that are ready and not claimed, and no more than allowed.
  pub plan_batch-IsSelection :
      (strategy : Strategy) (run : PlannerRun)
      → IsSelection candidates max_tasks
          (plan_batch strategy candidates run max_tasks).selected_tasks
  unfolding plan_batch plan_planned partition_eligible
  plan_batch-IsSelection conservative run = conservative-IsSelection conservative none none []
  plan_batch-IsSelection limited run = record {
    choices = All-take (IsChoice candidates) max_tasks _ (eligible-All candidates);
    within = length-take-le max_tasks (keep is_eligible_task candidates);
  }
  plan_batch-IsSelection planned unavailable =
      conservative-IsSelection planned (some planner_unavailable) none []
  plan_batch-IsSelection planned failed_run =
      conservative-IsSelection planned (some planner_failed) none []
  plan_batch-IsSelection planned (answered enriched output) = use_answer-IsSelection enriched output
