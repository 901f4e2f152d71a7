-- ===== src/Planner/Fresh.antt =====
-- The selection on the fresh board, `resolveFreshValidatedHubBatchSelection` of
-- src/hubBatchPlanner.ts.
use arch_loop.Prelude.{
  ℕ, String, Option, none, some, List, [], ◌∷◌, ◌++◌, length, any, Bool, true, false, not,
  if◌then◌else◌, ltb, or_else, same_number,
}
use arch_loop.Recovery.{Task}
use arch_loop.Planner.{
  Strategy, conservative, InvalidReason, duplicate_selection, over_limit, not_in_candidate_set,
  not_ready_for_agent, active_claim, stale_selection, PlannerResult, contains, is_ready,
  is_eligible_task, task_by_id, map_selected, build_conservative,
}

-- `HUB_BATCH_DEFAULT_MAX_TASKS`
abbrev pub default_max_tasks : ℕ
default_max_tasks = 3

-- The place in the list of reasons, which tells them apart.
abbrev reason_index : InvalidReason → ℕ
reason_index duplicate_selection = 0
reason_index over_limit = 1
reason_index not_in_candidate_set = 2
reason_index not_ready_for_agent = 3
reason_index active_claim = 4

-- `Set.prototype.add`
unfoldable pub add_reason : List InvalidReason → InvalidReason → List InvalidReason
add_reason rs r =
    if any (λ x. same_number (reason_index x) (reason_index r)) rs then rs else rs ++ (r ∷ [])

unfoldable pub has_repeated : List String → List String → Bool
has_repeated seen [] = false
has_repeated seen (id ∷ ids) =
    let rest = has_repeated (id ∷ seen) ids in if contains seen id then true else rest

-- no limit stands for infinity
unfoldable pub is_over : Option ℕ → ℕ → Bool
is_over none n = false
is_over (some limit) n = ltb limit n

-- what speaks against a task of the fresh board
unfoldable pub task_issue : Option Task → Option InvalidReason
unfolding is_eligible_task
task_issue none = some not_in_candidate_set
task_issue (some t) =
    if t.claim_is_active
    then some active_claim
    else if not (is_ready t.hub_status)
    then some not_ready_for_agent
    else if not (is_eligible_task t)
    then some not_in_candidate_set
    else none

unfoldable pub add_issue : List InvalidReason → Option InvalidReason → List InvalidReason
unfolding add_reason
add_issue rs none = rs
add_issue rs (some r) = add_reason rs r

unfoldable pub add_issues : List Task → List String → List InvalidReason → List InvalidReason
unfolding add_issue task_issue
add_issues fresh [] rs = rs
add_issues fresh (id ∷ ids) rs =
    add_issues fresh ids (add_issue rs (task_issue (task_by_id fresh id)))

abbrev pub when : Bool → InvalidReason → Option InvalidReason
when b r = if b then some r else none

-- `validateHubBatchSelectionFreshness`; the selection is valid where there is no reason
unfoldable pub invalid_reasons : List String → List Task → Option ℕ → List InvalidReason
unfolding has_repeated is_over add_issue add_issues
invalid_reasons ids fresh limit = add_issues fresh ids (
    add_issue (add_issue [] (when (has_repeated [] ids) duplicate_selection))
      (when (is_over limit (length ids)) over_limit))

pub record FreshSelection : Type 0 where
  pub selected_tasks : List Task
  pub batch_selection : Option PlannerResult
  pub fallback_reason : Option (List InvalidReason)

-- `maxTasks`, or the default where there is a strategy, or no limit
abbrev pub effective_limit : Option Strategy → Option ℕ → Option ℕ
effective_limit strategy (some n) = some n
effective_limit (some strategy) none = some default_max_tasks
effective_limit none none = none

abbrev with_requested : PlannerResult → Option PlannerResult → Option PlannerResult
with_requested result none = none
with_requested result (some earlier) = some (record result { requested = earlier.requested })

unfoldable pub select_fresh :
    List String → List Task → Option ℕ → Option PlannerResult → List InvalidReason → FreshSelection
unfolding map_selected build_conservative
select_fresh ids fresh max_tasks batch [] = record {
  selected_tasks = map_selected fresh ids;
  batch_selection = batch;
  fallback_reason = none;
}
select_fresh ids fresh max_tasks batch (r ∷ rs) =
    let fallback =
      build_conservative fresh conservative (or_else max_tasks default_max_tasks)
        (some (stale_selection (r ∷ rs))) none [] in
    record {
      selected_tasks = fallback.selected_tasks;
      batch_selection = with_requested fallback batch;
      fallback_reason = some (r ∷ rs);
    }

-- `resolveFreshValidatedHubBatchSelection`
unfoldable pub resolve_fresh :
    List String → List Task → Option Strategy → Option ℕ → Option PlannerResult → FreshSelection
unfolding select_fresh invalid_reasons
resolve_fresh ids fresh strategy max_tasks batch =
    select_fresh ids fresh max_tasks batch
      (invalid_reasons ids fresh (effective_limit strategy max_tasks))
