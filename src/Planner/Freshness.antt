-- ===== src/Planner/Freshness.antt =====
-- What is selected on the fresh board, src/hubBatchPlanner.ts.
use arch_loop.Prelude.{
  ℕ, String, Option, none, some, List, [], ◌∷◌, length, keep, find_last-mem, All, All-take, Bool,
  true, false, ◌==◌, ◌≡◌, refl, ap, ◌∙◌, arith, eq_iff,
}
use arch_loop.Recovery.{Task}
use arch_loop.Planner.{
  Strategy, InvalidReason, PlannerResult, is_eligible_task, task_by_id, map_selected,
  build_conservative, ids_of, duplicate_selection, over_limit,
}
use arch_loop.Planner.Selected.{IsChoice, eligible-All}
use arch_loop.Planner.Fresh.{
  add_reason, has_repeated, is_over, task_issue, add_issue, add_issues, when, invalid_reasons,
  effective_limit, select_fresh, resolve_fresh,
}

add_issue-nil :
    (rs : List InvalidReason) (o : Option InvalidReason)
    → add_issue rs o ≡ []
    → (rs ≡ []) × (o ≡ none)
unfolding add_issue add_reason
add_issue-nil rs none e = (e, refl)
add_issue-nil [] (some r) e = cc
add_issue-nil (x ∷ rs) (some r) e = ground arith

-- The task of the id is there, and it is ready without an active claim.
pub record IsFresh (fresh : List Task) (id : String) : Type 0 where
  pub task : Task
  pub found : task_by_id fresh id ≡ some task
  pub eligible : is_eligible_task task ≡ true

task_issue-none :
    (o : Option Task)
    → task_issue o ≡ none
    → (t : Task) × (o ≡ some t) × (is_eligible_task t ≡ true)
unfolding task_issue
task_issue-none none e = cc
task_issue-none (some t) e = (t, refl, ground arith)

add_issues-nil :
    (fresh : List Task) (ids : List String) (rs : List InvalidReason)
    → add_issues fresh ids rs ≡ []
    → (rs ≡ []) × All (IsFresh fresh) ids
unfolding add_issues
add_issues-nil fresh [] rs e = (e, tt)
add_issues-nil fresh (id ∷ ids) rs e =
    let (before, rest) =
      add_issues-nil fresh ids (add_issue rs (task_issue (task_by_id fresh id))) e in
    let (empty, none_here) = add_issue-nil rs (task_issue (task_by_id fresh id)) before in
    let (t, found, good) = task_issue-none (task_by_id fresh id) none_here in
    (empty, (record { task = t; found = found; eligible = good }, rest))

when-none : (b : Bool) (r : InvalidReason) → when b r ≡ none → b ≡ false
when-none true r e = cc
when-none false r e = refl

invalid_reasons-nil :
    (ids : List String) (fresh : List Task) (limit : Option ℕ)
    → invalid_reasons ids fresh limit ≡ []
    → (has_repeated [] ids ≡ false) × (is_over limit (length ids) ≡ false) × All (IsFresh fresh) ids
unfolding invalid_reasons
invalid_reasons-nil ids fresh limit e =
    let (before, good) = add_issues-nil fresh ids _ e in
    let (first, within) = add_issue-nil _ _ before in
    let (start, distinct) = add_issue-nil [] _ first in
    (when-none _ duplicate_selection distinct, when-none _ over_limit within, good)

module _ (fresh : List Task) where
  fresh-IsChoice :
      (ids : List String) → All (IsFresh fresh) ids → All (IsChoice fresh) (map_selected fresh ids)
  unfolding map_selected
  fresh-IsChoice [] h = tt
  fresh-IsChoice (id ∷ ids) (here, rest) =
      rw (here.found, map_selected)
        (
          ((find_last-mem (λ t. t.id == id) fresh here.found).0, here.eligible),
          fresh-IsChoice ids rest,
        )

  fresh-ids : (ids : List String) → All (IsFresh fresh) ids → ids_of (map_selected fresh ids) ≡ ids
  unfolding map_selected
  fresh-ids [] h = refl
  fresh-ids (id ∷ ids) (here, rest) =
      let same = (eq_iff here.task.id id).0 (find_last-mem (λ t. t.id == id) fresh here.found).1 in
      rw (here.found, map_selected) (λ k. same k ∷ fresh-ids ids rest k)

  -- On every branch the tasks that are selected stand on the fresh board, ready and not claimed.
  pub resolve_fresh-IsChoice :
      (ids : List String) (strategy : Option Strategy) (max_tasks : Option ℕ)
      (batch : Option PlannerResult)
      → All (IsChoice fresh) ((resolve_fresh ids fresh strategy max_tasks batch).selected_tasks)
  unfolding resolve_fresh select_fresh build_conservative
  resolve_fresh-IsChoice ids strategy max_tasks batch =
      by_reasons (invalid_reasons ids fresh (effective_limit strategy max_tasks)) refl
    where
      by_reasons :
          (rs : List InvalidReason)
          → invalid_reasons ids fresh (effective_limit strategy max_tasks) ≡ rs
          → All (IsChoice fresh) ((select_fresh ids fresh max_tasks batch rs).selected_tasks)
      by_reasons [] e =
          fresh-IsChoice ids
            ((invalid_reasons-nil ids fresh (effective_limit strategy max_tasks) e).2)
      by_reasons (r ∷ rs) e =
          All-take (IsChoice fresh) 1 (keep is_eligible_task fresh) (eligible-All fresh)

  no_fallback-nil :
      (ids : List String) (max_tasks : Option ℕ) (batch : Option PlannerResult)
      (rs : List InvalidReason)
      → (select_fresh ids fresh max_tasks batch rs).fallback_reason ≡ none
      → (rs ≡ [])
        × ((select_fresh ids fresh max_tasks batch rs).selected_tasks ≡ map_selected fresh ids)
  unfolding select_fresh
  no_fallback-nil ids max_tasks batch [] h = (refl, refl)
  no_fallback-nil ids max_tasks batch (r ∷ rs) h = cc

  -- Where there is no fallback, the selection is the one that was asked for: the tasks of its ids in
  -- their order, with no id repeated and no more of them than the limit.
  pub resolve_fresh-ids :
      (ids : List String) (strategy : Option Strategy) (max_tasks : Option ℕ)
      (batch : Option PlannerResult)
      → (resolve_fresh ids fresh strategy max_tasks batch).fallback_reason ≡ none
      → (ids_of ((resolve_fresh ids fresh strategy max_tasks batch).selected_tasks) ≡ ids)
        × (has_repeated [] ids ≡ false)
        × (is_over (effective_limit strategy max_tasks) (length ids) ≡ false)
  unfolding resolve_fresh
  resolve_fresh-ids ids strategy max_tasks batch h =
      let limit = effective_limit strategy max_tasks in
      let (empty, same) = no_fallback-nil ids max_tasks batch (invalid_reasons ids fresh limit) h in
      let (distinct, within, good) = invalid_reasons-nil ids fresh limit empty in
      (ap ids_of same ∙ fresh-ids ids good, distinct, within)
