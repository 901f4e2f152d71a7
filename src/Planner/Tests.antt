-- ===== src/Planner/Tests.antt =====
-- Batches at concrete inputs.
use arch_loop.Planner.Blockers.{resolve_declared, resolve_blocker}
use arch_loop.Planner.Resolved.{IsOpen, resolve_declared_lem}
use arch_loop.Prelude.{
  ◌+◌, String, none, some, [], ◌∷◌, length, All, true, false, ◌≡◌, refl, arith, In, ◌↔◌, List,
}
use arch_loop.Recovery.{Task, ready_for_agent, implementing}
use arch_loop.Planner.{planned, Output, lower_priority, is_eligible_task, ids_of}
use arch_loop.Planner.Answer.{PlannerRun, answered, plan_batch}
use arch_loop.Planner.Selected.{IsChoice, IsSelection, plan_batch-IsSelection}
use arch_loop.Planner.Fresh.{has_repeated, is_over, effective_limit, resolve_fresh}
use arch_loop.Planner.Freshness.{resolve_fresh-IsChoice, resolve_fresh-ids}
use arch_loop.Planner.Repeated.{contradictory, unblocked, plan_batch-repeats}

abbrev ready : Task
ready = record {
  id = "t1";
  title = "First";
  hub_status = ready_for_agent;
  claim_branch = none;
  claim_is_active = false;
  remote_refs = [];
}

abbrev busy : Task
busy = record {
  id = "t2";
  title = "Second";
  hub_status = implementing;
  claim_branch = none;
  claim_is_active = true;
  remote_refs = [];
}

abbrev output : Output
output = record {
  selected_task_ids = "t1" ∷ [];
  deferred = record { task_id = "t3"; reason = lower_priority } ∷ [];
  rationale = none;
}

abbrev run : PlannerRun
run = answered (unblocked ready ∷ []) (some output)

plan_batch_test : (plan_batch planned (busy ∷ ready ∷ []) run 3).selected_tasks ≡ ready ∷ []
unfolding plan_batch
plan_batch_test = refl

plan_batch-IsSelection_example :
    IsSelection
      (busy ∷ ready ∷ [])
      3
      ((plan_batch planned (busy ∷ ready ∷ []) run 3).selected_tasks)
plan_batch-IsSelection_example =
    plan_batch-IsSelection (busy ∷ ready ∷ []) 3 (omega arith) planned run

resolve_fresh-IsChoice_example :
    All
      (IsChoice (busy ∷ ready ∷ []))
      (resolve_fresh ("t1" ∷ "t2" ∷ []) (busy ∷ ready ∷ []) (some planned) none none).selected_tasks
resolve_fresh-IsChoice_example =
    resolve_fresh-IsChoice (busy ∷ ready ∷ []) ("t1" ∷ "t2" ∷ []) (some planned) none none

resolve_fresh-ids_example :
    (ids_of
        ((resolve_fresh ("t1" ∷ []) (busy ∷ ready ∷ []) (some planned) none none).selected_tasks)
      ≡ "t1" ∷ [])
    × (has_repeated [] ("t1" ∷ []) ≡ false)
    × (is_over (effective_limit (some planned) none) (length {A = String} ("t1" ∷ [])) ≡ false)
resolve_fresh-ids_example =
    resolve_fresh-ids (busy ∷ ready ∷ []) ("t1" ∷ []) (some planned) none none
      (unfold resolve_fresh in refl)

plan_batch-repeats_example :
    (plan_batch planned
      (ready ∷ [])
      (answered (unblocked ready ∷ []) (some (contradictory ready none)))
      (2 + 1)).selected_tasks
    ≡ ready ∷ ready ∷ []
plan_batch-repeats_example = plan_batch-repeats ready none 1 (unfold is_eligible_task in refl)

abbrev listed : Task
listed = record ready { remote_refs = "github#7" ∷ [] }

abbrev declared : List String
declared = "t2" ∷ "github#7" ∷ "github#8" ∷ []

abbrev blocker : String
blocker = "github#7"

resolve_declared_lem_example :
    let r = resolve_declared declared (some (busy ∷ listed ∷ [])) in
    (In blocker r.open_blockers ↔ (In blocker declared × IsOpen (busy ∷ listed ∷ []) blocker))
    × (In blocker r.unknown_blockers
        ↔ (In blocker declared × (resolve_blocker (busy ∷ listed ∷ []) blocker ≡ none)))
resolve_declared_lem_example = resolve_declared_lem declared (busy ∷ listed ∷ []) blocker

resolve_declared_test :
    let r = resolve_declared declared (some (busy ∷ listed ∷ [])) in
    (r.open_blockers ≡ "t2" ∷ "github#7" ∷ []) × (r.unknown_blockers ≡ "github#8" ∷ [])
unfolding resolve_declared
resolve_declared_test = (refl, refl)
