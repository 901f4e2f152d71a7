-- ===== src/Recover/Tests.antt =====
-- The recovery of one task at concrete inputs.
use arch_loop.Prelude.{some, [], ◌∷◌, true, false, ◌≡◌, refl, sym, subst, inl, inr}
use arch_loop.Prelude.Json.{Fields, end, field, text, object}
use arch_loop.Recovery.{HubTaskStatus, reviewing, Event}
use arch_loop.Recovery.Router.{route, route_by, completion_status}
use arch_loop.Board.{trimmed}
use arch_loop.Board.Metadata.{spread}
use arch_loop.Board.Status.{direct_status, status_of_value}
use arch_loop.Board.Projection.{BoardTask, project_task, read_claim}
use arch_loop.Board.Written.{merged_metadata, clear_owned, resolve_claim}
use arch_loop.Board.Projected.{IsMovable}
use arch_loop.Board.Moved.{HasClaim}
use arch_loop.Board.Store.{ArePlain, IsPlain}
use arch_loop.Board.Transition.{trimmed_parts, split_commas}
use arch_loop.Board.Sample.{Stored, shown_of, one_task, one_task-IsTaskStore}
use arch_loop.Recovery.{task_implementation_succeeded}
use arch_loop.Recover.{Plan, resolve_plan, plan_stale, plan_route}
use arch_loop.Recover.Apply.{Surroundings, recover_hub_task}
use arch_loop.Recover.Planned.{NextPhase, IsRestart, plan_stale-IsPlanned}
use arch_loop.Recover.Applied.{KeepsTask, IsRecovered, plan_request, recover_hub_task-IsRecovered}

abbrev claimed : Fields
claimed =
    field "runId" (text "r1")
      (field "batchId" (text "b1") (field "branch" (text "archloop/t1-first") end))

-- A task that was stopped while it was implemented, after its success was recorded.
abbrev stopped : Stored
stopped = record {
  labels = "implementing" ∷ [];
  metadata = field "hubStatus" (text "implementing") (field "claim" (object claimed) end);
}

abbrev implemented : Event
implemented = record { type = task_implementation_succeeded; task_id = "t1"; status = "reviewing" }

abbrev around : Surroundings Stored
around = record {
  has_work = λ branch. true;
  is_merged = λ branch. false;
  latest_event = λ id. some implemented;
  comment = λ id summary s. (s, true);
  verify = λ task branch. true;
  cleanup = λ branch s. (s, "");
}

around-KeepsTask : KeepsTask one_task around "t1"
around-KeepsTask = record { comments = λ summary s. (s, refl, refl) }

abbrev stopped_task : BoardTask
stopped_task = project_task (shown_of stopped)

abbrev stopped_plan : Plan
stopped_plan = resolve_plan around.has_work around.latest_event stopped_task

stopped-ArePlain : ArePlain stopped_task.labels
unfolding project_task trimmed trimmed_parts split_commas
stopped-ArePlain l (inl e) = subst IsPlain (sym e) (record { one_part = refl; is_trimmed = refl })
stopped-ArePlain l (inr n) = elim n [ ]

stopped-IsMovable : IsMovable stopped_task (plan_request stopped_task stopped_plan)
unfolding project_task merged_metadata status_of_value spread resolve_plan plan_stale plan_route
    route route_by completion_status plan_request clear_owned
stopped-IsMovable = record {
  no_other_status = refl;
  no_old_failure = refl;
  no_conflict = refl;
  has_reason = refl;
}

stopped-HasClaim : HasClaim stopped_task (plan_request stopped_task stopped_plan)
unfolding project_task merged_metadata spread clear_owned resolve_claim trimmed read_claim
    direct_status status_of_value resolve_plan plan_stale plan_route route route_by
    completion_status plan_request
stopped-HasClaim = record {
  no_camel_case_claim = refl;
  no_snake_case_claim = refl;
  no_task_claim = refl;
  no_flat = refl;
  complete = refl;
}

recover_hub_task-IsRecovered_example :
    IsRecovered one_task "t1" stopped_task stopped_plan.target_status
      (recover_hub_task one_task around "t1" stopped)
recover_hub_task-IsRecovered_example =
    recover_hub_task-IsRecovered one_task around "t1" around-KeepsTask (one_task-IsTaskStore "t1")
      stopped (shown_of stopped) refl stopped-ArePlain
      (unfold project_task direct_status status_of_value trimmed in refl) stopped-IsMovable
      stopped-HasClaim

plan_test : stopped_plan.target_status ≡ reviewing
unfolding resolve_plan plan_stale plan_route route route_by completion_status
plan_test = refl

plan_stale-IsPlanned_example :
    let plan = plan_stale stopped_task (some implemented) true in
    ((s : HubTaskStatus)
      → NextPhase (some implemented) s
      → (plan.target_status ≡ s) × (plan.preserve_claim ≡ true))
    × (((s : HubTaskStatus) → NextPhase (some implemented) s → ⊥) → IsRestart stopped_task plan)
plan_stale-IsPlanned_example = plan_stale-IsPlanned stopped_task (some implemented) true
