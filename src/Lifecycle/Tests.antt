-- ===== src/Lifecycle/Tests.antt =====
-- What a run records of a task, at concrete inputs.
use arch_loop.Prelude.{
  some, [], ◌∷◌, true, false, ◌≡◌, refl, sym, subst, inl, inr, or_else, none, Bool,
}
use arch_loop.Prelude.Json.{end, field, text, Fields, object}
use arch_loop.Recovery.{reviewing, waiting_for_merge, done}
use arch_loop.Recovery.Router.{Route}
use arch_loop.Board.{trimmed}
use arch_loop.Board.Metadata.{spread}
use arch_loop.Board.Status.{direct_status, status_of_value}
use arch_loop.Board.Projection.{Claim, BoardTask, project_task, read_claim}
use arch_loop.Board.Written.{merged_metadata, clear_owned, resolve_claim, existing_claim}
use arch_loop.Board.Moved.{HasClaim}
use arch_loop.Board.Store.{ArePlain, IsPlain}
use arch_loop.Board.Transition.{trimmed_parts, split_commas}
use arch_loop.Board.Sample.{Stored, shown_of, one_task, one_task-IsTaskStore}
use arch_loop.Lifecycle.{
  World, record_implementation_success, record_implementation_failure, record_review_success,
  record_review_failure, record_merge_phase_failure, record_repair_exhaustion, close_failed,
  merge_conflict_unresolved, conflict_request, record_sync_conflict,
}
use arch_loop.Board.Projected.{IsMovable}
use arch_loop.Lifecycle.Claiming.{
  ClaimInput, claim_request, claim_fields, claim_task, is_flow_eligible,
}
use arch_loop.Lifecycle.Claimant.{IsClaimed, claim_task-IsClaimed}
use arch_loop.Lifecycle.Logged.{route_in, IsResumed, record_success-IsResumed, record_failure-route}
use arch_loop.Lifecycle.Conflict.{IsConflict, record_sync_conflict-IsConflict}

abbrev done_task : Stored
done_task = record { labels = "done" ∷ []; metadata = field "hubStatus" (text "done") end }

abbrev start : World one_task
start = (done_task, [])

abbrev claim : Claim
claim = record {
  run_id = some "r1";
  batch_id = some "b1";
  branch = some "archloop/t1-first";
  claimed_at = some "Monday";
  raw = end;
}

record_success-IsResumed_example :
    let implemented : Bool → Route = λ b.
      route_in (record_implementation_success one_task "t1" b end claim start).0.1 "t1" false in
    let reviewed = route_in (record_review_success one_task "t1" end claim start).0.1 "t1" false in
    IsResumed (implemented true) reviewing
    × IsResumed (implemented false) waiting_for_merge
    × IsResumed reviewed waiting_for_merge
record_success-IsResumed_example = record_success-IsResumed one_task "t1" false end claim start

record_failure-route_example :
    let before = route_in start.1 "t1" false in
    (route_in
        (record_implementation_failure one_task "t1" "agent_failed" end claim start).0.1
        "t1"
        false
      ≡ before)
    × (route_in (record_review_failure one_task "t1" "agent_failed" end start).0.1 "t1" false
        ≡ before)
    × (route_in (record_merge_phase_failure one_task "t1" close_failed end start).0.1 "t1" false
        ≡ before)
    × (route_in
          (record_repair_exhaustion one_task "t1" merge_conflict_unresolved end start).0.1
          "t1"
          false
        ≡ before)
record_failure-route_example =
    record_failure-route one_task "t1" false "agent_failed" close_failed merge_conflict_unresolved
      end claim start

abbrev done_board_task : BoardTask
done_board_task = project_task (shown_of done_task)

done_task-ArePlain : ArePlain done_board_task.labels
unfolding project_task trimmed trimmed_parts split_commas
done_task-ArePlain l (inl e) = subst IsPlain (sym e) (record { one_part = refl; is_trimmed = refl })
done_task-ArePlain l (inr n) = elim n [ ]

done_task-HasClaim : HasClaim done_board_task (conflict_request done_board_task "diverged")
unfolding project_task merged_metadata spread clear_owned resolve_claim trimmed read_claim
    conflict_request direct_status status_of_value
done_task-HasClaim = record {
  no_camel_case_claim = refl;
  no_snake_case_claim = refl;
  no_task_claim = refl;
  no_flat = refl;
  complete = refl;
}

record_sync_conflict-IsConflict_example :
    IsConflict one_task "t1" done_board_task "diverged"
      (record_sync_conflict one_task "t1" "diverged" done_task)
record_sync_conflict-IsConflict_example =
    record_sync_conflict-IsConflict one_task "t1" (one_task-IsTaskStore "t1") "diverged" done_task
      (shown_of done_task) refl done_task-ArePlain (unfold project_task status_of_value in refl)
      (unfold project_task in refl) done_task-HasClaim

conflict_test : (conflict_request done_board_task "diverged").hub_status ≡ done
unfolding conflict_request project_task direct_status trimmed status_of_value
conflict_test = refl

-- A task that is ready, with the claim of an earlier run.
abbrev stale_claim : Fields
stale_claim =
    field "runId" (text "r0")
      (field "batchId" (text "b0") (field "branch" (text "archloop/t1-first") end))

abbrev ready_task : Stored
ready_task = record {
  labels = "ready-for-agent" ∷ [];
  metadata = field "hubStatus" (text "ready_for_agent") (field "claim" (object stale_claim) end);
}

abbrev new_claim : ClaimInput
new_claim = record {
  run_id = "r1";
  batch_id = "b1";
  task_id = "t1";
  branch = "archloop/t1-first";
  claimed_at = "Monday";
  base_head = none;
  branch_existed = some true;
}

abbrev ready_board_task : BoardTask
ready_board_task = project_task (shown_of ready_task)

ready_task-ArePlain : ArePlain ready_board_task.labels
unfolding project_task trimmed trimmed_parts split_commas
ready_task-ArePlain l (inl e) =
    subst IsPlain (sym e) (record { one_part = refl; is_trimmed = refl })
ready_task-ArePlain l (inr n) = elim n [ ]

ready_task-IsMovable : IsMovable ready_board_task (claim_request ready_board_task new_claim)
unfolding project_task merged_metadata status_of_value spread claim_request clear_owned
ready_task-IsMovable = record {
  no_other_status = refl;
  no_old_failure = refl;
  no_conflict = refl;
  has_reason = refl;
}

ready_task-HasClaim : HasClaim ready_board_task (claim_request ready_board_task new_claim)
unfolding project_task merged_metadata spread clear_owned resolve_claim trimmed read_claim
    claim_request
ready_task-HasClaim = record {
  no_camel_case_claim = refl;
  no_snake_case_claim = refl;
  no_task_claim = refl;
  no_flat = refl;
  complete = refl;
}

claim_task-IsClaimed_example :
    IsClaimed one_task new_claim ready_board_task (claim_task one_task new_claim (ready_task, []))
claim_task-IsClaimed_example =
    claim_task-IsClaimed one_task new_claim (one_task-IsTaskStore "t1") ready_task
      (shown_of ready_task) refl ready_task-ArePlain []
      (unfold project_task direct_status status_of_value trimmed in refl) ready_task-IsMovable
      ready_task-HasClaim

-- The claim of the earlier run stays.
stale_claim_test :
    or_else (existing_claim ready_board_task.claim) (claim_fields new_claim) ≡ stale_claim
unfolding project_task read_claim
stale_claim_test = refl

eligible_test : is_flow_eligible ready_board_task ≡ true
unfolding is_flow_eligible project_task direct_status status_of_value trimmed
eligible_test = refl
