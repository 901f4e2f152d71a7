-- ===== src/Planner/Repeated.antt =====
-- A batch with a task twice, `resolvePlannedBatchSelection` of src/hubBatchPlanner.ts.
use arch_loop.Prelude.{
  ℕ, ◌+◌, String, Option, none, some, [], ◌∷◌, true, ◌≡◌, refl, eq_refl, arith, ltb, ◌-◌, suc,
  false, take, zero,
}
use arch_loop.Recovery.{Task}
use arch_loop.Planner.{
  planned, Output, Candidate, explicit_blocker, is_eligible_task, validate_output,
}
use arch_loop.Planner.Answer.{answered, plan_batch, use_validated, use_output}

-- The one task is selected, and deferred as well for a blocker that it does not have.
abbrev pub contradictory : Task → Option String → Output
contradictory t rationale = record {
  selected_task_ids = t.id ∷ [];
  deferred = record { task_id = t.id; reason = explicit_blocker } ∷ [];
  rationale = rationale;
}

abbrev pub unblocked : Task → Candidate
unblocked t = record {
  id = t.id;
  blockers_resolved = [];
  open_blockers = [];
  unknown_blockers = [];
}

one-fits : (room : ℕ) → ltb (2 + room) 1 ≡ false
one-fits room = ground arith

one-left : (room : ℕ) → 2 + room - 1 ≡ suc room
one-left room = omega arith

take-nil : (n : ℕ) → take {A = Task} n [] ≡ []
take-nil zero = refl
take-nil (suc n) = refl

contradictory-valid :
    (t : Task) (rationale : Option String) (room : ℕ)
    → validate_output (contradictory t rationale) (t.id ∷ []) (2 + room) ≡ none
unfolding validate_output
contradictory-valid t rationale room = ground (arith, eq_refl t.id, one-fits room)

-- Where the planner selects a task and also defers it for a blocker that it does not have, the batch
-- has the task twice if it has room for two.
pub plan_batch-repeats :
    (t : Task) (rationale : Option String) (room : ℕ)
    → is_eligible_task t ≡ true
    → (plan_batch planned
        (t ∷ [])
        (answered (unblocked t ∷ []) (some (contradictory t rationale)))
        (2 + room)).selected_tasks
      ≡ t ∷ t ∷ []
unfolding plan_batch use_validated use_output
plan_batch-repeats t rationale room e =
    rw (e, contradictory-valid t rationale room, e)
      (rw (eq_refl t.id, one-left room) (rw (eq_refl t.id, take-nil room) refl))
