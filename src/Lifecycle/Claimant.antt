-- ===== src/Lifecycle/Claimant.antt =====
-- Whose claim a claimed task has, `claimHubTask` of src/taskBoard.ts.
use arch_loop.Prelude.{
  Option, none, some, List, true, false, or_option, or_else, ◌≡◌, refl, sym, ap, ◌∙◌,
}
use arch_loop.Prelude.Json.{Fields, field, end, object}
use arch_loop.Recovery.{implementing, Event}
use arch_loop.Board.Metadata.{member-spread}
use arch_loop.Board.Projection.{BoardTask, claim_of, project_task, is_claim_active}
use arch_loop.Board.Written.{existing_claim, object_in, resolve_claim}
use arch_loop.Board.Projected.{IsMovable}
use arch_loop.Board.Moved.{HasClaim, claim_some, claim_written}
use arch_loop.Board.Store.{IsTaskStore, ArePlain}
use arch_loop.Board.Carried.{IsMoved, transition-IsMoved}
use arch_loop.Board.Transition.{
  TaskStore, Result, moved, load, project_shown, transition, claim_is_complete,
}
use arch_loop.Lifecycle.{World}
use arch_loop.Lifecycle.Claiming.{
  ClaimInput, claim_fields, claim_request, Claimed, claimed, report_claim, claim_loaded, claim_task,
}

-- A task that was claimed: it is implemented, under the claim that it had before if it had one, and
-- else under the new claim, which is returned in any case.
pub record IsClaimed {S : Type 0} (bd : TaskStore S) (c : ClaimInput) (task : BoardTask)
    (r : World bd × Claimed) : Type 0 where
  pub after : BoardTask
  pub result : r.1 ≡ claimed after (claim_fields c)
  pub status : after.hub_status ≡ implementing
  pub claim : after.claim ≡ some (claim_of (or_else (existing_claim task.claim) (claim_fields c)))
  pub shown : load bd c.task_id r.0.0 ≡ some after

or_option-some : (o : Option Fields) (fs : Fields) → or_option o (some fs) ≡ some (or_else o fs)
or_option-some none fs = refl
or_option-some (some gs) fs = refl

claim_request-resolves :
    (task : BoardTask) (c : ClaimInput)
    → resolve_claim task (claim_request task c)
      ≡ some (or_else (existing_claim task.claim) (claim_fields c))
unfolding resolve_claim claim_request
claim_request-resolves task c =
    ap (λ o. or_option (existing_claim task.claim) (object_in o))
      (member-spread "claim" task.metadata (field "claim" (object (claim_fields c)) end))
    ∙ or_option-some (existing_claim task.claim) (claim_fields c)

module _ {S : Type 0} (bd : TaskStore S) (c : ClaimInput) (store : IsTaskStore bd c.task_id) (s : S)
    (shown : Fields) (e : bd.show c.task_id s ≡ some shown)
    (plain : ArePlain (project_task shown).labels) where
  abbrev task : BoardTask
  task = project_task shown

  moved-IsClaimed :
      (log : List Event) (r : S × Result)
      → HasClaim task (claim_request task c)
      → IsMoved bd c.task_id task (claim_request task c) r
      → IsClaimed bd c task (report_claim bd c log r)
  unfolding report_claim claim_request
  moved-IsClaimed log (t, x) claims m =
      let raw = or_else (existing_claim task.claim) (claim_fields c) in
      let resolves = claim_request-resolves task c in
      let complete : claim_is_complete (some (claim_of raw)) ≡ true =
        ap claim_written (sym resolves) ∙ claims.complete in
      let path : report_claim bd c log (t, x) ≡ report_claim bd c log (t, moved m.after) =
        ap (λ y. report_claim bd c log (t, y)) m.result in
      record {
        after = m.after;
        result = ap (λ y. y.1) path;
        status = m.status;
        claim =
            m.claim
            ∙ claim_some task (claim_request task c) claims m.after.metadata m.metadata raw resolves
                complete;
        shown = ap (λ y. load bd c.task_id y.0.0) path ∙ m.shown;
      }

  -- Where the task store does what it documents, the labels are plain, the task is in none of
  -- the four active statuses, so that it may be publishing, and the request is movable with its claim:
  -- claiming the task moves it to its implementation, under the claim that it had before if it had one,
  -- and else under the new claim; the new claim is returned in any case.
  pub claim_task-IsClaimed :
      (log : List Event)
      → is_claim_active task.hub_status ≡ false
      → IsMovable task (claim_request task c)
      → HasClaim task (claim_request task c)
      → IsClaimed bd c task (claim_task bd c (s, log))
  unfolding claim_task claim_loaded load project_shown
  claim_task-IsClaimed log h movable claims =
      rw (e, h)
        (moved-IsClaimed log (transition bd c.task_id (claim_request task c) s) claims (
          transition-IsMoved bd c.task_id store (claim_request task c) s shown e plain movable
            claims))
