-- ===== src/Board/Projected.antt =====
-- The status that the board reads of what a transition writes, src/taskBoard.ts.
use arch_loop.Prelude.{
  true, false, not, ◌||◌, String, none, some, List, Bool-cases, Option-cases, ◌≡◌, inl, inr, refl,
  sym, ap, ◌∙◌, is_some,
}
use arch_loop.Prelude.Json.{Fields, text, member, is_literal, field, end}
use arch_loop.Recovery.{needs_info, blocked, failed, sync_conflict, is_completed}
use arch_loop.Board.{status_text}
use arch_loop.Board.Metadata.{spread, delete_keys, member-spread, member-delete_keys}
use arch_loop.Board.Labels.{labels_to_set-IsHarmless}
use arch_loop.Board.Status.{
  blocked_keys, needs_info_keys, conflict_keys, wontfix_keys, done_keys, same_status, has_value,
  has_truthy_metadata, reason_status, metadata_status, status_of_value, resolve_status,
  direct_status, labels_status, task_status_keys, failed_keys,
}
use arch_loop.Board.Projection.{BoardTask}
use arch_loop.Board.Written.{
  Request, next_metadata, merged_metadata, labels_to_set, clear_owned, structured_keys,
}
use arch_loop.Board.Lookup.{
  next-blocked, next-needs_info, next-wontfix, next-done, next-conflict, next-failed_flag,
  next-failure_reason, next-failure_snake, next-merged,
}
use arch_loop.Board.Settled.{
  bears_conflict, or_false_right, unnegate, or_true_right, completed_failed, no_truthy, Fits, fits,
  settled, status_named_text,
}

-- A request that the metadata of the task, with the patch of the request, does not stand against: no
-- other status under the first key for one, no failure under a key that nothing clears, no conflict
-- of the synchronisation that the status does not bear, and a reason exactly for a failure.
pub record IsMovable (task : BoardTask) (q : Request) : Type 0 where
  pub no_other_status : status_of_value (member "hub_status" task.metadata) ≡ none
  pub no_old_failure : has_value (member "failedReason" (merged_metadata task q)) ≡ false
  pub no_conflict :
      bears_conflict q.hub_status
        || not (is_literal "conflict" (member "sync_state" (merged_metadata task q)))
      ≡ true
  pub has_reason : is_some q.failure_reason ≡ same_status q.hub_status failed

module _ (task : BoardTask) (q : Request) (movable : IsMovable task q) (fs : Fields)
    (written : (x : String) → member x fs ≡ member x (next_metadata task q)) where
  reason_none : same_status q.hub_status failed ≡ false → q.failure_reason ≡ none
  reason_none h = elim (Option-cases q.failure_reason) [
    | inl e ↦ e
    | inr (r, e) ↦ cc (sym (ap is_some e) ∙ movable.has_reason ∙ h)
  ]

  old_failure : has_truthy_metadata fs failed_keys ≡ same_status q.hub_status failed
  old_failure = elim (Bool-cases (same_status q.hub_status failed)) [
    | inl h ↦ rw (written "failed", next-failed_flag task q, movable.has_reason, h) refl
    | inr h ↦
        let r = reason_none h in
        rw
          (
            written "failed",
            next-failed_flag task q,
            r,
            written "failedReason",
            next-merged task q "failedReason" refl refl refl refl refl refl refl refl refl,
            movable.no_old_failure,
            written "failure_reason",
            next-failure_snake task q h,
            written "failureReason",
            next-failure_reason task q,
            r,
            h,
          )
          refl
  ]

  reason_status-Fits : Fits q.hub_status (reason_status fs)
  unfolding reason_status
  reason_status-Fits =
      fits q.hub_status (has_truthy_metadata fs blocked_keys)
        (has_truthy_metadata fs needs_info_keys) (has_truthy_metadata fs failed_keys)
        (has_truthy_metadata fs conflict_keys) (has_truthy_metadata fs wontfix_keys)
        (has_truthy_metadata fs done_keys)
        (λ h. no_truthy blocked_keys fs (λ x m. written x ∙ next-blocked task q x h m))
        (λ h. no_truthy needs_info_keys fs (λ x m. written x ∙ next-needs_info task q x h m))
        old_failure
        (λ h. no_truthy conflict_keys fs (λ x m.
          written x
          ∙ next-conflict task q x
              (or_false_right (is_completed q.hub_status) (same_status q.hub_status sync_conflict)
                h)
              (unnegate _ (rw h at movable.no_conflict)) m))
        (λ h. no_truthy wontfix_keys fs (λ x m. written x ∙ next-wontfix task q x h m))
        (λ h. no_truthy done_keys fs (λ x m. written x ∙ next-done task q x h m))

  merged_hub_status : status_of_value (member "hub_status" (merged_metadata task q)) ≡ none
  unfolding merged_metadata clear_owned
  merged_hub_status =
      rw
        (
          member-spread "hub_status" (spread task.metadata (clear_owned q.metadata))
              (field "hubStatus" (text (status_text q.hub_status)) end),
          member-spread "hub_status" task.metadata (clear_owned q.metadata),
          member-delete_keys "hub_status" structured_keys (delete_keys task_status_keys q.metadata),
          member-delete_keys "hub_status" task_status_keys q.metadata,
        )
        movable.no_other_status

  merged_status :
      member "hubStatus" (merged_metadata task q) ≡ some (text (status_text q.hub_status))
  unfolding merged_metadata
  merged_status =
      member-spread "hubStatus" (spread task.metadata (clear_owned q.metadata))
        (field "hubStatus" (text (status_text q.hub_status)) end)

  written_status : metadata_status fs ≡ some q.hub_status
  unfolding metadata_status
  written_status =
      rw
        (
          written "hub_status",
          next-merged task q "hub_status" refl refl refl refl refl refl refl refl refl,
          merged_hub_status,
          written "hubStatus",
          next-merged task q "hubStatus" refl refl refl refl refl refl refl refl refl,
          merged_status,
          status_named_text q.hub_status,
        )
        refl

  -- The board reads the status that was asked for.
  pub resolve_status-written :
      (shown : Fields) (labels removed : List String)
      → direct_status shown ≡ none
      → resolve_status shown (labels_to_set labels q.hub_status removed) fs ≡ q.hub_status
  unfolding resolve_status
  resolve_status-written shown labels removed h =
      rw (h, written_status)
        (settled q.hub_status (reason_status fs)
          (labels_status (labels_to_set labels q.hub_status removed)) _ reason_status-Fits
          (labels_to_set-IsHarmless labels q.hub_status removed))

module _ (task : BoardTask) (q : Request) (fs : Fields)
    (written : (x : String) → member x fs ≡ member x (next_metadata task q)) where
  old_reason :
      has_value (member "failedReason" (merged_metadata task q)) ≡ true
      → has_truthy_metadata fs failed_keys ≡ true
  old_reason h =
      rw
        (
          written "failedReason"
              ∙ next-merged task q "failedReason" refl refl refl refl refl refl refl refl refl,
          h,
        )
        (or_true_right (has_value (member "failed" fs)))

  -- A failure under the key that nothing clears decides the status, unless the task is blocked or
  -- needs information.
  pub resolve_status-stuck :
      (shown : Fields) (labels : List String)
      → direct_status shown ≡ none
      → has_value (member "failedReason" (merged_metadata task q)) ≡ true
      → same_status q.hub_status blocked ≡ false
      → same_status q.hub_status needs_info ≡ false
      → resolve_status shown labels fs ≡ failed
  unfolding resolve_status reason_status
  resolve_status-stuck shown labels d h b n =
      rw
        (
          d,
          no_truthy blocked_keys fs (λ x m. written x ∙ next-blocked task q x b m),
          no_truthy needs_info_keys fs (λ x m. written x ∙ next-needs_info task q x n m),
          old_reason h,
        )
        (completed_failed (metadata_status fs))
