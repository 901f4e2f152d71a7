-- ===== src/Board/Tests.antt =====
-- Transitions of the board at concrete inputs.
use arch_loop.Prelude.{false, none, [], ◌∷◌, inl, inr, ◌≡◌, refl, sym, subst}
use arch_loop.Prelude.Json.{Fields, end, field, text, object}
use arch_loop.Recovery.{ready_for_agent, reviewing, failed, done}
use arch_loop.Board.{trimmed}
use arch_loop.Board.Metadata.{spread}
use arch_loop.Board.Status.{status_of_value}
use arch_loop.Board.Projection.{BoardTask, project_task, read_claim}
use arch_loop.Board.Written.{
  Request, merged_metadata, clear_owned, resolve_claim, labels_to_set, is_managed, managed_keys,
}
use arch_loop.Board.Projected.{IsMovable}
use arch_loop.Board.Moved.{HasClaim}
use arch_loop.Board.Store.{ArePlain, IsPlain, write_args-managed}
use arch_loop.Board.Transition.{
  transition, refused, other_status, trimmed_parts, split_commas, status_labels, write_args,
  normalize_labels,
}
use arch_loop.Board.Carried.{IsMoved, transition-IsMoved, transition-stuck}
use arch_loop.Board.Sample.{Stored, shown_of, one_task, one_task-IsTaskStore}

-- A task in the middle of its implementation.
abbrev claimed : Fields
claimed =
    field "runId" (text "r1")
      (field "batchId" (text "b1") (field "branch" (text "archloop/t1-first") end))

abbrev stored : Stored
stored = record {
  labels = "urgent" ∷ "implementing" ∷ [];
  metadata = field "hubStatus" (text "implementing") (field "claim" (object claimed) end);
}

abbrev to_review : Request
to_review = record {
  hub_status = reviewing;
  metadata = end;
  failure_reason = none;
  labels_to_remove = [];
  replace_claim = false;
}

abbrev stored_task : BoardTask
stored_task = project_task (shown_of stored)

stored-ArePlain : ArePlain stored_task.labels
unfolding project_task trimmed trimmed_parts split_commas
stored-ArePlain l (inl e) = subst IsPlain (sym e) (record { one_part = refl; is_trimmed = refl })
stored-ArePlain l (inr (inl e)) =
    subst IsPlain (sym e) (record { one_part = refl; is_trimmed = refl })
stored-ArePlain l (inr (inr n)) = elim n [ ]

to_review-IsMovable : IsMovable stored_task to_review
unfolding project_task merged_metadata status_of_value spread
to_review-IsMovable = record {
  no_other_status = refl;
  no_old_failure = refl;
  no_conflict = refl;
  has_reason = refl;
}

stored-HasClaim : HasClaim stored_task to_review
unfolding project_task merged_metadata spread clear_owned resolve_claim trimmed read_claim
stored-HasClaim = record {
  no_camel_case_claim = refl;
  no_snake_case_claim = refl;
  no_task_claim = refl;
  no_flat = refl;
  complete = refl;
}

transition-IsMoved_example :
    IsMoved one_task "t1" stored_task to_review (transition one_task "t1" to_review stored)
transition-IsMoved_example =
    transition-IsMoved one_task "t1" (one_task-IsTaskStore "t1") to_review stored (shown_of stored)
      refl stored-ArePlain to_review-IsMovable stored-HasClaim

-- A task that failed under the key that nothing clears.
abbrev failed_before : Stored
failed_before = record { labels = "failed" ∷ []; metadata = field "failedReason" (text "old") end }

abbrev to_ready : Request
to_ready = record {
  hub_status = ready_for_agent;
  metadata = end;
  failure_reason = none;
  labels_to_remove = [];
  replace_claim = false;
}

failed_before-ArePlain : ArePlain (project_task (shown_of failed_before)).labels
unfolding project_task trimmed trimmed_parts split_commas
failed_before-ArePlain l (inl e) =
    subst IsPlain (sym e) (record { one_part = refl; is_trimmed = refl })
failed_before-ArePlain l (inr n) = elim n [ ]

transition-stuck_example :
    (transition one_task "t1" to_ready failed_before).1 ≡ refused (other_status failed)
transition-stuck_example =
    transition-stuck one_task "t1" (one_task-IsTaskStore "t1") to_ready failed_before
      (shown_of failed_before) refl failed_before-ArePlain
      (unfold project_task merged_metadata spread trimmed in refl) refl refl refl

labels_test : labels_to_set ("urgent" ∷ "Needs Triage" ∷ []) done ("urgent" ∷ []) ≡ "done" ∷ []
unfolding labels_to_set is_managed managed_keys
labels_test = refl

write_args-managed_example :
    status_labels (write_args stored_task to_review).labels ≡ "reviewing" ∷ []
write_args-managed_example = write_args-managed stored_task to_review stored-ArePlain

-- A label with a comma is split into two when it is written, also into the label of a status.
split_label_test :
    normalize_labels (labels_to_set ("x,failed" ∷ []) done []) ≡ "x" ∷ "failed" ∷ "done" ∷ []
unfolding normalize_labels labels_to_set is_managed managed_keys trimmed_parts split_commas
split_label_test = refl
