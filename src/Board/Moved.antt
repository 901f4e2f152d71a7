-- ===== src/Board/Moved.antt =====
-- A transition that is carried out, src/taskBoard.ts: the checks on the task that is read back.
use arch_loop.Prelude.{
  Bool, true, false, not, ◌||◌, ◌==◌, String, Option, none, some, is_some, Bool-cases, Option-cases,
  ◌≡◌, inl, inr, refl, sym, ap, ◌∙◌, eq_refl,
}
use arch_loop.Prelude.Json.{Fields, end, field, text, member}
use arch_loop.Recovery.{failed}
use arch_loop.Board.{among, trimmed, status_text, status_label, normalize_key}
use arch_loop.Board.Metadata.{spread, delete_keys, member-spread, member-delete_keys}
use arch_loop.Board.Status.{same_status, task_status_keys}
use arch_loop.Board.Projection.{BoardTask, claim_of, has_flat_claim, read_claim}
use arch_loop.Board.Written.{
  Request, next_metadata, merged_metadata, resolve_claim, requires_claim, preserves_claim,
  labels_to_set, clear_owned, structured_keys,
}
use arch_loop.Board.Labels.{labels_to_set-managed}
use arch_loop.Board.Lookup.{
  next-claim, next-merged, next-failed_flag, next-failure_reason, next-failure_snake,
}
use arch_loop.Board.Transition.{
  check_transition, check_labels, check_claim, check_failure, claim_is_complete, is_label_of,
}

-- the claim that a transition writes is complete
abbrev pub claim_written : Option Fields → Bool
claim_written none = false
claim_written (some raw) = claim_is_complete (some (claim_of raw))

-- No claim is read from another key than `claim`, and a status that requires a claim is given a
-- complete one.
pub record HasClaim (task : BoardTask) (q : Request) : Type 0 where
  pub no_camel_case_claim : member "hubClaim" task.metadata ≡ none
  pub no_snake_case_claim : member "hub_claim" task.metadata ≡ none
  pub no_task_claim : member "taskClaim" task.metadata ≡ none
  pub no_flat : has_flat_claim (merged_metadata task q) ≡ false
  pub complete : not (requires_claim q.hub_status) || claim_written (resolve_claim task q) ≡ true

or_false : (b c : Bool) → b || c ≡ false → b ≡ false
or_false true c h = h
or_false false c h = refl

or_false_right : (b c : Bool) → b || c ≡ false → c ≡ false
or_false_right true c h = cc h
or_false_right false c h = h

claim_cleared :
    (task : BoardTask) (q : Request)
    → preserves_claim q.hub_status ≡ false
    → resolve_claim task q ≡ none
unfolding resolve_claim
claim_cleared task q h =
    rw
      (
        or_false (requires_claim q.hub_status) (same_status q.hub_status failed) h,
        or_false_right (requires_claim q.hub_status) (same_status q.hub_status failed) h,
      )
      refl

claim_there :
    (o : Option Fields)
    → claim_written o ≡ true
    → (raw : Fields) × (o ≡ some raw) × (claim_is_complete (some (claim_of raw)) ≡ true)
claim_there none h = cc h
claim_there (some raw) h = (raw, refl, h)

module _ (task : BoardTask) (q : Request) (claims : HasClaim task q) (fs : Fields)
    (written : (x : String) → member x fs ≡ member x (next_metadata task q)) where
  other_key :
      (x : String)
      → among task_status_keys x ≡ false
      → among structured_keys x ≡ true
      → ("hubStatus" == x) ≡ false
      → member x task.metadata ≡ none
      → member x (merged_metadata task q) ≡ none
  unfolding merged_metadata clear_owned
  other_key x h k n e =
      rw
        (
          member-spread x (spread task.metadata (clear_owned q.metadata))
              (field "hubStatus" (text (status_text q.hub_status)) end),
          n,
          member-spread x task.metadata (clear_owned q.metadata),
          member-delete_keys x structured_keys (delete_keys task_status_keys q.metadata),
          k,
        )
        e

  flat_same : has_flat_claim fs ≡ false
  flat_same =
      rw
        (
          written "runId",
          next-merged task q "runId" refl refl refl refl refl refl refl refl refl,
          written "batchId",
          next-merged task q "batchId" refl refl refl refl refl refl refl refl refl,
          written "branch",
          next-merged task q "branch" refl refl refl refl refl refl refl refl refl,
          written "claimedAt",
          next-merged task q "claimedAt" refl refl refl refl refl refl refl refl refl,
        )
        claims.no_flat

  claim_none : resolve_claim task q ≡ none → read_claim fs ≡ none
  unfolding read_claim
  claim_none e =
      rw
        (
          written "claim",
          next-claim task q,
          e,
          written "hubClaim",
          next-merged task q "hubClaim" refl refl refl refl refl refl refl refl refl,
          other_key "hubClaim" refl refl refl claims.no_camel_case_claim,
          written "hub_claim",
          next-merged task q "hub_claim" refl refl refl refl refl refl refl refl refl,
          other_key "hub_claim" refl refl refl claims.no_snake_case_claim,
          written "taskClaim",
          next-merged task q "taskClaim" refl refl refl refl refl refl refl refl refl,
          other_key "taskClaim" refl refl refl claims.no_task_claim,
          flat_same,
        )
        refl

  -- The claim that is written is read back.
  pub claim_some :
      (raw : Fields)
      → resolve_claim task q ≡ some raw
      → claim_is_complete (some (claim_of raw)) ≡ true
      → read_claim fs ≡ some (claim_of raw)
  unfolding read_claim trimmed
  claim_some end e c = cc c
  claim_some (field k v raw) e c = rw (written "claim", next-claim task q, e) refl

  -- A task that is read back with this metadata passes the check of its claim.
  claim_checked : (t : BoardTask) → t.claim ≡ read_claim fs → check_claim q.hub_status t ≡ none
  claim_checked t e = elim (Bool-cases (preserves_claim q.hub_status)) [
    | inr p ↦
        rw
          (
            or_false (requires_claim q.hub_status) (same_status q.hub_status failed) p,
            or_false_right (requires_claim q.hub_status) (same_status q.hub_status failed) p,
            e,
            claim_none (claim_cleared task q p),
          )
          refl
    | inl p ↦ elim (Bool-cases (requires_claim q.hub_status)) [
      | inr r ↦ rw (p, r) refl
      | inl r ↦
          let (raw, resolved, c) = claim_there (resolve_claim task q) (rw r at claims.complete) in
          rw (r, e, claim_some raw resolved c, c) refl
    ]
  ]

  failure_checked :
      (t : BoardTask)
      → is_some q.failure_reason ≡ same_status q.hub_status failed
      → ((x : String) → member x t.metadata ≡ member x fs)
      → check_failure q.hub_status t ≡ none
  failure_checked t h e = elim (Bool-cases (same_status q.hub_status failed)) [
    | inl f ↦ elim (Option-cases q.failure_reason) [
      | inl n ↦ cc (sym (ap is_some n) ∙ h ∙ f)
      | inr (r, n) ↦
          rw
            (
              f,
              e "failed" ∙ written "failed" ∙ next-failed_flag task q,
              n,
              e "failureReason" ∙ written "failureReason" ∙ next-failure_reason task q,
              n,
            )
            refl
    ]
    | inr f ↦ elim (Option-cases q.failure_reason) [
      | inl n ↦
          rw
            (
              f,
              e "failed" ∙ written "failed" ∙ next-failed_flag task q,
              n,
              e "failureReason" ∙ written "failureReason" ∙ next-failure_reason task q,
              n,
              e "failure_reason" ∙ written "failure_reason" ∙ next-failure_snake task q f,
            )
            refl
      | inr (r, n) ↦ cc (sym (ap is_some n) ∙ h ∙ f)
    ]
  ]

  labels_checked :
      (t : BoardTask)
      → t.labels ≡ labels_to_set task.labels q.hub_status q.labels_to_remove
      → check_labels q.hub_status t ≡ none
  unfolding is_label_of
  labels_checked t e =
      rw
        (
          e,
          labels_to_set-managed task.labels q.hub_status q.labels_to_remove,
          eq_refl (normalize_key (status_label q.hub_status)),
        )
        refl

  -- A task that is read back with the status, the labels and the metadata passes every check.
  pub checks_pass :
      (t : BoardTask)
      → is_some q.failure_reason ≡ same_status q.hub_status failed
      → t.hub_status ≡ q.hub_status
      → t.labels ≡ labels_to_set task.labels q.hub_status q.labels_to_remove
      → t.claim ≡ read_claim fs
      → ((x : String) → member x t.metadata ≡ member x fs)
      → check_transition q.hub_status t ≡ none
  unfolding check_transition
  checks_pass t h s l c m =
      rw
        (
          s,
          eq_refl (status_text q.hub_status),
          labels_checked t l,
          claim_checked t c,
          failure_checked t h m,
        )
        refl
