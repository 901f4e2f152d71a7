-- ===== src/Landing/Transaction/Write.antt =====
-- What is written to a journal file, `appendHubLandingCheckpoint` of src/hubLandingTransaction.ts.
use arch_loop.Prelude.{String, Option, none, some, List, [], ◌∷◌, ◌++◌}
use arch_loop.Prelude.Json.{Json, text, array, object, Items, nil, cons, Fields, end, field}
use arch_loop.Landing.Transaction.{
  Checkpoint, opened, base_pinned, candidate_created, candidate_verified, target_landed,
  task_closed, cleaned, TransactionRecord, TransactionState, reduce,
}
use arch_loop.Landing.Transaction.Journal.{read_journal}

abbrev pub checkpoint_text : Checkpoint → String
checkpoint_text opened = "opened"
checkpoint_text base_pinned = "base_pinned"
checkpoint_text candidate_created = "candidate_created"
checkpoint_text candidate_verified = "candidate_verified"
checkpoint_text target_landed = "target_landed"
checkpoint_text task_closed = "task_closed"
checkpoint_text cleaned = "cleaned"

abbrev pub text_or_none : Option String → Option Json
text_or_none none = none
text_or_none (some s) = some (text s)

abbrev pub text_items : List String → Items
text_items [] = nil
text_items (s ∷ ss) = cons (text s) (text_items ss)

abbrev pub list_or_none : Option (List String) → Option Json
list_or_none none = none
list_or_none (some ss) = some (array (text_items ss))

-- `HubLandingTransactionRecord`, by key
abbrev pub entries : TransactionRecord → List (String × Option Json)
entries r =
    ("type", some (text "checkpoint"))
    ∷ ("checkpoint", some (text (checkpoint_text r.checkpoint)))
    ∷ ("transactionId", some (text r.transaction_id))
    ∷ ("taskId", some (text r.task_id))
    ∷ ("createdAt", some (text r.created_at))
    ∷ ("sourceOid", text_or_none r.evidence.source_oid)
    ∷ ("baseOid", text_or_none r.evidence.base_oid)
    ∷ ("candidateOid", text_or_none r.evidence.candidate_oid)
    ∷ ("candidateRef", text_or_none r.evidence.candidate_ref)
    ∷ ("verifierFingerprint", text_or_none r.evidence.verifier_fingerprint)
    ∷ ("verificationArtifactPath", text_or_none r.evidence.verification_artifact_path)
    ∷ ("publishTargetOid", text_or_none r.evidence.publish_target_oid)
    ∷ ("fenceOid", text_or_none r.evidence.fence_oid)
    ∷ ("receiptRef", text_or_none r.evidence.receipt_ref)
    ∷ ("receiptOid", text_or_none r.evidence.receipt_oid)
    ∷ ("filteredBeadsRuntimePaths", list_or_none r.evidence.filtered_beads_runtime_paths)
    ∷ []

-- `JSON.stringify` leaves out a key without a value.
unfoldable pub written_fields : List (String × Option Json) → Fields
written_fields [] = end
written_fields ((k, none) ∷ es) = written_fields es
written_fields ((k, some v) ∷ es) = field k v (written_fields es)

unfoldable pub json_of : TransactionRecord → Json
unfolding written_fields
json_of r = object (written_fields (entries r))

-- `appendHubLandingCheckpoint`: the file with the record at its end, and the state that is reduced
-- from what is read back; `none` where the source throws
unfoldable pub append_checkpoint :
    List (Option Json) → TransactionRecord → List (Option Json) × Option TransactionState
unfolding json_of read_journal reduce
append_checkpoint lines r =
    let written = lines ++ (some (json_of r) ∷ []) in (written, reduce (read_journal written))
