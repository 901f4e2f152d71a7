-- ===== src/Landing/Transaction/Tests.antt =====
-- src/hubLandingTransaction.ts at concrete inputs.
use arch_loop.Prelude.Trim.{trim}
use arch_loop.Landing.Transaction.Journal.{read_journal}
use arch_loop.Prelude.Json.{Json, text, object, end, field}
use arch_loop.Prelude.{
  ◌≤◌, ◌≡◌, refl, ◌↔◌, ◌⊎◌, String, Option, none, some, List, [], ◌∷◌, true, false, In,
}
use arch_loop.Landing.Queue.Marks.{required}
use arch_loop.Landing.Transaction.{
  Checkpoint, opened, base_pinned, candidate_created, rank, Evidence, TransactionRecord,
  TransactionState, reduce, is_git_oid,
}
use arch_loop.Landing.Transaction.Reduce.{counted, reduce_furthest, given, last_given, reduce_oids}
use arch_loop.Landing.Transaction.Shipped.{
  ShippedInput, derive_shipped, IsVerifiedLanding, derive_shipped_iff,
}

abbrev oid : String
oid = "0123456789abcdef0123456789ABCDEF01234567"

oid-is_git_oid : (is_git_oid (some oid) ≡ true) × (is_git_oid (some "0123") ≡ false)
unfolding is_git_oid
oid-is_git_oid = (refl, refl)

abbrev no_evidence : Evidence
no_evidence = record {
  source_oid = none;
  base_oid = none;
  candidate_oid = none;
  candidate_ref = none;
  verifier_fingerprint = none;
  verification_artifact_path = none;
  publish_target_oid = none;
  fence_oid = none;
  receipt_ref = none;
  receipt_oid = none;
  filtered_beads_runtime_paths = none;
}

abbrev at_checkpoint : Checkpoint → Evidence → TransactionRecord
at_checkpoint checkpoint evidence = record {
  checkpoint = checkpoint;
  transaction_id = "ltx-a";
  task_id = "a";
  created_at = "t0";
  evidence = evidence;
}

abbrev journal : List TransactionRecord
journal =
    at_checkpoint opened (record no_evidence { source_oid = some oid })
    ∷ at_checkpoint candidate_created (record no_evidence { candidate_oid = some oid })
    ∷ at_checkpoint base_pinned no_evidence
    ∷ []

journal-state : (s : TransactionState) × (reduce journal ≡ some s)
unfolding reduce
journal-state = (_, refl)

reduce_furthest_example :
    ((r : TransactionRecord)
      → In r (counted journal)
      → rank r.checkpoint ≤ rank journal-state.0.checkpoint)
    × ((r : TransactionRecord) × In r (counted journal)
        × (journal-state.0.checkpoint ≡ r.checkpoint))
reduce_furthest_example = reduce_furthest journal journal-state.0 journal-state.1

reduce_oids_example :
    let evidence = journal-state.0.evidence in
    let recorded =
      λ (field : Evidence → Option String). last_given (given field (counted journal)) in
    (evidence.source_oid ≡ recorded (λ v. v.source_oid))
    × (evidence.base_oid ≡ recorded (λ v. v.base_oid))
    × (evidence.candidate_oid ≡ recorded (λ v. v.candidate_oid))
    × (evidence.publish_target_oid ≡ recorded (λ v. v.publish_target_oid))
    × (evidence.fence_oid ≡ recorded (λ v. v.fence_oid))
    × (evidence.receipt_oid ≡ recorded (λ v. v.receipt_oid))
reduce_oids_example = reduce_oids journal journal-state.0 journal-state.1

abbrev candidate_record : TransactionRecord
candidate_record = at_checkpoint candidate_created (record no_evidence { candidate_oid = some oid })

abbrev shipped_input : ShippedInput
shipped_input = record {
  publish_policy = required;
  task_closed = true;
  transaction_id = some "ltx-a";
  closed_transaction_id = some "ltx-a";
  candidate_oid = some oid;
  closed_candidate_oid = some oid;
  publish_target_oid = some oid;
  legacy_closed_grandfathered = false;
  candidate_contained_in_target = false;
  remote_publication_proven = true;
}

input_is_shipped : (derive_shipped shipped_input).shipped ≡ true
unfolding derive_shipped is_git_oid
input_is_shipped = refl

derive_shipped_iff_example : ((derive_shipped shipped_input).shipped ≡ true) ↔ (
    (shipped_input.task_closed ≡ true)
    × ((shipped_input.legacy_closed_grandfathered ≡ true) ⊎ IsVerifiedLanding shipped_input))
derive_shipped_iff_example = derive_shipped_iff shipped_input

-- A line that is not JSON, a checkpoint with a broken object id, and a good one.
abbrev lines : List (Option Json)
lines =
    none
    ∷ some (
        object (
          field "type" (text "checkpoint") (
            field "checkpoint" (text "opened") (
              field "transactionId" (text "lt-1") (
                field "taskId" (text "t1")
                  (field "createdAt" (text "Monday") (field "baseOid" (text "0123") end)))))))
    ∷ some (
        object (
          field "type" (text "checkpoint") (
            field "checkpoint" (text "opened") (
              field "transactionId" (text "lt-1") (
                field "taskId" (text " t1 ")
                  (field "createdAt" (text "Monday") (field "baseOid" (text oid) end)))))))
    ∷ []

read_journal_test :
    read_journal lines
    ≡ record {
      checkpoint = opened;
      transaction_id = "lt-1";
      task_id = "t1";
      created_at = "Monday";
      evidence = record no_evidence { base_oid = some oid };
    }
      ∷ []
unfolding read_journal trim is_git_oid
read_journal_test = refl
