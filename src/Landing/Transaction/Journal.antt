-- ===== src/Landing/Transaction/Journal.antt =====
-- What is read from a journal file, `parseHubLandingTransactionRecord` and `readHubLandingJournal` of
-- src/hubLandingTransaction.ts.
use arch_loop.Prelude.{
  String, Option, none, some, List, [], ◌∷◌, Bool, true, ◌&&◌, if◌then◌else◌, is_truthy,
}
use arch_loop.Prelude.Trim.{trim}
use arch_loop.Prelude.Json.{
  Json, text, array, object, Items, nil, cons, Fields, end, member, is_literal,
}
use arch_loop.Landing.Transaction.{
  Checkpoint, opened, base_pinned, candidate_created, candidate_verified, target_landed,
  task_closed, cleaned, Evidence, TransactionRecord, is_git_oid,
}

unfoldable pub fields_of : Json → Fields
fields_of (object fs) = fs
fields_of _ = end

unfoldable pub filled : String → Option String
filled String.[] = none
filled (String.◌∷◌ c s) = some (String.◌∷◌ c s)

-- `readString`
unfoldable pub trimmed_text : Option Json → Option String
unfolding filled
trimmed_text (some (text s)) = filled (trim s)
trimmed_text _ = none

-- `isCheckpoint`, with the text as a checkpoint
unfoldable pub checkpoint_of : Option Json → Option Checkpoint
checkpoint_of v =
    if is_literal "opened" v
    then some opened
    else if is_literal "base_pinned" v
    then some base_pinned
    else if is_literal "candidate_created" v
    then some candidate_created
    else if is_literal "candidate_verified" v
    then some candidate_verified
    else if is_literal "target_landed" v
    then some target_landed
    else if is_literal "task_closed" v
    then some task_closed
    else if is_literal "cleaned" v
    then some cleaned
    else none

abbrev add_filled : String → Bool → List String → List String
add_filled s keeps rest = if keeps then s ∷ rest else rest

unfoldable pub texts_in : Items → List String
unfolding trimmed_text
texts_in nil = []
texts_in (cons (text s) vs) =
    let rest = texts_in vs in add_filled s (is_truthy (some (trim s))) rest
texts_in (cons v vs) = texts_in vs

abbrev pub unless_empty : List String → Option (List String)
unless_empty [] = none
unless_empty (s ∷ ss) = some (s ∷ ss)

-- `readStringArray`
unfoldable pub text_list : Option Json → Option (List String)
unfolding texts_in
text_list (some (array vs)) = unless_empty (texts_in vs)
text_list _ = none

unfoldable pub read_evidence : Fields → Evidence
unfolding trimmed_text text_list
read_evidence fs = record {
  source_oid = trimmed_text (member "sourceOid" fs);
  base_oid = trimmed_text (member "baseOid" fs);
  candidate_oid = trimmed_text (member "candidateOid" fs);
  candidate_ref = trimmed_text (member "candidateRef" fs);
  verifier_fingerprint = trimmed_text (member "verifierFingerprint" fs);
  verification_artifact_path = trimmed_text (member "verificationArtifactPath" fs);
  publish_target_oid = trimmed_text (member "publishTargetOid" fs);
  fence_oid = trimmed_text (member "fenceOid" fs);
  receipt_ref = trimmed_text (member "receiptRef" fs);
  receipt_oid = trimmed_text (member "receiptOid" fs);
  filtered_beads_runtime_paths = text_list (member "filteredBeadsRuntimePaths" fs);
}

-- a missing object id, or one that is well formed
unfoldable pub is_optional_oid : Option String → Bool
is_optional_oid none = true
is_optional_oid (some s) = is_git_oid (some s)

unfoldable pub oids_are_valid : Evidence → Bool
unfolding is_optional_oid
oids_are_valid e =
    is_optional_oid e.source_oid
    && (is_optional_oid e.base_oid
        && (is_optional_oid e.candidate_oid
            && (is_optional_oid e.publish_target_oid
                && (is_optional_oid e.fence_oid && is_optional_oid e.receipt_oid))))

unfoldable pub with_valid_oids : TransactionRecord → Option TransactionRecord
unfolding oids_are_valid
with_valid_oids r = if oids_are_valid r.evidence then some r else none

unfoldable pub record_from :
    Option Checkpoint
    → Option String
    → Option String
    → Option String
    → Evidence
    → Option TransactionRecord
unfolding with_valid_oids
record_from (some checkpoint) (some transaction) (some task) (some time) evidence =
    with_valid_oids (record {
      checkpoint = checkpoint;
      transaction_id = transaction;
      task_id = task;
      created_at = time;
      evidence = evidence;
    })
record_from _ _ _ _ evidence = none

unfoldable pub read_fields : Fields → Option TransactionRecord
unfolding checkpoint_of trimmed_text read_evidence record_from
read_fields fs =
    record_from (checkpoint_of (member "checkpoint" fs)) (trimmed_text (member "transactionId" fs))
      (trimmed_text (member "taskId" fs)) (trimmed_text (member "createdAt" fs)) (read_evidence fs)

-- `parseHubLandingTransactionRecord`
unfoldable pub parse_record : Json → Option TransactionRecord
unfolding fields_of read_fields
parse_record v =
    if is_literal "checkpoint" (member "type" (fields_of v))
    then read_fields (fields_of v)
    else none

abbrev pub found : Option TransactionRecord → List TransactionRecord → List TransactionRecord
found none rest = rest
found (some r) rest = r ∷ rest

-- A line of the file that is not blank: a JSON value, or nothing where it is not JSON.
unfoldable pub read_journal : List (Option Json) → List TransactionRecord
unfolding parse_record
read_journal [] = []
read_journal (none ∷ lines) = read_journal lines
read_journal (some v ∷ lines) = found (parse_record v) (read_journal lines)
