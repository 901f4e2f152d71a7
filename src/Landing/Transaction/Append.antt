-- ===== src/Landing/Transaction/Append.antt =====
-- One more record in a journal, `appendHubLandingCheckpoint` of src/hubLandingTransaction.ts.
use arch_loop.Prelude.{String, Option, some, List, [], true, ◌≡◌, ◌≢◌, is_truthy, In}
use arch_loop.Prelude.Trim.{trim}
use arch_loop.Prelude.Json.{Json}
use arch_loop.Landing.Transaction.{TransactionRecord}

-- A text that is read back as it is: it has no space around it, and is not empty.
abbrev pub IsKept : String → Type 0
IsKept s = (trim s ≡ s) × (is_truthy (some s) ≡ true)

abbrev pub IsKeptOrNone : Option String → Type 0
IsKeptOrNone o = (s : String) → o ≡ some s → IsKept s

-- A list of texts that is read back as it is: it is not empty, and no text is blank.
abbrev pub IsKeptList : Option (List String) → Type 0
IsKeptList o =
    (ss : List String)
    → o ≡ some ss
    → (ss ≢ []) × ((s : String) → In s ss → is_truthy (some (trim s)) ≡ true)

-- The texts of a record are read back as they are.
pub record HasKeptTexts (r : TransactionRecord) : Type 0 where
  pub transaction : IsKept r.transaction_id
  pub task : IsKept r.task_id
  pub time : IsKept r.created_at
  pub source_oid : IsKeptOrNone r.evidence.source_oid
  pub base_oid : IsKeptOrNone r.evidence.base_oid
  pub candidate_oid : IsKeptOrNone r.evidence.candidate_oid
  pub candidate_ref : IsKeptOrNone r.evidence.candidate_ref
  pub verifier_fingerprint : IsKeptOrNone r.evidence.verifier_fingerprint
  pub verification_artifact_path : IsKeptOrNone r.evidence.verification_artifact_path
  pub publish_target_oid : IsKeptOrNone r.evidence.publish_target_oid
  pub fence_oid : IsKeptOrNone r.evidence.fence_oid
  pub receipt_ref : IsKeptOrNone r.evidence.receipt_ref
  pub receipt_oid : IsKeptOrNone r.evidence.receipt_oid
  pub filtered_paths : IsKeptList r.evidence.filtered_beads_runtime_paths
