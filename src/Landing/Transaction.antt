-- ===== src/Landing/Transaction.antt =====
-- The journal of a landing transaction, src/hubLandingTransaction.ts: checkpoints, their reduction
-- to a state, and the proof that a task is shipped.
pub mod Shipped
pub mod Reduce
pub mod Write
pub mod Entries
pub mod Append
pub mod Journal
pub mod Readable
mod Tests
use arch_loop.Prelude.{
  ℕ, zero, suc, String, Char, code, Option, none, some, List, [], ◌∷◌, Bool, true, false, ◌&&◌,
  ◌||◌, if◌then◌else◌, ◌==◌, leb, keep, or_option, ◌++◌,
}

-- `HUB_LANDING_CHECKPOINTS`, in their order
pub data Checkpoint : Type 0 where
  opened base_pinned candidate_created candidate_verified target_landed task_closed cleaned :
      Checkpoint

-- `CHECKPOINT_RANK`
abbrev pub rank : Checkpoint → ℕ
rank opened = 0
rank base_pinned = 1
rank candidate_created = 2
rank candidate_verified = 3
rank target_landed = 4
rank task_closed = 5
rank cleaned = 6

-- What a record and a state have in common beside their identity and times.
pub record Evidence : Type 0 where
  pub source_oid : Option String
  pub base_oid : Option String
  pub candidate_oid : Option String
  pub candidate_ref : Option String
  pub verifier_fingerprint : Option String
  pub verification_artifact_path : Option String
  pub publish_target_oid : Option String
  pub fence_oid : Option String
  pub receipt_ref : Option String
  pub receipt_oid : Option String
  pub filtered_beads_runtime_paths : Option (List String)

pub record TransactionRecord : Type 0 where
  pub checkpoint : Checkpoint
  pub transaction_id : String
  pub task_id : String
  pub created_at : String
  pub evidence : Evidence

pub record TransactionState : Type 0 where
  pub transaction_id : String
  pub task_id : String
  pub checkpoint : Checkpoint
  pub records : List TransactionRecord
  pub evidence : Evidence
  pub opened_at : String
  pub updated_at : String

-- `record.x ?? state.x` for each field
unfoldable pub merge_evidence : Evidence → Evidence → Evidence
merge_evidence new old = record {
  source_oid = or_option new.source_oid old.source_oid;
  base_oid = or_option new.base_oid old.base_oid;
  candidate_oid = or_option new.candidate_oid old.candidate_oid;
  candidate_ref = or_option new.candidate_ref old.candidate_ref;
  verifier_fingerprint = or_option new.verifier_fingerprint old.verifier_fingerprint;
  verification_artifact_path =
      or_option new.verification_artifact_path old.verification_artifact_path;
  publish_target_oid = or_option new.publish_target_oid old.publish_target_oid;
  fence_oid = or_option new.fence_oid old.fence_oid;
  receipt_ref = or_option new.receipt_ref old.receipt_ref;
  receipt_oid = or_option new.receipt_oid old.receipt_oid;
  filtered_beads_runtime_paths =
      or_option new.filtered_beads_runtime_paths old.filtered_beads_runtime_paths;
}

abbrev pub of_transaction : String → TransactionRecord → Bool
of_transaction id r = r.transaction_id == id

unfoldable pub open_state : List TransactionRecord → TransactionRecord → TransactionState
open_state records r = record {
  transaction_id = r.transaction_id;
  task_id = r.task_id;
  checkpoint = r.checkpoint;
  records = records;
  evidence = r.evidence;
  opened_at = r.created_at;
  updated_at = r.created_at;
}

-- one round of the loop of `reduceHubLandingTransaction`
unfoldable pub advance : TransactionState → TransactionRecord → TransactionState
unfolding merge_evidence
advance s r = record s {
  checkpoint = if leb (rank s.checkpoint) (rank r.checkpoint) then r.checkpoint else s.checkpoint;
  evidence = merge_evidence r.evidence s.evidence;
  updated_at = r.created_at;
}

unfoldable pub advance_all : TransactionState → List TransactionRecord → TransactionState
advance_all s [] = s
advance_all s (r ∷ rs) = advance_all (advance s r) rs

-- The records of the first one's transaction count.
unfoldable pub reduce : List TransactionRecord → Option TransactionState
unfolding open_state advance_all advance
reduce [] = none
reduce (r ∷ rs) =
    let valid = keep (of_transaction r.transaction_id) rs in
    some (advance_all (open_state (r ∷ valid) r) valid)

is_hex : ℕ → Bool
is_hex c = leb b'0' c && leb c b'9' || leb b'a' c && leb c b'f' || leb b'A' c && leb c b'F'

-- exactly so many hexadecimal digits
is_hex_text : ℕ → String → Bool
is_hex_text zero String.[] = true
is_hex_text zero (String.◌∷◌ c s) = false
is_hex_text (suc n) String.[] = false
is_hex_text (suc n) (String.◌∷◌ c s) = is_hex (code c) && is_hex_text n s

unfoldable pub is_git_oid : Option String → Bool
unfolding is_hex is_hex_text
is_git_oid none = false
is_git_oid (some s) = is_hex_text 40 s
