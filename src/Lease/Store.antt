-- ===== src/Lease/Store.antt =====
-- How lease files are listed, `parseWorktreeLeaseFile` of src/worktreeLeaseStore.ts.
use arch_loop.Prelude.{
  ℕ, zero, suc, String, Option, none, some, Bool, true, false, ◌==◌, if◌then◌else◌, or_else, ◌≡◌,
  refl, ap, ◌∙◌, arith, ◌<◌,
}
use arch_loop.Prelude.Trim.{trim}
use arch_loop.Prelude.Json.{Json, null, number, other_number, text, object, Fields, end, member}
use arch_loop.Lease.Metadata.{
  LeaseMetadata, LeaseOwner, direct, hub, LeaseText, invalid_json, json, serialize, serialize_owner,
  IsWritable, IsTextual,
}

pub data OwnerKind : Type 0 where
  direct_kind hub_kind : OwnerKind

-- `WorktreeLeaseOwner`
pub record StoredOwner : Type 0 where
  pub kind : OwnerKind
  pub task_id : Option String
  pub flow_id : Option String
  pub batch_id : Option String
  pub run_id : Option String

-- `WorktreeLeaseRecord`; a process id that is not known is the source's -1
pub record LeaseRecord : Type 0 where
  pub worktree_name : String
  pub branch : String
  pub pid : Option Json
  pub acquired_at : String
  pub owner : Option StoredOwner
  pub is_active : Bool
  pub malformed : Bool

-- `readObject`
read_object : Option Json → Fields
read_object (some (object fs)) = fs
read_object _ = end

non_empty : String → Option String
non_empty String.[] = none
non_empty (String.◌∷◌ c s) = some (String.◌∷◌ c s)

-- `readString`
unfoldable pub read_text : Option Json → Option String
unfolding non_empty
read_text (some (text s)) = non_empty (trim s)
read_text _ = none

-- `readNumber`
read_number : Option Json → Option Json
read_number (some (number n)) = some (number n)
read_number (some (other_number t)) = some (other_number t)
read_number _ = none

-- `a ?? b`: null counts as missing
or_member : Option Json → Option Json → Option Json
or_member none o = o
or_member (some null) o = o
or_member (some v) o = some v

stored_owner : OwnerKind → Fields → StoredOwner
unfolding read_text or_member
stored_owner kind fs = record {
  kind = kind;
  task_id = read_text (or_member (member "taskId" fs) (member "task_id" fs));
  flow_id = read_text (or_member (member "flowId" fs) (member "flow_id" fs));
  batch_id = read_text (or_member (member "batchId" fs) (member "batch_id" fs));
  run_id = read_text (or_member (member "runId" fs) (member "run_id" fs));
}

-- `parseWorktreeLeaseOwner`
parse_owner : Option Json → Option StoredOwner
unfolding read_object read_text stored_owner
parse_owner value =
    let fs = read_object value in
    elim (read_text (member "kind" fs)) [
      | none ↦ none
      | some kind ↦
          if kind == "direct"
          then some (stored_owner direct_kind fs)
          else if kind == "hub"
          then some (stored_owner hub_kind fs)
          else none
    ]

-- the file's name without the suffix `.lock`, if it has it
unfoldable pub without_lock : String → String
without_lock String.[] = String.[]
without_lock (String.◌∷◌ c s) =
    let rest = without_lock s in if String.◌∷◌ c s == ".lock" then String.[] else String.◌∷◌ c rest

non_empty-same : (s : String) → IsTextual s → non_empty s ≡ some s
unfolding non_empty
non_empty-same String.[] h = absurd h
non_empty-same (String.◌∷◌ c s) h = refl

read_text-same : (s : String) → trim s ≡ s → IsTextual s → read_text (some (text s)) ≡ some s
unfolding read_text
read_text-same s t h = ap non_empty t ∙ non_empty-same s h

-- `is_alive` answers `isProcessAlive` for a positive process id.
module _ (is_alive : ℕ → Bool) where
  process_is_alive : Json → Bool
  process_is_alive (number (suc n)) = is_alive (suc n)
  process_is_alive _ = false

  complete_record :
      String → Option StoredOwner → Option String → Option Json → Option String → LeaseRecord
  unfolding process_is_alive
  complete_record name owner (some branch) (some pid) (some at) = record {
    worktree_name = name;
    branch = branch;
    pid = some pid;
    acquired_at = at;
    owner = owner;
    is_active = process_is_alive pid;
    malformed = false;
  }
  complete_record name owner branch pid at = record {
    worktree_name = name;
    branch = or_else branch name;
    pid = pid;
    acquired_at = or_else at "unknown";
    owner = owner;
    is_active = false;
    malformed = true;
  }

  record_of : String → Fields → LeaseRecord
  unfolding complete_record parse_owner read_text read_number or_member
  record_of name fs =
      complete_record name (parse_owner (member "owner" fs)) (read_text (member "branch" fs))
        (read_number (member "pid" fs))
        (read_text (or_member (member "acquiredAt" fs) (member "acquired_at" fs)))

  -- `parseWorktreeLeaseFile`
  unfoldable pub parse_lease_file : String → LeaseText → LeaseRecord
  unfolding record_of complete_record read_object
  parse_lease_file file invalid_json = complete_record (without_lock file) none none none none
  parse_lease_file file (json v) = record_of (without_lock file) (read_object (some v))

  serialize_owner-read :
      (name : String) (o : LeaseOwner) (m : LeaseMetadata)
      → record_of name (serialize_owner o m)
        ≡ complete_record name none
            (read_text (some (text m.branch)))
            (some (number m.pid))
            (read_text (some (text m.acquired_at)))
  unfolding serialize_owner record_of parse_owner read_object read_text read_number or_member
  serialize_owner-read name direct m = refl
  serialize_owner-read name (hub task flow batch) m = refl

  process_is_alive-number : (n : ℕ) → 0 < n → process_is_alive (number n) ≡ is_alive n
  unfolding process_is_alive
  process_is_alive-number zero h = absurd (omega arith)
  process_is_alive-number (suc n) h = refl

  -- Lease metadata that acquiring has written, with texts that trimming leaves as they are, is
  -- listed with its branch and process, active exactly if the process is alive, but without its
  -- owner.
  pub parse_lease_file-serialize :
      (file : String) (m : LeaseMetadata)
      → IsWritable m
      → trim m.branch ≡ m.branch
      → trim m.acquired_at ≡ m.acquired_at
      → parse_lease_file file (json (serialize m)) ≡ record {
        worktree_name = without_lock file;
        branch = m.branch;
        pid = some (number m.pid);
        acquired_at = m.acquired_at;
        owner = none;
        is_active = is_alive m.pid;
        malformed = false;
      }
  unfolding parse_lease_file serialize read_object complete_record
  parse_lease_file-serialize file m w b a =
      serialize_owner-read (without_lock file) m.owner m
      ∙ rw
          (
            read_text-same m.branch b w.has_branch,
            read_text-same m.acquired_at a w.has_time,
            process_is_alive-number m.pid w.has_pid,
          )
          refl
