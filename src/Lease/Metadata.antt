-- ===== src/Lease/Metadata.antt =====
-- Lease metadata of src/WorktreeLease.ts: what is written to a lease file and how it is read.
use arch_loop.Prelude.{
  ap, ◌∙◌, ℕ, zero, suc, ◌<◌, ◌≡◌, refl, String, Option, none, some, Bool, true, if◌then◌else◌,
  ◌==◌, arith, eq_refl, ap, ◌∙◌,
}
use arch_loop.Prelude.Json.{
  Json, Fields, text, number, object, end, field, member, non_empty_text, positive_integer,
  is_literal,
}

pub data LeaseOwner : Type 0 where
  direct : LeaseOwner
  hub : String → String → String → LeaseOwner

-- `DirectWorktreeLeaseMetadata` or `HubWorktreeLeaseMetadata`, by its owner (for `hub` the task,
-- flow and batch)
pub record LeaseMetadata : Type 0 where
  pub owner : LeaseOwner
  pub pid : ℕ
  pub branch : String
  pub acquired_at : String

unfoldable pub build_metadata : String → LeaseOwner → String → ℕ → LeaseMetadata
build_metadata branch owner acquired_at pid = record {
  owner = owner;
  pid = pid;
  branch = branch;
  acquired_at = acquired_at;
}

-- `serializeWorktreeLeaseMetadata`: the keys of the allowlist of the owner, in its order; none of
-- them is forbidden
unfoldable pub serialize_owner : LeaseOwner → LeaseMetadata → Fields
serialize_owner direct m = field "owner" (text "direct") (
    field "pid" (number m.pid)
      (field "branch" (text m.branch) (field "acquiredAt" (text m.acquired_at) end)))
serialize_owner (hub task flow batch) m = field "owner" (text "hub") (
    field "taskId" (text task) (
      field "flowId" (text flow) (
        field "batchId" (text batch) (
          field "branch" (text m.branch)
            (field "pid" (number m.pid) (field "acquiredAt" (text m.acquired_at) end))))))

unfoldable pub serialize : LeaseMetadata → Json
unfolding serialize_owner
serialize m = object (serialize_owner m.owner m)

infixl 5 ◌>>=◌
abbrev ◌>>=◌ {ℓ κ} : {A : Type ℓ} {B : Type κ} → Option A → (A → Option B) → Option B
none >>= k = none
some a >>= k = k a

direct_fields : Fields → Option LeaseMetadata
direct_fields fs = do
  pid ← positive_integer (member "pid" fs)
  branch ← non_empty_text (member "branch" fs)
  acquired_at ← non_empty_text (member "acquiredAt" fs)
  some (record { owner = direct; pid = pid; branch = branch; acquired_at = acquired_at })

-- what `isDirectWorktreeLeaseMetadata` accepts
read_direct : Fields → Option LeaseMetadata
unfolding direct_fields
read_direct fs = if is_literal "direct" (member "owner" fs) then direct_fields fs else none

hub_fields : Fields → Option LeaseMetadata
hub_fields fs = do
  task ← non_empty_text (member "taskId" fs)
  flow ← non_empty_text (member "flowId" fs)
  batch ← non_empty_text (member "batchId" fs)
  branch ← non_empty_text (member "branch" fs)
  pid ← positive_integer (member "pid" fs)
  acquired_at ← non_empty_text (member "acquiredAt" fs)
  some (record {
    owner = hub task flow batch;
    pid = pid;
    branch = branch;
    acquired_at = acquired_at;
  })

-- what `isHubWorktreeLeaseMetadata` accepts
read_hub : Fields → Option LeaseMetadata
unfolding hub_fields
read_hub fs = if is_literal "hub" (member "owner" fs) then hub_fields fs else none

abbrev first_of_two : Option LeaseMetadata → Option LeaseMetadata → Option LeaseMetadata
first_of_two (some m) o = some m
first_of_two none o = o

-- `isWorktreeLeaseMetadata`, with the value as metadata
read_metadata : Json → Option LeaseMetadata
read_metadata (object fs) = first_of_two (read_direct fs) (read_hub fs)
read_metadata _ = none

-- The content of a lease file: JSON or not.
pub data LeaseText : Type 0 where
  invalid_json : LeaseText
  json : Json → LeaseText

-- Why a lease file is malformed.
pub data Detail : Type 0 where
  not_json missing_required_fields other_branch unreadable : Detail

pub data Parsed : Type 0 where
  parsed : LeaseMetadata → Parsed
  malformed : Detail → Parsed

abbrev check_branch : Bool → String → Option LeaseMetadata → Parsed
check_branch required branch none = malformed missing_required_fields
check_branch required branch (some m) =
    if required then if m.branch == branch then parsed m else malformed other_branch else parsed m

-- `parseLeaseMetadata`; the flag is `requireBranchMatch`
unfoldable pub parse_metadata : LeaseText → String → Bool → Parsed
unfolding read_metadata read_direct read_hub
parse_metadata invalid_json branch required = malformed not_json
parse_metadata (json v) branch required = check_branch required branch (read_metadata v)

abbrev pub IsTextual : String → Type 0
IsTextual String.[] = ⊥
IsTextual (String.◌∷◌ c s) = Unit

abbrev OwnerIsTextual : LeaseOwner → Type 0
OwnerIsTextual direct = Unit
OwnerIsTextual (hub task flow batch) = IsTextual task × IsTextual flow × IsTextual batch

-- Metadata that a running process writes: its process id is positive and no text is empty.
pub record IsWritable (m : LeaseMetadata) : Type 0 where
  pub has_pid : 0 < m.pid
  pub has_branch : IsTextual m.branch
  pub has_time : IsTextual m.acquired_at
  pub has_owner : OwnerIsTextual m.owner

text_read : (s : String) → IsTextual s → non_empty_text (some (text s)) ≡ some s
text_read String.[] h = absurd h
text_read (String.◌∷◌ c s) h = refl

number_read : (n : ℕ) → 0 < n → positive_integer (some (number n)) ≡ some n
number_read zero h = absurd (omega arith)
number_read (suc n) h = refl

read-serialize_owner :
    (o : LeaseOwner) (pid : ℕ) (branch at : String)
    → 0 < pid
    → IsTextual branch
    → IsTextual at
    → OwnerIsTextual o
    → let m = build_metadata branch o at pid in
      first_of_two (read_direct (serialize_owner o m)) (read_hub (serialize_owner o m)) ≡ some m
unfolding build_metadata read_direct read_hub serialize_owner
read-serialize_owner direct pid branch at p b t o =
    rw (number_read pid p, text_read branch b, text_read at t)
read-serialize_owner (hub task flow batch) pid branch at p b t o = rw (
  text_read task o.0,
  text_read flow o.1,
  text_read batch o.2,
  number_read pid p,
  text_read branch b,
  text_read at t,
)

-- Metadata that is written is read back, for the branch that it is written for.
pub parse-serialize :
    (m : LeaseMetadata)
    → IsWritable m
    → parse_metadata (json (serialize m)) m.branch true ≡ parsed m
unfolding parse_metadata serialize build_metadata
parse-serialize m w =
    ap (check_branch true m.branch) (
      read-serialize_owner m.owner m.pid m.branch m.acquired_at w.has_pid w.has_branch w.has_time
        w.has_owner)
    ∙ rw (eq_refl m.branch)
