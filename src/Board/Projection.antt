-- ===== src/Board/Projection.antt =====
-- How the board reads a task of the task store, src/taskBoard.ts: its labels, metadata and status;
-- and its claim, src/hubExecution.ts. A field of the projection that no transition reads is left out.
use arch_loop.Landing.Queue.TicketId.{decimal, ◌+text◌}
use arch_loop.Prelude.{
  Bool, String, Option, none, some, List, [], ◌∷◌, every, if◌then◌else◌, or_option, is_some,
  or_else, true, false, ◌&&◌, not,
}
use arch_loop.Prelude.Json.{
  Json, Items, nil, cons, Fields, null, text, array, object, end, field, member, bool, number,
  other_number,
}
use arch_loop.Recovery.{HubTaskStatus, implementing, reviewing, waiting_for_merge, merging}
use arch_loop.Board.{trimmed, first_text}
use arch_loop.Board.Status.{resolve_status}

-- `left ?? right`
abbrev pub value_or : Option Json → Option Json → Option Json
value_or none o = o
value_or (some null) o = o
value_or (some v) o = some v

-- `readObject`
abbrev pub object_fields : Option Json → Fields
object_fields (some (object fs)) = fs
object_fields _ = end

-- one item of `readStringList`
abbrev pub item_text : Json → Option String
item_text (text s) = trimmed (some (text s))
item_text (object fs) = first_text ("name" ∷ "title" ∷ "id" ∷ "ref" ∷ []) fs
item_text _ = none

abbrev pub with_item : Option String → List String → List String
with_item none rest = rest
with_item (some s) rest = s ∷ rest

abbrev pub item_texts : Items → List String
item_texts nil = []
item_texts (cons v vs) = with_item (item_text v) (item_texts vs)

-- `readStringList` without keys
abbrev pub string_list : Option Json → List String
string_list (some (array vs)) = item_texts vs
string_list _ = []

-- `HubTaskClaimMetadata`, the fields that are read
pub record Claim : Type 0 where
  pub run_id : Option String
  pub batch_id : Option String
  pub branch : Option String
  pub claimed_at : Option String
  pub raw : Fields

-- a record, unless it is empty
abbrev pub nonempty_fields : Fields → Option Fields
nonempty_fields end = none
nonempty_fields (field k v fs) = some (field k v fs)

abbrev pub has_flat_claim : Fields → Bool
has_flat_claim fs =
    every (λ k. is_some (trimmed (member k fs))) ("runId" ∷ "batchId" ∷ "branch" ∷ "claimedAt" ∷ [])

-- `readClaimRecord`
abbrev pub claim_record : Fields → Option Fields
claim_record fs =
    let nested = value_or (member "claim" fs) (
      value_or (member "hubClaim" fs) (value_or (member "hub_claim" fs) (member "taskClaim" fs))) in
    or_option (nonempty_fields (object_fields nested)) (if has_flat_claim fs then some fs else none)

abbrev pub claim_of : Fields → Claim
claim_of fs = record {
  run_id = first_text ("runId" ∷ "run_id" ∷ []) fs;
  batch_id = first_text ("batchId" ∷ "batch_id" ∷ []) fs;
  branch = first_text ("branch" ∷ []) fs;
  claimed_at = first_text ("claimedAt" ∷ "claimed_at" ∷ []) fs;
  raw = fs;
}

abbrev pub claim_from : Option Fields → Option Claim
claim_from none = none
claim_from (some raw) = some (claim_of raw)

-- `readHubTaskClaim`
unfoldable pub read_claim : Fields → Option Claim
read_claim fs = claim_from (claim_record fs)

-- `HubTaskProjection`
pub record BoardTask : Type 0 where
  pub id : String
  pub title : String
  pub hub_status : HubTaskStatus
  pub claim : Option Claim
  pub labels : List String
  pub metadata : Fields

abbrev pub metadata_of : Fields → Fields
metadata_of task = object_fields (
    value_or (member "metadata" task) (
      value_or (member "meta" task)
        (value_or (member "custom_metadata" task) (member "customMetadata" task))))

abbrev pub labels_of : Fields → List String
labels_of task =
    string_list
      (value_or (member "labels" task) (value_or (member "tags" task) (member "labelNames" task)))

-- `String(value)`
unfoldable mutual
  unfolding decimal

  pub string_of : Json → String
  string_of null = "null"
  string_of (bool true) = "true"
  string_of (bool false) = "false"
  string_of (number n) = decimal n
  string_of (other_number s) = s
  string_of (text s) = s
  string_of (array vs) = joined vs
  string_of (object fs) = "[object Object]"

  -- `join(",")`, where null is left empty
  pub joined : Items → String
  joined nil = ""
  joined (cons null nil) = ""
  joined (cons v nil) = string_of v
  joined (cons null vs) = "," +text joined vs
  joined (cons v vs) = string_of v +text "," +text joined vs

-- `String(value ?? other)`
unfoldable pub string_or : Option Json → String → String
unfolding string_of
string_or none other = other
string_or (some v) other = string_of v

unfoldable pub id_of : Fields → String
unfolding string_or
id_of task =
    string_or
      (value_or (member "id" task) (
        value_or (member "key" task)
          (value_or (member "slug" task) (value_or (member "title" task) none))))
      "unknown"

-- `projectHubTask`
unfoldable pub project_task : Fields → BoardTask
unfolding resolve_status read_claim
project_task task = record {
  id = id_of task;
  title =
      or_else (first_text ("title" ∷ "summary" ∷ "name" ∷ []) task)
        (string_or (value_or (member "id" task) none) "untitled");
  hub_status = resolve_status task (labels_of task) (metadata_of task);
  claim = read_claim (metadata_of task);
  labels = labels_of task;
  metadata = metadata_of task;
}

-- `isHubTaskClaimActive`
abbrev pub is_claim_active : HubTaskStatus → Bool
is_claim_active implementing = true
is_claim_active reviewing = true
is_claim_active waiting_for_merge = true
is_claim_active merging = true
is_claim_active _ = false

-- `resolveHubTaskClaimState` is "stale"
abbrev pub has_stale_claim : BoardTask → Bool
has_stale_claim task = is_some task.claim && not (is_claim_active task.hub_status)
