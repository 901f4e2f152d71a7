-- ===== src/Board/Status.antt =====
-- The status of a task, `resolveStatusFromTaskShape` of src/taskBoard.ts.
use arch_loop.Prelude.{
  Bool, true, false, not, ◌&&◌, ◌==◌, String, Option, none, some, List, [], ◌∷◌, any, if◌then◌else◌,
  or_else, or_option, is_some, same_text,
}
use arch_loop.Prelude.Json.{Json, Fields, null, text, member}
use arch_loop.Recovery.{
  HubTaskStatus, inbox, needs_info, ready_for_agent, ready_for_human, blocked, implementing,
  reviewing, waiting_for_merge, merging, publishing, done, wontfix, failed, sync_conflict,
  is_completed,
}
use arch_loop.Board.{
  normalize_key, status_text, status_named, status_of_key, among, trimmed, first_text,
}

-- `TASK_STATUS_KEYS`
abbrev pub task_status_keys : List String
task_status_keys =
    "hub_status" ∷ "hubStatus" ∷ "task_status" ∷ "taskStatus" ∷ "hub_state" ∷ "hubState"
    ∷ "triage_status" ∷ "triageStatus" ∷ "task_board_status" ∷ "taskBoardStatus" ∷ []

-- `BEADS_LIFECYCLE_KEYS`
abbrev pub lifecycle_keys : List String
lifecycle_keys = "state" ∷ "status" ∷ "lifecycle" ∷ []

-- The keys of `METADATA_STATUS_RULES`.
abbrev pub blocked_keys : List String
blocked_keys =
    "blocked_reason" ∷ "blockedReason" ∷ "blocked_reason_kind" ∷ "blockedReasonKind" ∷ "blocked"
    ∷ []

abbrev pub needs_info_keys : List String
needs_info_keys = "needs_info" ∷ "needsInfo" ∷ "needs_info_reason" ∷ "needsInfoReason" ∷ []

abbrev pub failed_keys : List String
failed_keys = "failed" ∷ "failedReason" ∷ "failure_reason" ∷ "failureReason" ∷ []

abbrev pub conflict_keys : List String
conflict_keys =
    "sync_conflict" ∷ "syncConflict" ∷ "sync_conflict_reason" ∷ "syncConflictReason" ∷ []

abbrev pub wontfix_keys : List String
wontfix_keys = "wontfix" ∷ "wontFix" ∷ "rejected" ∷ []

abbrev pub done_keys : List String
done_keys = "done" ∷ []

-- `METADATA_STATUS_RULES`
abbrev pub metadata_status_rules : List (List String × HubTaskStatus)
metadata_status_rules =
    (blocked_keys, blocked)
    ∷ (needs_info_keys, needs_info)
    ∷ (failed_keys, failed)
    ∷ (conflict_keys, sync_conflict)
    ∷ (wontfix_keys, wontfix)
    ∷ (done_keys, done)
    ∷ []

-- the test of one value in `hasTruthyMetadata`
abbrev pub has_value : Option Json → Bool
has_value none = false
has_value (some null) = false
has_value (some (text s)) = is_some (trimmed (some (text s)))
has_value (some v) = true

-- `hasTruthyMetadata`
abbrev pub has_truthy_metadata : Fields → List String → Bool
has_truthy_metadata fs ks = any (λ k. has_value (member k fs)) ks

abbrev pub status_from_rules : Fields → List (List String × HubTaskStatus) → Option HubTaskStatus
status_from_rules fs [] = none
status_from_rules fs ((ks, s) ∷ rules) =
    if has_truthy_metadata fs ks then some s else status_from_rules fs rules

-- `resolveStatusFromMetadataReasons`
unfoldable pub reason_status : Fields → Option HubTaskStatus
reason_status fs = status_from_rules fs metadata_status_rules

-- `normalizeHubTaskStatus`
unfoldable pub status_of_value : Option Json → Option HubTaskStatus
unfolding normalize_key
status_of_value (some (text s)) = status_named (normalize_key s)
status_of_value _ = none

abbrev pub status_under : List String → Fields → Option HubTaskStatus
status_under [] fs = none
status_under (k ∷ ks) fs = or_option (status_of_value (member k fs)) (status_under ks fs)

-- `resolveMetadataStatus`
unfoldable pub metadata_status : Fields → Option HubTaskStatus
metadata_status fs = status_under task_status_keys fs

-- `resolveStatusFromLabels`
unfoldable pub labels_status : List String → Option HubTaskStatus
unfolding normalize_key status_of_key
labels_status [] = none
labels_status (l ∷ ls) = or_option (status_of_key (normalize_key l)) (labels_status ls)

-- `LABEL_AUTHORITATIVE_STATUSES`
abbrev pub is_authoritative : HubTaskStatus → Bool
is_authoritative implementing = true
is_authoritative reviewing = true
is_authoritative waiting_for_merge = true
is_authoritative merging = true
is_authoritative publishing = true
is_authoritative failed = true
is_authoritative done = true
is_authoritative wontfix = true
is_authoritative _ = false

-- `IMPLEMENTING_LABEL_STATUSES`
abbrev pub is_queue_status : HubTaskStatus → Bool
is_queue_status inbox = true
is_queue_status needs_info = true
is_queue_status ready_for_agent = true
is_queue_status ready_for_human = true
is_queue_status _ = false

-- `left === right` for statuses
abbrev pub same_status : HubTaskStatus → HubTaskStatus → Bool
same_status s t = status_text s == status_text t

abbrev pub is_status : HubTaskStatus → Option HubTaskStatus → Bool
is_status s none = false
is_status s (some t) = same_status s t

-- `normalizeBeadsLifecycle`
unfoldable pub lifecycle_of : Option String → Option String
unfolding normalize_key
lifecycle_of none = none
lifecycle_of (some s) =
    let key = normalize_key s in
    if among ("open" ∷ "in_progress" ∷ "blocked" ∷ "closed" ∷ []) key then some key else none

abbrev pub status_of_lifecycle : Option String → HubTaskStatus
status_of_lifecycle lifecycle =
    if same_text lifecycle (some "blocked")
    then blocked
    else if same_text lifecycle (some "closed")
    then done
    else if same_text lifecycle (some "in_progress")
    then implementing
    else inbox

-- Where neither the label decides alone nor the metadata has a status.
abbrev pub by_lifecycle : Option HubTaskStatus → Option String → HubTaskStatus
by_lifecycle none lifecycle = status_of_lifecycle lifecycle
by_lifecycle (some l) lifecycle =
    if same_text lifecycle (some "in_progress") && is_queue_status l then implementing else l

abbrev pub by_metadata : Option HubTaskStatus → Option HubTaskStatus → Option String → HubTaskStatus
by_metadata (some m) label lifecycle = m
by_metadata none label lifecycle = by_lifecycle label lifecycle

abbrev pub by_label : Option HubTaskStatus → Option HubTaskStatus → Option String → HubTaskStatus
by_label none metadata lifecycle = by_metadata metadata none lifecycle
by_label (some l) metadata lifecycle =
    if is_authoritative l && not (is_status l metadata)
    then l
    else by_metadata metadata (some l) lifecycle

abbrev pub completed_or : HubTaskStatus → Option HubTaskStatus → HubTaskStatus
completed_or r none = r
completed_or r (some m) = if same_status r sync_conflict && is_completed m then m else r

abbrev pub by_reason :
    Option HubTaskStatus
    → Option HubTaskStatus
    → Option HubTaskStatus
    → Option String
    → HubTaskStatus
by_reason (some r) label metadata lifecycle = completed_or r metadata
by_reason none label metadata lifecycle = by_label label metadata lifecycle

unfoldable pub status_of_text : Option String → Option HubTaskStatus
unfolding normalize_key
status_of_text none = none
status_of_text (some s) = status_named (normalize_key s)

-- the status that the task itself has, beside its metadata
unfoldable pub direct_status : Fields → Option HubTaskStatus
unfolding status_of_text
direct_status task = status_of_text (first_text task_status_keys task)

-- `resolveStatusFromTaskShape`
unfoldable pub resolve_status : Fields → List String → Fields → HubTaskStatus
unfolding reason_status metadata_status labels_status
resolve_status task labels metadata = or_else (direct_status task) (
    by_reason (reason_status metadata) (labels_status labels) (metadata_status metadata)
      (lifecycle_of (first_text lifecycle_keys task)))
