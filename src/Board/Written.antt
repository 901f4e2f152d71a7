-- ===== src/Board/Written.antt =====
-- What a transition of src/taskBoard.ts writes: the labels and the metadata of the task in its new
-- status.
use arch_loop.Prelude.{
  Bool, true, false, not, ◌&&◌, ◌||◌, ◌==◌, String, Option, none, some, List, keep, map, ◌++◌,
  if◌then◌else◌, or_option, is_some,
}
use arch_loop.Prelude.Json.{Fields, bool, text, object, end, field, member, is_literal, Json}
use arch_loop.Recovery.{
  HubTaskStatus, needs_info, blocked, implementing, reviewing, waiting_for_merge, merging,
  publishing, done, wontfix, failed, sync_conflict,
}
use arch_loop.Board.{normalize_key, status_text, status_label, hub_task_statuses, among}
use arch_loop.Board.Metadata.{delete_key, delete_keys, spread, set_key, keys}
use arch_loop.Board.Status.{
  task_status_keys, blocked_keys, needs_info_keys, conflict_keys, wontfix_keys, done_keys,
  same_status,
}
use arch_loop.Board.Projection.{BoardTask, Claim, nonempty_fields}

-- `HUB_STATUS_BEADS_LIFECYCLE`
abbrev pub lifecycle_for : HubTaskStatus → String
lifecycle_for implementing = "in_progress"
lifecycle_for reviewing = "in_progress"
lifecycle_for waiting_for_merge = "in_progress"
lifecycle_for merging = "in_progress"
lifecycle_for publishing = "in_progress"
lifecycle_for blocked = "blocked"
lifecycle_for sync_conflict = "blocked"
lifecycle_for done = "closed"
lifecycle_for wontfix = "closed"
lifecycle_for _ = "open"

-- `FAILURE_METADATA_KEYS`
abbrev pub failure_keys : List String
failure_keys = List.◌∷◌ "failureReason" (List.◌∷◌ "failure_reason" (List.◌∷◌ "failed" List.[]))

-- `ARCHLOOP_MANAGED_STATUS_LABELS`
unfoldable pub managed_keys : List String
unfolding normalize_key
managed_keys = map (λ s. normalize_key (status_label s)) hub_task_statuses

unfoldable pub is_managed : String → Bool
unfolding normalize_key
is_managed l = among managed_keys (normalize_key l)

-- `uniqueStrings`
unfoldable pub unique_strings : List String → List String
unique_strings List.[] = List.[]
unique_strings (List.◌∷◌ x xs) = List.◌∷◌ x (keep (λ y. not (y == x)) (unique_strings xs))

-- the labels of the user in `labelsToSetForHubStatus`
abbrev pub user_labels : List String → List String → List String
user_labels labels removed = keep (λ l. not (is_managed l) && not (among removed l)) labels

-- `labelsToSetForHubStatus`
unfoldable pub labels_to_set : List String → HubTaskStatus → List String → List String
unfolding unique_strings
labels_to_set labels s removed =
    unique_strings (user_labels labels removed ++ List.◌∷◌ (status_label s) List.[])

unfoldable pub delete_unless : Bool → List String → Fields → Fields
unfolding delete_keys
delete_unless true ks fs = fs
delete_unless false ks fs = delete_keys ks fs

-- `clearStaleHubStatusMetadata`
unfoldable pub clear_stale : HubTaskStatus → Fields → Fields
clear_stale s fs =
    let a = delete_unless (same_status s failed) failure_keys fs in
    let b = delete_unless (same_status s blocked) blocked_keys a in
    let c = delete_unless (same_status s needs_info) needs_info_keys b in
    let d =
      delete_unless (same_status s sync_conflict || is_literal "conflict" (member "sync_state" c))
        conflict_keys c in
    let e = delete_unless (same_status s wontfix) wontfix_keys d in
    delete_unless (same_status s done) done_keys e

-- `STRUCTURED_METADATA_PATCH_KEYS`
abbrev pub structured_keys : List String
structured_keys = List.◌∷◌ "claim" (
    List.◌∷◌ "hubClaim" (
      List.◌∷◌ "hub_claim" (
        List.◌∷◌ "taskClaim" (
          List.◌∷◌ "remoteRefs" (
            List.◌∷◌ "remote_refs" (
              List.◌∷◌ "remoteReferences"
                (List.◌∷◌ "runRefs" (List.◌∷◌ "run_refs" (List.◌∷◌ "runReferences" List.[])))))))))

-- `clearTransitionOwnedMetadataPatchKeys`
unfoldable pub clear_owned : Fields → Fields
unfolding delete_keys
clear_owned patch = delete_keys structured_keys (delete_keys task_status_keys patch)

-- `CLAIM_REQUIRED_STATUSES`
abbrev pub requires_claim : HubTaskStatus → Bool
requires_claim implementing = true
requires_claim reviewing = true
requires_claim waiting_for_merge = true
requires_claim merging = true
requires_claim publishing = true
requires_claim _ = false

-- `CLAIM_PRESERVING_STATUSES`
abbrev pub preserves_claim : HubTaskStatus → Bool
preserves_claim s = requires_claim s || same_status s failed

-- `UpdateHubTaskStatusInput`, what is asked for; a missing patch is an empty one
pub record Request : Type 0 where
  pub hub_status : HubTaskStatus
  pub metadata : Fields
  pub failure_reason : Option String
  pub labels_to_remove : List String
  pub replace_claim : Bool

abbrev pub object_in : Option Json → Option Fields
object_in (some (object fs)) = some fs
object_in _ = none

-- `readPatchClaimRecord`
abbrev pub patch_claim : Fields → Option Fields
patch_claim patch = object_in (member "claim" patch)

abbrev pub existing_claim : Option Claim → Option Fields
existing_claim none = none
existing_claim (some c) = nonempty_fields c.raw

-- `resolveTransitionClaim`
unfoldable pub resolve_claim : BoardTask → Request → Option Fields
resolve_claim task q =
    if not (preserves_claim q.hub_status)
    then none
    else if q.replace_claim && is_some (patch_claim q.metadata)
    then patch_claim q.metadata
    else or_option (existing_claim task.claim) (patch_claim q.metadata)

unfoldable pub put_claim : Option Fields → Fields → Fields
unfolding set_key delete_key
put_claim none fs = delete_key "claim" fs
put_claim (some c) fs = set_key "claim" (object c) fs

unfoldable pub put_failure : Option String → Fields → Fields
unfolding set_key delete_key
put_failure none fs = delete_key "failed" (delete_key "failureReason" fs)
put_failure (some reason) fs =
    set_key "failed" (bool true) (set_key "failureReason" (text reason) fs)

unfoldable pub merged_metadata : BoardTask → Request → Fields
unfolding spread clear_owned
merged_metadata task q =
    spread (spread task.metadata (clear_owned q.metadata))
      (field "hubStatus" (text (status_text q.hub_status)) end)

-- The metadata that a transition writes.
unfoldable pub next_metadata : BoardTask → Request → Fields
unfolding clear_stale resolve_claim
next_metadata task q =
    put_failure q.failure_reason
      (put_claim (resolve_claim task q) (clear_stale q.hub_status (merged_metadata task q)))

-- `removedMetadataKeys`
unfoldable pub removed_keys : Fields → Fields → List String
removed_keys previous next = keep (λ k. not (is_some (member k next))) (keys previous)
