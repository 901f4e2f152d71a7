-- ===== src/Board/Transition.antt =====
-- Moving a task to another status, `transitionHubTaskStatus` of src/taskBoard.ts with the arguments
-- of src/bdCliArgs.ts. The task store, the program `bd`, is a parameter. The id of a task is the one
-- that its selector is resolved to.
use Prim.Native.String.{[], ◌∷◌}
use arch_loop.Prelude.{
  zero, Bool, true, false, not, ◌&&◌, ◌||◌, ◌==◌, Char, code, String, Option, none, some, List,
  keep, ◌++◌, same_number, if◌then◌else◌, is_some,
}
use arch_loop.Prelude.Trim.{trim}
use arch_loop.Prelude.Json.{Json, Fields, null, bool, number, text, end, field, member}
use arch_loop.Recovery.{HubTaskStatus, failed, done}
use arch_loop.Board.{normalize_key, status_label, nonempty}
use arch_loop.Board.Metadata.{spread}
use arch_loop.Board.Status.{same_status}
use arch_loop.Board.Projection.{BoardTask, Claim, project_task, with_item}
use arch_loop.Board.Written.{
  Request, is_managed, unique_strings, labels_to_set, next_metadata, removed_keys, preserves_claim,
  requires_claim, lifecycle_for,
}

-- Why a transition throws.
pub data Refusal : Type 0 where
  not_loaded command_failed : Refusal
  other_status : HubTaskStatus → Refusal
  other_labels : List String → Refusal
  claim_not_cleared claim_incomplete failure_incomplete failure_not_cleared : Refusal

pub data Result : Type 0 where
  moved : BoardTask → Result
  refused : Refusal → Result

-- `!task.metadata.failed`
abbrev pub is_falsy : Option Json → Bool
is_falsy none = true
is_falsy (some null) = true
is_falsy (some (bool false)) = true
is_falsy (some (number zero)) = true
is_falsy (some (text [])) = true
is_falsy (some v) = false

abbrev pub is_string : Option Json → Bool
is_string (some (text s)) = true
is_string _ = false

abbrev pub status_labels : List String → List String
status_labels labels = keep is_managed labels

unfoldable pub is_label_of : HubTaskStatus → List String → Bool
unfolding normalize_key
is_label_of s (List.◌∷◌ l List.[]) = normalize_key l == normalize_key (status_label s)
is_label_of s _ = false

-- `!claim.runId` for a text that is read without blanks around it
abbrev pub claim_is_complete : Option Claim → Bool
claim_is_complete none = false
claim_is_complete (some c) = is_some c.run_id && is_some c.batch_id && is_some c.branch

-- `assertHubFailureMetadataPolicy`
abbrev pub check_failure : HubTaskStatus → BoardTask → Option Refusal
check_failure s task =
    if same_status s failed
    then if is_falsy (member "failed" task.metadata)
        || not (is_string (member "failureReason" task.metadata))
      then some failure_incomplete
      else none
    else if is_some (member "failed" task.metadata)
        || is_some (member "failureReason" task.metadata)
        || is_some (member "failure_reason" task.metadata)
    then some failure_not_cleared
    else none

-- `assertHubTaskClaimPolicy`
abbrev pub check_claim : HubTaskStatus → BoardTask → Option Refusal
check_claim s task =
    if not (preserves_claim s) && is_some task.claim
    then some claim_not_cleared
    else if requires_claim s && not (claim_is_complete task.claim)
    then some claim_incomplete
    else none

-- `assertCanonicalHubStatusLabel`
abbrev pub check_labels : HubTaskStatus → BoardTask → Option Refusal
check_labels s task =
    if is_label_of s (status_labels task.labels)
    then none
    else some (other_labels (status_labels task.labels))

-- `assertProjectedHubStatus`
abbrev pub check_status : HubTaskStatus → BoardTask → Option Refusal
check_status s task =
    if same_status task.hub_status s then none else some (other_status task.hub_status)

abbrev pub first_refusal : Option Refusal → Option Refusal → Option Refusal
first_refusal (some r) o = some r
first_refusal none o = o

-- `assertHubTaskTransition`
unfoldable pub check_transition : HubTaskStatus → BoardTask → Option Refusal
check_transition s task = first_refusal (check_status s task) (
    first_refusal (check_labels s task) (first_refusal (check_claim s task) (check_failure s task)))

-- `split(",")`, with the characters before the first comma
abbrev pub add_char : Char → List String → List String
add_char c List.[] = List.◌∷◌ (c ∷ []) List.[]
add_char c (List.◌∷◌ s ss) = List.◌∷◌ (c ∷ s) ss

unfoldable pub split_commas : String → List String
split_commas [] = List.◌∷◌ [] List.[]
split_commas (c ∷ s) =
    let rest = split_commas s in
    if same_number (code c) b',' then List.◌∷◌ [] rest else add_char c rest

unfoldable pub trimmed_parts : List String → List String
unfolding trim
trimmed_parts List.[] = List.[]
trimmed_parts (List.◌∷◌ s ss) = with_item (nonempty (trim s)) (trimmed_parts ss)

-- `normalizeBdLabels` of a list
unfoldable pub normalize_labels : List String → List String
unfolding split_commas
normalize_labels List.[] = List.[]
normalize_labels (List.◌∷◌ l ls) = trimmed_parts (split_commas l) ++ normalize_labels ls

-- `appendBdUnsetMetadataArgs`, the keys
unfoldable pub unset_args : List String → List String
unfolding trim unique_strings
unset_args ks = unique_strings (trimmed_parts ks)

-- The arguments of `bd update`, by flag.
pub record Update : Type 0 where
  pub status : Option String
  pub labels : List String
  pub metadata : Option Fields
  pub unset : List String

-- The program `bd` on its store: what `show` prints of a task, if it succeeds, and the store after
-- an update, with whether it succeeded.
pub record TaskStore (S : Type 0) : Type 0 where
  pub show : String → S → Option Fields
  pub update : String → Update → S → S × Bool

unfoldable pub write_args : BoardTask → Request → Update
unfolding labels_to_set next_metadata normalize_labels
write_args task q = record {
  status = some (lifecycle_for q.hub_status);
  labels = normalize_labels (labels_to_set task.labels q.hub_status q.labels_to_remove);
  metadata = some (next_metadata task q);
  unset = List.[];
}

abbrev pub unset_update : List String → Update
unset_update ks = record { status = none; labels = List.[]; metadata = none; unset = ks }

unfoldable pub project_shown : Option Fields → Option BoardTask
unfolding project_task
project_shown none = none
project_shown (some task) = some (project_task task)

abbrev pub verdict : BoardTask → Option Refusal → Result
verdict task none = moved task
verdict task (some r) = refused r

unfoldable pub checked : HubTaskStatus → Option BoardTask → Result
unfolding check_transition
checked s none = refused not_loaded
checked s (some task) = verdict task (check_transition s task)

module _ {S : Type 0} (bd : TaskStore S) (id : String) where
  -- `loadHubTask`
  unfoldable pub load : S → Option BoardTask
  unfolding project_shown
  load s = project_shown (bd.show id s)

  abbrev pub after_unset : HubTaskStatus → S × Bool → S × Result
  after_unset t (s, true) = (s, checked t (load s))
  after_unset t (s, false) = (s, refused command_failed)

  -- the second update, which is left out where no key is removed
  unfoldable pub unset_keys : List String → S → S × Bool
  unfolding unset_args
  unset_keys List.[] s = (s, true)
  unset_keys (List.◌∷◌ k ks) s = bd.update id (unset_update (unset_args (List.◌∷◌ k ks))) s

  unfoldable pub after_write : BoardTask → Request → S × Bool → S × Result
  unfolding next_metadata removed_keys
  after_write task q (s, true) =
      after_unset q.hub_status (unset_keys (removed_keys task.metadata (next_metadata task q)) s)
  after_write task q (s, false) = (s, refused command_failed)

  abbrev pub write_to : Option BoardTask → Request → S → S × Result
  write_to none q s = (s, refused not_loaded)
  write_to (some task) q s = after_write task q (bd.update id (write_args task q) s)

  -- `transitionHubTaskStatus`, `updateHubTaskStatus`
  unfoldable pub transition : Request → S → S × Result
  transition q s = write_to (load s) q s

  -- `closeHubTask`
  unfoldable pub close_request : Fields → Request
  unfolding spread
  close_request metadata = record {
    hub_status = done;
    metadata = spread metadata (field "done" (bool true) end);
    failure_reason = none;
    labels_to_remove = List.[];
    replace_claim = false;
  }

  unfoldable pub close_task : Fields → S → S × Result
  unfolding transition
  close_task metadata s = transition (close_request metadata) s
