-- ===== src/Lifecycle/Conflict.antt =====
-- A conflict of the synchronisation, `recordHubTaskSyncConflict` of src/hubTaskLifecycle.ts.
use arch_loop.Prelude.{
  String, none, some, true, false, ◌≡◌, ◌≢◌, ◌⊎◌, inl, inr, refl, ap, ◌∙◌, or_option, if◌then◌else◌,
}
use arch_loop.Prelude.Json.{Fields, text, field, end, member, is_literal}
use arch_loop.Recovery.{HubTaskStatus, done, wontfix, sync_conflict, failed, is_completed}
use arch_loop.Board.{status_text}
use arch_loop.Board.Metadata.{spread, delete_keys, member-spread}
use arch_loop.Board.Status.{has_value, status_of_value, same_status}
use arch_loop.Board.Projection.{BoardTask, project_task}
use arch_loop.Board.Written.{merged_metadata, clear_owned, next_metadata}
use arch_loop.Board.Lookup.{next-told}
use arch_loop.Board.Projected.{IsMovable}
use arch_loop.Board.Settled.{bears_conflict}
use arch_loop.Board.Moved.{HasClaim}
use arch_loop.Board.Store.{IsTaskStore, ArePlain}
use arch_loop.Board.Carried.{IsMoved, transition-IsMoved}
use arch_loop.Board.Transition.{TaskStore, Result, moved, load, project_shown}
use arch_loop.Lifecycle.{conflict_request, record_sync_conflict}

module _ (task : BoardTask) (reason : String) where
  conflict_old :
      member "failedReason" (merged_metadata task (conflict_request task reason))
      ≡ member "failedReason" task.metadata
  unfolding merged_metadata conflict_request clear_owned delete_keys
  conflict_old =
      let patch =
        field "sync_state" (text "conflict") (field "sync_conflict_reason" (text reason) end) in
      member-spread "failedReason" (spread task.metadata (clear_owned patch))
        (field "hubStatus" (text (status_text (conflict_request task reason).hub_status)) end)
      ∙ member-spread "failedReason" task.metadata (clear_owned patch)

conflict_status :
    (s : HubTaskStatus)
    → let t = if is_completed s then s else sync_conflict in
      (bears_conflict t ≡ true) × (false ≡ same_status t failed)
conflict_status done = (refl, refl)
conflict_status wontfix = (refl, refl)
conflict_status _ = (refl, refl)

conflict-IsMovable :
    (task : BoardTask) (reason : String)
    → status_of_value (member "hub_status" task.metadata) ≡ none
    → has_value (member "failedReason" task.metadata) ≡ false
    → IsMovable task (conflict_request task reason)
unfolding conflict_request
conflict-IsMovable task reason h f = record {
  no_other_status = h;
  no_old_failure = ap has_value (conflict_old task reason) ∙ f;
  no_conflict = rw ((conflict_status task.hub_status).0) refl;
  has_reason = (conflict_status task.hub_status).1;
}

record_sync_conflict-IsMoved :
    {S : Type 0} (bd : TaskStore S) (id : String) (store : IsTaskStore bd id) (reason : String)
    (s : S) (shown : Fields)
    → let task = project_task shown in
      bd.show id s ≡ some shown
      → ArePlain task.labels
      → status_of_value (member "hub_status" task.metadata) ≡ none
      → has_value (member "failedReason" task.metadata) ≡ false
      → HasClaim task (conflict_request task reason)
      → IsMoved bd id task (conflict_request task reason) (record_sync_conflict bd id reason s)
unfolding record_sync_conflict load project_shown
record_sync_conflict-IsMoved bd id store reason s shown e plain h f claims = rw e (
    transition-IsMoved bd id store (conflict_request (project_task shown) reason) s shown e plain
      (conflict-IsMovable (project_task shown) reason h f) claims)

module _ (task : BoardTask) (reason : String) where
  abbrev patch : Fields
  patch = field "sync_state" (text "conflict") (field "sync_conflict_reason" (text reason) end)

  merged_told :
      (x : String)
      → member x (merged_metadata task (conflict_request task reason))
        ≡ or_option
            (member x (
              field "hubStatus" (text (status_text (conflict_request task reason).hub_status)) end))
            (or_option (member x patch) (member x task.metadata))
  unfolding merged_metadata conflict_request clear_owned delete_keys
  merged_told x =
      member-spread x (spread task.metadata patch)
        (field "hubStatus" (text (status_text (conflict_request task reason).hub_status)) end)
      ∙ ap (or_option _) (member-spread x task.metadata patch)

  next_state :
      member "sync_state" (next_metadata task (conflict_request task reason))
      ≡ some (text "conflict")
  next_state =
      next-told task (conflict_request task reason) "sync_state" refl refl refl
        (ap (is_literal "conflict") (merged_told "sync_state")) refl refl refl refl refl
      ∙ merged_told "sync_state"

  next_reason :
      member "sync_conflict_reason" (next_metadata task (conflict_request task reason))
      ≡ some (text reason)
  next_reason =
      next-told task (conflict_request task reason) "sync_conflict_reason" refl refl refl
        (ap (is_literal "conflict") (merged_told "sync_state")) refl refl refl refl refl
      ∙ merged_told "sync_conflict_reason"

-- A conflict that was recorded: the task that is read back is the one that the store shows, it is
-- still done or rejected if it was and else in conflict, and it tells the conflict and its reason.
pub record IsConflict {S : Type 0} (bd : TaskStore S) (id : String) (task : BoardTask)
    (reason : String) (r : S × Result) : Type 0 where
  pub after : BoardTask
  pub result : r.1 ≡ moved after
  pub shown : load bd id r.0 ≡ some after
  pub stays :
      (task.hub_status ≡ done) ⊎ (task.hub_status ≡ wontfix) → after.hub_status ≡ task.hub_status
  pub conflicts :
      task.hub_status ≢ done → task.hub_status ≢ wontfix → after.hub_status ≡ sync_conflict
  pub state : member "sync_state" after.metadata ≡ some (text "conflict")
  pub tells : member "sync_conflict_reason" after.metadata ≡ some (text reason)

status_completed :
    (task : BoardTask) (reason : String)
    → (task.hub_status ≡ done) ⊎ (task.hub_status ≡ wontfix)
    → (conflict_request task reason).hub_status ≡ task.hub_status
unfolding conflict_request
status_completed task reason (inl e) = rw e refl
status_completed task reason (inr e) = rw e refl

sync_status :
    (s : HubTaskStatus)
    → s ≢ done
    → s ≢ wontfix
    → (if is_completed s then s else sync_conflict) ≡ sync_conflict
sync_status done n m = absurd (n refl)
sync_status wontfix n m = absurd (m refl)
sync_status _ n m = refl

moved-IsConflict :
    {S : Type 0} (bd : TaskStore S) (id : String) (task : BoardTask) (reason : String)
    {r : S × Result}
    → IsMoved bd id task (conflict_request task reason) r
    → IsConflict bd id task reason r
unfolding conflict_request
moved-IsConflict bd id task reason m = record {
  after = m.after;
  result = m.result;
  shown = m.shown;
  stays = λ c. m.status ∙ status_completed task reason c;
  conflicts = λ n k. m.status ∙ sync_status task.hub_status n k;
  state = m.metadata "sync_state" ∙ next_state task reason;
  tells = m.metadata "sync_conflict_reason" ∙ next_reason task reason;
}

-- Where the task store does what it documents, and the task has plain labels, no status under the
-- first key for one, no failure under the key that nothing clears and no claim in the way:
-- recording a conflict moves the task, which stays done or rejected if it was and else is in
-- conflict, and the store then shows the conflict and its reason in the metadata.
pub record_sync_conflict-IsConflict :
    {S : Type 0} (bd : TaskStore S) (id : String) (store : IsTaskStore bd id) (reason : String)
    (s : S) (shown : Fields)
    → let task = project_task shown in
      bd.show id s ≡ some shown
      → ArePlain task.labels
      → status_of_value (member "hub_status" task.metadata) ≡ none
      → has_value (member "failedReason" task.metadata) ≡ false
      → HasClaim task (conflict_request task reason)
      → IsConflict bd id task reason (record_sync_conflict bd id reason s)
record_sync_conflict-IsConflict bd id store reason s shown e plain h f claims =
    moved-IsConflict bd id (project_task shown) reason
      (record_sync_conflict-IsMoved bd id store reason s shown e plain h f claims)
