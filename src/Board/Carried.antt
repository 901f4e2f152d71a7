-- ===== src/Board/Carried.antt =====
-- A transition on the task store, `transitionHubTaskStatus` of src/taskBoard.ts.
use arch_loop.Prelude.{
  Bool, true, false, String, none, some, List, [], ◌∷◌, if◌then◌else◌, or_option, ◌≡◌, ◌≢◌, refl,
  sym, ap, ◌∙◌,
}
use arch_loop.Prelude.Json.{Fields, member}
use arch_loop.Recovery.{HubTaskStatus, failed, blocked, needs_info}
use arch_loop.Board.{among}
use arch_loop.Board.Status.{resolve_status, same_status, has_value}
use arch_loop.Board.Projection.{BoardTask, project_task, metadata_of, labels_of, read_claim}
use arch_loop.Board.Labels.{labels_to_set-managed}
use arch_loop.Board.Written.{Request, merged_metadata, next_metadata, labels_to_set, removed_keys}
use arch_loop.Board.Projected.{IsMovable, resolve_status-written, resolve_status-stuck}
use arch_loop.Board.Moved.{HasClaim, checks_pass}
use arch_loop.Board.Store.{
  IsTaskStore, ArePlain, labels_to_set-ArePlain, own-direct_status, own-metadata, labels-set,
  labels_after,
}
use arch_loop.Board.Stored.{final_member}
use arch_loop.Board.Transition.{
  TaskStore, Result, moved, refused, other_status, write_to, status_labels, transition, load,
  write_args, unset_update, unset_keys, unset_args, trimmed_parts, normalize_labels, after_write,
  after_unset, project_shown, checked, verdict, check_transition,
}

check_transition-other :
    (s : HubTaskStatus) (t : BoardTask)
    → t.hub_status ≡ failed
    → same_status failed s ≡ false
    → check_transition s t ≡ some (other_status failed)
unfolding check_transition
check_transition-other s t e h = rw (e, h) refl

labels_to_set-nonempty :
    (labels : List String) (s : HubTaskStatus) (removed : List String)
    → labels_to_set labels s removed ≢ []
labels_to_set-nonempty labels s removed e =
    cc (sym (labels_to_set-managed labels s removed) ∙ ap status_labels e)

-- A transition that moved the task: the task that is read back is the one that the store shows from
-- then on, with the status, labels and metadata that were to be written.
pub record IsMoved {S : Type 0} (bd : TaskStore S) (id : String) (task : BoardTask) (q : Request)
    (r : S × Result) : Type 0 where
  pub after : BoardTask
  pub result : r.1 ≡ moved after
  pub shown : load bd id r.0 ≡ some after
  pub status : after.hub_status ≡ q.hub_status
  pub labels : after.labels ≡ labels_to_set task.labels q.hub_status q.labels_to_remove
  pub metadata : (x : String) → member x after.metadata ≡ member x (next_metadata task q)
  pub claim : after.claim ≡ read_claim after.metadata

-- The store after the second update: the metadata without the keys to unset, and the labels as they
-- were.
record IsUnset {S : Type 0} (bd : TaskStore S) (id : String) (ks : List String) (before : Fields)
    (r : S × Bool) : Type 0 where
  pub after : Fields
  pub succeeded : r.1 ≡ true
  pub shown : bd.show id r.0 ≡ some after
  pub same_labels : member "labels" after ≡ member "labels" before
  pub metadata :
      (x : String)
      → member x (metadata_of after)
        ≡ (if among (unset_args ks) x then none else member x (metadata_of before))

module _ {S : Type 0} (bd : TaskStore S) (id : String) (store : IsTaskStore bd id) where
  unset_keys-IsUnset :
      (ks : List String) (s : S) (before : Fields)
      → bd.show id s ≡ some before
      → IsUnset bd id ks before (unset_keys bd id ks s)
  unfolding unset_keys unset_args trimmed_parts
  unset_keys-IsUnset [] s before e = record {
    after = before;
    succeeded = refl;
    shown = e;
    same_labels = refl;
    metadata = λ x. refl;
  }
  unset_keys-IsUnset (k ∷ ks) s before e =
      let u = unset_update (unset_args (k ∷ ks)) in
      let (s', after, ok, shown, updated) = store.updates s before u e in
      record {
        after = after;
        succeeded = ap (λ r. r.1) ok;
        shown = ap (λ r. bd.show id r.0) ok ∙ shown;
        same_labels = updated.labels;
        metadata = λ x.
            rw
              (
                own-metadata after (store.own_keys s' after shown),
                own-metadata before (store.own_keys s before e),
              )
              (updated.metadata x);
      }

  after_unset_lem :
      (t : HubTaskStatus) (r : S × Bool)
      → r.1 ≡ true
      → after_unset bd id t r ≡ (r.0, checked t (load bd id r.0))
  after_unset_lem t (s, true) h = refl
  after_unset_lem t (s, false) h = cc h

  after_write_lem :
      (task : BoardTask) (q : Request) (r : S × Bool)
      → r.1 ≡ true
      → after_write bd id task q r
        ≡ after_unset bd id q.hub_status
            (unset_keys bd id (removed_keys task.metadata (next_metadata task q)) r.0)
  unfolding after_write
  after_write_lem task q (s, true) h = refl
  after_write_lem task q (s, false) h = cc h

  module _ (q : Request) (s : S) (shown : Fields) (e : bd.show id s ≡ some shown)
      (plain : ArePlain (project_task shown).labels) where
    abbrev task : BoardTask
    task = project_task shown

    abbrev removed : List String
    removed = removed_keys task.metadata (next_metadata task q)

    -- The task after the first update.
    record IsWritten (r : S × Bool) : Type 0 where
      after : Fields
      succeeded : r.1 ≡ true
      shown_after : bd.show id r.0 ≡ some after
      labels_set :
          member "labels" after
          ≡ labels_after
              (normalize_labels (labels_to_set task.labels q.hub_status q.labels_to_remove))
              (member "labels" shown)
      merged :
          (x : String)
          → member x (metadata_of after)
            ≡ or_option (member x (next_metadata task q)) (member x task.metadata)

    written : IsWritten (bd.update id (write_args task q) s)
    unfolding write_args project_task
    written =
        let (s', after, ok, shown', updated) = store.updates s shown (write_args task q) e in
        record {
          after = after;
          succeeded = ap (λ r. r.1) ok;
          shown_after = ap (λ r. bd.show id r.0) ok ∙ shown';
          labels_set = updated.labels;
          merged = λ x. rw (own-metadata after (store.own_keys s' after shown')) (
              updated.metadata x
              ∙ ap (λ fs. or_option (member x (next_metadata task q)) (member x fs))
                  (sym (own-metadata shown (store.own_keys s shown e))));
        }

    abbrev first_write : S × Bool
    first_write = bd.update id (write_args task q) s

    unset : IsUnset bd id removed written.after (unset_keys bd id removed first_write.0)
    unset = unset_keys-IsUnset removed first_write.0 written.after written.shown_after

    abbrev read_back : BoardTask
    read_back = project_task unset.after

    back_metadata : (x : String) → member x read_back.metadata ≡ member x (next_metadata task q)
    unfolding project_task
    back_metadata x =
        unset.metadata x
        ∙ ap (λ o. if among (unset_args removed) x then none else o) (written.merged x)
        ∙ final_member task q x

    back_labels : read_back.labels ≡ labels_to_set task.labels q.hub_status q.labels_to_remove
    unfolding project_task
    back_labels =
        labels-set unset.after
          (store.own_keys (unset_keys bd id removed first_write.0).0 unset.after unset.shown)
          (labels_to_set task.labels q.hub_status q.labels_to_remove) (member "labels" shown)
          (labels_to_set-ArePlain task.labels q.labels_to_remove q.hub_status plain)
          (labels_to_set-nonempty task.labels q.hub_status q.labels_to_remove)
          (unset.same_labels ∙ written.labels_set)

    back_claim : read_back.claim ≡ read_claim read_back.metadata
    unfolding project_task
    back_claim = refl

    loaded : load bd id s ≡ some task
    unfolding load project_shown
    loaded = ap project_shown e

    reloaded : load bd id (unset_keys bd id removed first_write.0).0 ≡ some read_back
    unfolding load project_shown
    reloaded = ap project_shown unset.shown

    abbrev final : S
    final = (unset_keys bd id removed first_write.0).0

    -- The checks on the task that is read back decide.
    carried :
        transition bd id q s ≡ (final, verdict read_back (check_transition q.hub_status read_back))
    unfolding transition checked
    carried =
        ap (λ o. write_to bd id o q s) loaded
        ∙ after_write_lem task q first_write written.succeeded
        ∙ after_unset_lem q.hub_status (unset_keys bd id removed first_write.0) unset.succeeded
        ∙ ap (λ o. (final, checked q.hub_status o)) reloaded

    -- The key `failedReason` makes a task count as failed and no transition clears it: where the
    -- metadata has a value under it, every request but for the statuses failed, blocked and
    -- needs_info is refused, after the writes.
    pub transition-stuck :
        has_value (member "failedReason" (merged_metadata task q)) ≡ true
        → same_status failed q.hub_status ≡ false
        → same_status q.hub_status blocked ≡ false
        → same_status q.hub_status needs_info ≡ false
        → (transition bd id q s).1 ≡ refused (other_status failed)
    unfolding project_task
    transition-stuck h f b n =
        let stuck : read_back.hub_status ≡ failed =
          resolve_status-stuck task q (metadata_of unset.after) back_metadata unset.after
            (labels_of unset.after)
            (own-direct_status unset.after
              (store.own_keys (unset_keys bd id removed first_write.0).0 unset.after unset.shown))
            h b n in
        ap (λ r. r.1) carried
        ∙ ap (verdict read_back) (check_transition-other q.hub_status read_back stuck f)

    module _ (movable : IsMovable task q) (claims : HasClaim task q) where
      back_status : read_back.hub_status ≡ q.hub_status
      unfolding project_task
      back_status =
          ap (λ ls. resolve_status unset.after ls (metadata_of unset.after)) back_labels
          ∙ resolve_status-written task q movable (metadata_of unset.after) back_metadata
              unset.after task.labels q.labels_to_remove
              (own-direct_status unset.after
                (store.own_keys (unset_keys bd id removed first_write.0).0 unset.after unset.shown))

      back_checked : check_transition q.hub_status read_back ≡ none
      unfolding project_task
      back_checked =
          checks_pass task q claims (metadata_of unset.after) back_metadata read_back
            movable.has_reason back_status back_labels refl (λ x. refl)

      moves : transition bd id q s ≡ (final, moved read_back)
      moves = carried ∙ ap (λ o. (final, verdict read_back o)) back_checked

      -- Where the task store does what it documents and shows the task, and its labels are plain: a
      -- request that the metadata does not stand against and that has a claim, if its status requires
      -- one, moves the task. The task that is read back has the status that was asked for, the
      -- labels of the user with the one label of the status, and the metadata of the request merged
      -- into the old one, cleared for the status.
      pub transition-IsMoved : IsMoved bd id task q (transition bd id q s)
      transition-IsMoved = record {
        after = read_back;
        result = ap (λ r. r.1) moves;
        shown = ap (λ r. load bd id r.0) moves ∙ reloaded;
        status = back_status;
        labels = back_labels;
        metadata = back_metadata;
        claim = back_claim;
      }
