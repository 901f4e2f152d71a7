-- ===== src/Board/Store.antt =====
-- What a transition relies on of the program `bd`, and the labels that it reads back.
use arch_loop.Prelude.{
  true, ◌++◌, String, Option, none, some, List, if◌then◌else◌, or_option, ◌≡◌, inl, inr, refl, sym,
  ap, ◌∙◌, ◌≢◌, subst, In, keep_sound, In-append, not, ◌&&◌,
}
use arch_loop.Prelude.Json.{Json, Items, null, nil, cons, Fields, text, array, member}
use arch_loop.Recovery.{HubTaskStatus, inbox}
use arch_loop.Board.{among, trimmed, status_label}
use arch_loop.Board.Status.{task_status_keys, direct_status, status_of_text}
use arch_loop.Board.Projection.{
  BoardTask, object_fields, string_list, item_texts, metadata_of, labels_of, value_or,
}
use arch_loop.Board.Written.{Request, labels_to_set, user_labels, is_managed}
use arch_loop.Board.Labels.{unique_strings-In, labels_to_set-managed}
use arch_loop.Board.Transition.{
  TaskStore, Update, trimmed_parts, split_commas, normalize_labels, status_labels, write_args,
}

-- The keys that the board would read beside those of `bd`.
abbrev pub foreign_keys : List String
foreign_keys =
    task_status_keys
    ++ List.◌∷◌ "meta" (
        List.◌∷◌ "custom_metadata"
          (List.◌∷◌ "customMetadata" (List.◌∷◌ "tags" (List.◌∷◌ "labelNames" List.[]))))

abbrev pub texts : List String → Items
texts List.[] = nil
texts (List.◌∷◌ s ss) = cons (text s) (texts ss)

abbrev pub labels_after : List String → Option Json → Option Json
labels_after List.[] o = o
labels_after (List.◌∷◌ l ls) o = some (array (texts (List.◌∷◌ l ls)))

abbrev pub given : Option Fields → String → Option Json
given none x = none
given (some fs) x = member x fs

-- The task that is shown after an update: the labels that were set, if any were, and the metadata
-- merged key by key, without the keys to unset.
pub record IsUpdated (u : Update) (before after : Fields) : Type 0 where
  pub labels : member "labels" after ≡ labels_after u.labels (member "labels" before)
  pub metadata :
      (x : String)
      → member x (object_fields (member "metadata" after)) ≡ (
          if among u.unset x
          then none
          else or_option (given u.metadata x) (member x (object_fields (member "metadata" before))))

-- The documented behaviour of `bd` for one task: it shows tasks with its own keys only, and an
-- update of a task that it shows succeeds and does what its arguments say.
pub record IsTaskStore {S : Type 0} (bd : TaskStore S) (id : String) : Type 0 where
  pub own_keys :
      (s : S) (task : Fields)
      → bd.show id s ≡ some task
      → (x : String) → among foreign_keys x ≡ true
      → member x task ≡ none
  pub updates :
      (s : S) (task : Fields) (u : Update)
      → bd.show id s ≡ some task
      → (s' : S) × (task' : Fields) × (bd.update id u s ≡ (s', true))
        × (bd.show id s' ≡ some task')
        × IsUpdated u task task'

-- A label that the arguments of `bd` and the board keep as it is: no comma in it and no blanks
-- around it.
pub record IsPlain (l : String) : Type 0 where
  pub one_part : trimmed_parts (split_commas l) ≡ List.◌∷◌ l List.[]
  pub is_trimmed : trimmed (some (text l)) ≡ some l

status_label-IsPlain : (s : HubTaskStatus) → IsPlain (status_label s)
unfolding trimmed_parts split_commas trimmed
status_label-IsPlain inbox = record { one_part = refl; is_trimmed = refl }
status_label-IsPlain _ = record { one_part = refl; is_trimmed = refl }

abbrev pub ArePlain : List String → Type 0
ArePlain ls = (l : String) → In l ls → IsPlain l

pub labels_to_set-ArePlain :
    (labels removed : List String) (s : HubTaskStatus)
    → ArePlain labels
    → ArePlain (labels_to_set labels s removed)
unfolding labels_to_set
labels_to_set-ArePlain labels removed s h l m =
    let users = user_labels labels removed in
    let one = List.◌∷◌ (status_label s) List.[] in
    elim (In-append users one l (unique_strings-In (users ++ one) l m)) [
      | inl n ↦ h l (keep_sound (λ x. not (is_managed x) && not (among removed x)) labels n).0
      | inr (inl e) ↦ subst IsPlain (sym e) (status_label-IsPlain s)
      | inr (inr n) ↦ elim n [ ]
    ]

normalize_labels-plain : (ls : List String) → ArePlain ls → normalize_labels ls ≡ ls
unfolding normalize_labels
normalize_labels-plain List.[] h = refl
normalize_labels-plain (List.◌∷◌ l ls) h =
    rw ((h l (inl refl)).one_part, normalize_labels-plain ls (λ x m. h x (inr m))) refl

-- Where the labels of a task are plain, without commas and surrounding space: whatever is removed, the
-- labels that the update of a transition sets have one status label, the label of the new status.
pub write_args-managed :
    (task : BoardTask) (q : Request)
    → ArePlain task.labels
    → status_labels (write_args task q).labels ≡ List.◌∷◌ (status_label q.hub_status) List.[]
unfolding write_args
write_args-managed task q plain =
    let set = labels_to_set task.labels q.hub_status q.labels_to_remove in
    ap status_labels (
      normalize_labels-plain set
        (labels_to_set-ArePlain task.labels q.labels_to_remove q.hub_status plain))
    ∙ labels_to_set-managed task.labels q.hub_status q.labels_to_remove

item_texts-plain : (ls : List String) → ArePlain ls → item_texts (texts ls) ≡ ls
item_texts-plain List.[] h = refl
item_texts-plain (List.◌∷◌ l ls) h =
    rw ((h l (inl refl)).is_trimmed, item_texts-plain ls (λ x m. h x (inr m))) refl

fields_or_none : (o : Option Json) → object_fields (value_or o none) ≡ object_fields o
fields_or_none none = refl
fields_or_none (some null) = refl
fields_or_none (some _) = refl

list_or_none : (o : Option Json) → string_list (value_or o none) ≡ string_list o
list_or_none none = refl
list_or_none (some null) = refl
list_or_none (some _) = refl

-- A task with the keys of `bd` only is read by those.
module _ (task : Fields)
    (own : (x : String) → among foreign_keys x ≡ true → member x task ≡ none) where
  pub own-direct_status : direct_status task ≡ none
  unfolding direct_status status_of_text trimmed
  own-direct_status =
      rw
        (
          own "hub_status" refl,
          own "hubStatus" refl,
          own "task_status" refl,
          own "taskStatus" refl,
          own "hub_state" refl,
          own "hubState" refl,
          own "triage_status" refl,
          own "triageStatus" refl,
          own "task_board_status" refl,
          own "taskBoardStatus" refl,
        )
        refl

  pub own-metadata : metadata_of task ≡ object_fields (member "metadata" task)
  own-metadata =
      rw (own "meta" refl, own "custom_metadata" refl, own "customMetadata" refl)
        (fields_or_none (member "metadata" task))

  pub own-labels : labels_of task ≡ string_list (member "labels" task)
  own-labels = rw (own "tags" refl, own "labelNames" refl) (list_or_none (member "labels" task))

  -- The labels that an update sets are read back.
  pub labels-set :
      (ls : List String) (o : Option Json)
      → ArePlain ls
      → ls ≢ List.[]
      → member "labels" task ≡ labels_after (normalize_labels ls) o
      → labels_of task ≡ ls
  labels-set List.[] o h n e = absurd (n refl)
  labels-set (List.◌∷◌ l ls) o h n e =
      own-labels
      ∙ rw (e, normalize_labels-plain (List.◌∷◌ l ls) h) (item_texts-plain (List.◌∷◌ l ls) h)
