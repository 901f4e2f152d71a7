-- ===== src/Board/Sample.antt =====
-- A task store that holds one task, for tests: updates do what `bd` documents.
use arch_loop.Prelude.{
  true, ◌==◌, String, Option, none, some, List, [], ◌∷◌, or_option, Bool-cases, inl, inr, ◌≡◌, refl,
  ap, ◌∙◌, sym, subst, eq_iff,
}
use mathlib.Core.Option.{some_inj}
use arch_loop.Prelude.Json.{Fields, end, field, array, object, member}
use arch_loop.Board.{among}
use arch_loop.Board.Metadata.{delete_keys, spread, member-delete_keys, member-spread}
use arch_loop.Board.Store.{IsTaskStore, IsUpdated, texts, labels_after, foreign_keys, given}
use arch_loop.Board.Transition.{TaskStore, Update}

pub record Stored : Type 0 where
  pub labels : List String
  pub metadata : Fields

abbrev pub shown_of : Stored → Fields
shown_of s = field "labels" (array (texts s.labels)) (field "metadata" (object s.metadata) end)

abbrev labels_or : List String → List String → List String
labels_or [] old = old
labels_or (l ∷ ls) old = l ∷ ls

abbrev fields_or : Option Fields → Fields
fields_or none = end
fields_or (some fs) = fs

unfoldable pub update_stored : Update → Stored → Stored
unfolding delete_keys spread
update_stored u s = record {
  labels = labels_or u.labels s.labels;
  metadata = delete_keys u.unset (spread s.metadata (fields_or u.metadata));
}

abbrev pub one_task : TaskStore Stored
one_task = record { show = λ id s. some (shown_of s); update = λ id u s. (update_stored u s, true) }

-- The keys of the store are not foreign.
fresh_key : (s : Stored) (x : String) → among foreign_keys x ≡ true → member x (shown_of s) ≡ none
fresh_key s x h = elim (Bool-cases ("labels" == x)) [
  | inl e ↦ cc (sym h ∙ ap (among foreign_keys) (sym ((eq_iff "labels" x).0 e)))
  | inr e ↦ elim (Bool-cases ("metadata" == x)) [
    | inl f ↦ cc (sym h ∙ ap (among foreign_keys) (sym ((eq_iff "metadata" x).0 f)))
    | inr f ↦ rw (e, f) refl
  ]
]

updated_labels :
    (new old : List String)
    → some (array (texts (labels_or new old))) ≡ labels_after new (some (array (texts old)))
updated_labels [] old = refl
updated_labels (l ∷ ls) old = refl

merged_or :
    (x : String) (o : Option Fields) (fs : Fields)
    → member x (spread fs (fields_or o)) ≡ or_option (given o x) (member x fs)
merged_or x none fs = member-spread x fs end
merged_or x (some gs) fs = member-spread x fs gs

update_stored-IsUpdated :
    (u : Update) (s : Stored) → IsUpdated u (shown_of s) (shown_of (update_stored u s))
unfolding update_stored
update_stored-IsUpdated u s = record {
  labels = updated_labels u.labels s.labels;
  metadata = λ x.
      rw
        (
          member-delete_keys x u.unset (spread s.metadata (fields_or u.metadata)),
          merged_or x u.metadata s.metadata,
        )
        refl;
}

pub one_task-IsTaskStore : (id : String) → IsTaskStore one_task id
one_task-IsTaskStore id = record {
  own_keys = λ s task e x h. ap (member x) (sym (some_inj.0 e)) ∙ fresh_key s x h;
  updates = λ s task u e. (
    update_stored u s,
    shown_of (update_stored u s),
    refl,
    refl,
    subst (λ t. IsUpdated u t (shown_of (update_stored u s))) (some_inj.0 e)
        (update_stored-IsUpdated u s),
  );
}
