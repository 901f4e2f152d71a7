-- ===== src/Board/Cleared.antt =====
-- The keys of the metadata that are cleared for a new status, src/taskBoard.ts.
use arch_loop.Prelude.{
  Bool, true, false, String, none, List, Bool-cases, ◌≡◌, inl, inr, refl, ◌∙◌, ap, ◌||◌,
}
use arch_loop.Prelude.Json.{Fields, member, is_literal}
use arch_loop.Recovery.{HubTaskStatus, failed, blocked, needs_info, sync_conflict, wontfix, done}
use arch_loop.Board.{among}
use arch_loop.Board.Metadata.{member-delete_keys}
use arch_loop.Board.Status.{
  blocked_keys, needs_info_keys, conflict_keys, wontfix_keys, done_keys, same_status,
}
use arch_loop.Board.Written.{delete_unless, clear_stale, failure_keys}

-- A key that is not among those deleted is kept.
delete_unless-other :
    (b : Bool) (ks : List String) (x : String) (fs : Fields)
    → among ks x ≡ false
    → member x (delete_unless b ks fs) ≡ member x fs
unfolding delete_unless
delete_unless-other true ks x fs h = refl
delete_unless-other false ks x fs h = rw (member-delete_keys x ks fs, h) refl

delete_unless-none :
    (b : Bool) (ks : List String) (x : String) (fs : Fields)
    → member x fs ≡ none
    → member x (delete_unless b ks fs) ≡ none
unfolding delete_unless
delete_unless-none true ks x fs h = h
delete_unless-none false ks x fs h = elim (Bool-cases (among ks x)) [
  | inl m ↦ rw (member-delete_keys x ks fs, m) refl
  | inr m ↦ rw (member-delete_keys x ks fs, m) h
]

delete_unless-among :
    (b : Bool) (ks : List String) (x : String) (fs : Fields)
    → b ≡ false
    → among ks x ≡ true
    → member x (delete_unless b ks fs) ≡ none
unfolding delete_unless
delete_unless-among b ks x fs h m = rw (h, member-delete_keys x ks fs, m) refl

-- A group of keys that is deleted stays so through the later deletions.
module _ (s : HubTaskStatus) (x : String) (fs : Fields) where
  pub cleared_failure :
      same_status s failed ≡ false
      → among failure_keys x ≡ true
      → member x (clear_stale s fs) ≡ none
  unfolding clear_stale
  cleared_failure h m = delete_unless-none _ done_keys x _ (
      delete_unless-none _ wontfix_keys x _ (
        delete_unless-none _ conflict_keys x _ (
          delete_unless-none _ needs_info_keys x _
            (delete_unless-none _ blocked_keys x _ (delete_unless-among _ failure_keys x fs h m)))))

  pub cleared_blocked :
      same_status s blocked ≡ false
      → among blocked_keys x ≡ true
      → member x (clear_stale s fs) ≡ none
  unfolding clear_stale
  cleared_blocked h m = delete_unless-none _ done_keys x _ (
      delete_unless-none _ wontfix_keys x _ (
        delete_unless-none _ conflict_keys x _
          (delete_unless-none _ needs_info_keys x _ (delete_unless-among _ blocked_keys x _ h m))))

  pub cleared_needs_info :
      same_status s needs_info ≡ false
      → among needs_info_keys x ≡ true
      → member x (clear_stale s fs) ≡ none
  unfolding clear_stale
  cleared_needs_info h m = delete_unless-none _ done_keys x _ (
      delete_unless-none _ wontfix_keys x _
        (delete_unless-none _ conflict_keys x _ (delete_unless-among _ needs_info_keys x _ h m)))

  pub cleared_wontfix :
      same_status s wontfix ≡ false
      → among wontfix_keys x ≡ true
      → member x (clear_stale s fs) ≡ none
  unfolding clear_stale
  cleared_wontfix h m =
      delete_unless-none _ done_keys x _ (delete_unless-among _ wontfix_keys x _ h m)

  pub cleared_done :
      same_status s done ≡ false → among done_keys x ≡ true → member x (clear_stale s fs) ≡ none
  unfolding clear_stale
  cleared_done h m = delete_unless-among _ done_keys x _ h m

  -- A key of no group is kept.
  pub clear_stale-other :
      among failure_keys x ≡ false
      → among blocked_keys x ≡ false
      → among needs_info_keys x ≡ false
      → among conflict_keys x ≡ false
      → among wontfix_keys x ≡ false
      → among done_keys x ≡ false
      → member x (clear_stale s fs) ≡ member x fs
  unfolding clear_stale
  clear_stale-other f b n c w d =
      delete_unless-other _ done_keys x _ d
      ∙ delete_unless-other _ wontfix_keys x _ w
      ∙ delete_unless-other _ conflict_keys x _ c
      ∙ delete_unless-other _ needs_info_keys x _ n
      ∙ delete_unless-other _ blocked_keys x _ b
      ∙ delete_unless-other _ failure_keys x fs f

-- The keys of a conflict are deleted unless the synchronisation tells of one.
pub cleared_conflict :
    (s : HubTaskStatus) (x : String) (fs : Fields)
    → same_status s sync_conflict ≡ false
    → is_literal "conflict" (member "sync_state" fs) ≡ false
    → among conflict_keys x ≡ true
    → member x (clear_stale s fs) ≡ none
unfolding clear_stale
cleared_conflict s x fs h k m = delete_unless-none _ done_keys x _ (
    delete_unless-none _ wontfix_keys x _ (
      delete_unless-among _ conflict_keys x _
        (rw
          (
            h,
            delete_unless-other (same_status s needs_info) needs_info_keys "sync_state" _ refl,
            delete_unless-other (same_status s blocked) blocked_keys "sync_state" _ refl,
            delete_unless-other (same_status s failed) failure_keys "sync_state" fs refl,
          )
          k)
        m))

delete_unless-kept :
    (b : Bool) (ks : List String) (fs : Fields) → b ≡ true → delete_unless b ks fs ≡ fs
unfolding delete_unless
delete_unless-kept b ks fs h = rw h refl

or-true : (a b : Bool) → b ≡ true → a || b ≡ true
or-true true b h = refl
or-true false b h = h

-- Where the synchronisation tells of a conflict, its keys are kept.
pub clear_stale-conflict :
    (s : HubTaskStatus) (x : String) (fs : Fields)
    → is_literal "conflict" (member "sync_state" fs) ≡ true
    → among failure_keys x ≡ false
    → among blocked_keys x ≡ false
    → among needs_info_keys x ≡ false
    → among wontfix_keys x ≡ false
    → among done_keys x ≡ false
    → member x (clear_stale s fs) ≡ member x fs
unfolding clear_stale
clear_stale-conflict s x fs k f b n w d =
    let a' = delete_unless (same_status s failed) failure_keys fs in
    let b' = delete_unless (same_status s blocked) blocked_keys a' in
    let c' = delete_unless (same_status s needs_info) needs_info_keys b' in
    let tells : member "sync_state" c' ≡ member "sync_state" fs =
      delete_unless-other (same_status s needs_info) needs_info_keys "sync_state" b' refl
      ∙ delete_unless-other (same_status s blocked) blocked_keys "sync_state" a' refl
      ∙ delete_unless-other (same_status s failed) failure_keys "sync_state" fs refl in
    delete_unless-other _ done_keys x _ d
    ∙ delete_unless-other _ wontfix_keys x _ w
    ∙ ap (member x) (
        delete_unless-kept _ conflict_keys c'
          (or-true (same_status s sync_conflict) _ (ap (is_literal "conflict") tells ∙ k)))
    ∙ delete_unless-other _ needs_info_keys x _ n
    ∙ delete_unless-other _ blocked_keys x _ b
    ∙ delete_unless-other _ failure_keys x fs f
