-- ===== src/Board/Lookup.antt =====
-- What stands under a key of the metadata that a transition writes, src/taskBoard.ts.
use arch_loop.Prelude.{
  true, false, ◌==◌, String, Option, none, some, List, if◌then◌else◌, Bool-cases, Option-cases, ◌≡◌,
  inl, inr, refl, sym, ap, ◌∙◌, eq_iff, is_some,
}
use arch_loop.Prelude.Json.{Fields, text, bool, member, is_literal, object}
use arch_loop.Recovery.{failed, blocked, needs_info, sync_conflict, wontfix, done}
use arch_loop.Board.{among}
use arch_loop.Board.Metadata.{delete_key, set_key, member-delete_key, member-set_key}
use arch_loop.Board.Cleared.{
  cleared_failure, cleared_blocked, cleared_needs_info, cleared_wontfix, cleared_done,
  cleared_conflict, clear_stale-other, clear_stale-conflict,
}
use arch_loop.Board.Status.{
  blocked_keys, needs_info_keys, conflict_keys, wontfix_keys, done_keys, same_status,
}
use arch_loop.Board.Projection.{BoardTask}
use arch_loop.Board.Written.{
  Request, clear_stale, put_claim, put_failure, next_metadata, merged_metadata, resolve_claim,
  failure_keys,
}

module _ (x : String) (c : Option Fields) (r : Option String) (fs : Fields) where
  put_failure_other :
      ("failed" == x) ≡ false
      → ("failureReason" == x) ≡ false
      → member x (put_failure r fs) ≡ member x fs
  unfolding put_failure
  put_failure_other h k = elim (Option-cases r) [
    | inl e ↦
        rw
          (
            e,
            member-delete_key x "failed" (delete_key "failureReason" fs),
            h,
            member-delete_key x "failureReason" fs,
            k,
          )
          refl
    | inr (t, e) ↦
        rw
          (
            e,
            member-set_key x "failed" (bool true) (set_key "failureReason" (text t) fs),
            h,
            member-set_key x "failureReason" (text t) fs,
            k,
          )
          refl
  ]

  put_claim_other : ("claim" == x) ≡ false → member x (put_claim c fs) ≡ member x fs
  unfolding put_claim
  put_claim_other h = elim (Option-cases c) [
    | inl e ↦ rw (e, member-delete_key x "claim" fs, h) refl
    | inr (t, e) ↦ rw (e, member-set_key x "claim" (object t) fs, h) refl
  ]

put_failure_flag :
    (r : Option String) (fs : Fields)
    → member "failed" (put_failure r fs) ≡ (if is_some r then some (bool true) else none)
unfolding put_failure
put_failure_flag none fs = member-delete_key "failed" "failed" (delete_key "failureReason" fs)
put_failure_flag (some t) fs =
    member-set_key "failed" "failed" (bool true) (set_key "failureReason" (text t) fs)

put_failure_reason :
    (r : Option String) (fs : Fields)
    → member "failureReason" (put_failure r fs)
      ≡ elim r [ none ↦ none | some reason ↦ some (text reason) ]
unfolding put_failure
put_failure_reason none fs =
    member-delete_key "failureReason" "failed" (delete_key "failureReason" fs)
    ∙ member-delete_key "failureReason" "failureReason" fs
put_failure_reason (some t) fs =
    member-set_key "failureReason" "failed" (bool true) (set_key "failureReason" (text t) fs)
    ∙ member-set_key "failureReason" "failureReason" (text t) fs

put_claim_lem :
    (c : Option Fields) (fs : Fields)
    → member "claim" (put_claim c fs) ≡ elim c [ none ↦ none | some raw ↦ some (object raw) ]
unfolding put_claim
put_claim_lem none fs = member-delete_key "claim" "claim" fs
put_claim_lem (some raw) fs = member-set_key "claim" "claim" (object raw) fs

-- A key of a list that another key is not in is another one.
apart :
    (ks : List String) (x k : String) → among ks x ≡ true → among ks k ≡ false → (k == x) ≡ false
apart ks x k m h = elim (Bool-cases (k == x)) [
  | inl a ↦ cc (sym m ∙ ap (among ks) (sym ((eq_iff k x).0 a)) ∙ h)
  | inr a ↦ a
]

module _ (task : BoardTask) (q : Request) (x : String) where
  abbrev cleared : Fields
  cleared = clear_stale q.hub_status (merged_metadata task q)

  -- The claim and the failure have keys of their own.
  pub next_other :
      ("failed" == x) ≡ false
      → ("failureReason" == x) ≡ false
      → ("claim" == x) ≡ false
      → member x (next_metadata task q) ≡ member x cleared
  unfolding next_metadata
  next_other f r c =
      put_failure_other x none q.failure_reason (put_claim (resolve_claim task q) cleared) f r
      ∙ put_claim_other x (resolve_claim task q) none cleared c

  -- A group of keys without those of the claim and the failure is cleared from what is written.
  next_cleared :
      (ks : List String)
      → among ks "failed" ≡ false
      → among ks "failureReason" ≡ false
      → among ks "claim" ≡ false
      → among ks x ≡ true
      → member x cleared ≡ none
      → member x (next_metadata task q) ≡ none
  next_cleared ks f r c m e =
      next_other (apart ks x "failed" m f) (apart ks x "failureReason" m r) (apart ks x "claim" m c)
      ∙ e

  pub next-blocked :
      same_status q.hub_status blocked ≡ false
      → among blocked_keys x ≡ true
      → member x (next_metadata task q) ≡ none
  next-blocked h m =
      next_cleared blocked_keys refl refl refl m
        (cleared_blocked q.hub_status x (merged_metadata task q) h m)

  pub next-needs_info :
      same_status q.hub_status needs_info ≡ false
      → among needs_info_keys x ≡ true
      → member x (next_metadata task q) ≡ none
  next-needs_info h m =
      next_cleared needs_info_keys refl refl refl m
        (cleared_needs_info q.hub_status x (merged_metadata task q) h m)

  pub next-wontfix :
      same_status q.hub_status wontfix ≡ false
      → among wontfix_keys x ≡ true
      → member x (next_metadata task q) ≡ none
  next-wontfix h m =
      next_cleared wontfix_keys refl refl refl m
        (cleared_wontfix q.hub_status x (merged_metadata task q) h m)

  pub next-done :
      same_status q.hub_status done ≡ false
      → among done_keys x ≡ true
      → member x (next_metadata task q) ≡ none
  next-done h m =
      next_cleared done_keys refl refl refl m
        (cleared_done q.hub_status x (merged_metadata task q) h m)

  pub next-conflict :
      same_status q.hub_status sync_conflict ≡ false
      → is_literal "conflict" (member "sync_state" (merged_metadata task q)) ≡ false
      → among conflict_keys x ≡ true
      → member x (next_metadata task q) ≡ none
  next-conflict h k m =
      next_cleared conflict_keys refl refl refl m
        (cleared_conflict q.hub_status x (merged_metadata task q) h k m)

module _ (task : BoardTask) (q : Request) where
  -- The failure, by the reason that is handed in.
  pub next-failed_flag :
      member "failed" (next_metadata task q)
      ≡ (if is_some q.failure_reason then some (bool true) else none)
  unfolding next_metadata
  next-failed_flag = put_failure_flag q.failure_reason _

  pub next-failure_reason :
      member "failureReason" (next_metadata task q)
      ≡ elim q.failure_reason [ none ↦ none | some reason ↦ some (text reason) ]
  unfolding next_metadata
  next-failure_reason = put_failure_reason q.failure_reason _

  pub next-failure_snake :
      same_status q.hub_status failed ≡ false
      → member "failure_reason" (next_metadata task q) ≡ none
  next-failure_snake h =
      next_other task q "failure_reason" refl refl refl
      ∙ cleared_failure q.hub_status "failure_reason" (merged_metadata task q) h refl

  pub next-claim :
      member "claim" (next_metadata task q)
      ≡ elim (resolve_claim task q) [ none ↦ none | some c ↦ some (object c) ]
  unfolding next_metadata
  next-claim =
      put_failure_other "claim" none q.failure_reason
        (put_claim (resolve_claim task q) (clear_stale q.hub_status (merged_metadata task q))) refl
        refl
      ∙ put_claim_lem (resolve_claim task q) _

  -- A key that no group has is written as it was merged.
  pub next-merged :
      (x : String)
      → ("failed" == x) ≡ false
      → ("failureReason" == x) ≡ false
      → ("claim" == x) ≡ false
      → among failure_keys x ≡ false
      → among blocked_keys x ≡ false
      → among needs_info_keys x ≡ false
      → among conflict_keys x ≡ false
      → among wontfix_keys x ≡ false
      → among done_keys x ≡ false
      → member x (next_metadata task q) ≡ member x (merged_metadata task q)
  next-merged x f r c a b n k w d =
      next_other task q x f r c
      ∙ clear_stale-other q.hub_status x (merged_metadata task q) a b n k w d

  -- Where the synchronisation tells of a conflict, its keys are written as they were merged.
  pub next-told :
      (x : String)
      → ("failed" == x) ≡ false
      → ("failureReason" == x) ≡ false
      → ("claim" == x) ≡ false
      → is_literal "conflict" (member "sync_state" (merged_metadata task q)) ≡ true
      → among failure_keys x ≡ false
      → among blocked_keys x ≡ false
      → among needs_info_keys x ≡ false
      → among wontfix_keys x ≡ false
      → among done_keys x ≡ false
      → member x (next_metadata task q) ≡ member x (merged_metadata task q)
  next-told x f r c k a b n w d =
      next_other task q x f r c
      ∙ clear_stale-conflict q.hub_status x (merged_metadata task q) k a b n w d
