-- ===== src/Board/Settled.antt =====
-- The status that a reason, a label and the metadata of a task settle on, src/taskBoard.ts.
use arch_loop.Prelude.{
  Bool, true, false, not, ◌&&◌, ◌||◌, ◌==◌, String, Option, none, some, List, [], ◌∷◌,
  if◌then◌else◌, ◌≡◌, ◌⊎◌, inl, inr, refl, eq_refl,
}
use arch_loop.Prelude.Json.{Fields, text, member}
use arch_loop.Recovery.{
  HubTaskStatus, inbox, needs_info, blocked, done, wontfix, failed, sync_conflict, is_completed,
}
use arch_loop.Board.{among, status_text, normalize_key}
use arch_loop.Board.Labels.{IsHarmless}
use arch_loop.Board.Status.{
  same_status, has_truthy_metadata, status_of_value, by_reason, completed_or, is_authoritative,
}

-- A conflict of the synchronisation does not change the status of a completed task.
abbrev pub bears_conflict : HubTaskStatus → Bool
bears_conflict s = is_completed s || same_status s sync_conflict

or_true : (b : Bool) {c : Bool} → c ≡ true → b || c ≡ true
or_true true h = refl
or_true false h = h

pub or_false_right : (b c : Bool) → b || c ≡ false → c ≡ false
or_false_right true c h = cc h
or_false_right false c h = h

pub unnegate : (b : Bool) → not b ≡ true → b ≡ false
unnegate true h = cc h
unnegate false h = refl

pub or_true_right : (b : Bool) → b || true ≡ true
or_true_right true = refl
or_true_right false = refl

pub completed_failed : (o : Option HubTaskStatus) → completed_or failed o ≡ failed
completed_failed none = refl
completed_failed (some s) = refl

if_same : {A : Type 0} (b : Bool) (x : A) → (if b then x else x) ≡ x
if_same true x = refl
if_same false x = refl

-- Keys without a value give no reason.
pub no_truthy :
    (ks : List String) (fs : Fields)
    → ((x : String) → among ks x ≡ true → member x fs ≡ none)
    → has_truthy_metadata fs ks ≡ false
no_truthy [] fs h = refl
no_truthy (k ∷ ks) fs h =
    rw (h k (rw (eq_refl k) refl)) (no_truthy ks fs (λ x m. h x (or_true (k == x) m)))

-- The reason that is left is the new status, or none, or the conflict of a completed task.
abbrev pub Fits : HubTaskStatus → Option HubTaskStatus → Type 0
Fits s o = (o ≡ none) ⊎ ((o ≡ some s) ⊎ ((o ≡ some sync_conflict) × (is_completed s ≡ true)))

pub fits :
    (s : HubTaskStatus) (b i f c w d : Bool)
    → (same_status s blocked ≡ false → b ≡ false)
    → (same_status s needs_info ≡ false → i ≡ false)
    → f ≡ same_status s failed
    → (bears_conflict s ≡ false → c ≡ false)
    → (same_status s wontfix ≡ false → w ≡ false)
    → (same_status s done ≡ false → d ≡ false)
    → Fits s (
        if b
        then some blocked
        else if i
        then some needs_info
        else if f
        then some failed
        else if c
        then some sync_conflict
        else if w
        then some wontfix
        else if d
        then some done
        else none)
fits blocked true i f c w d hb hi hf hc hw hd = inr (inl refl)
fits blocked false i f c w d hb hi hf hc hw hd =
    rw (hi refl, hf, hc refl, hw refl, hd refl) (inl refl)
fits needs_info b true f c w d hb hi hf hc hw hd = rw (hb refl) (inr (inl refl))
fits needs_info b false f c w d hb hi hf hc hw hd =
    rw (hb refl, hf, hc refl, hw refl, hd refl) (inl refl)
fits sync_conflict b i f true w d hb hi hf hc hw hd = rw (hb refl, hi refl, hf) (inr (inl refl))
fits sync_conflict b i f false w d hb hi hf hc hw hd =
    rw (hb refl, hi refl, hf, hw refl, hd refl) (inl refl)
fits wontfix b i f true w d hb hi hf hc hw hd = rw (hb refl, hi refl, hf) (inr (inr (refl, refl)))
fits wontfix b i f false true d hb hi hf hc hw hd = rw (hb refl, hi refl, hf) (inr (inl refl))
fits wontfix b i f false false d hb hi hf hc hw hd = rw (hb refl, hi refl, hf, hd refl) (inl refl)
fits done b i f true w d hb hi hf hc hw hd = rw (hb refl, hi refl, hf) (inr (inr (refl, refl)))
fits done b i f false w true hb hi hf hc hw hd = rw (hb refl, hi refl, hf, hw refl) (inr (inl refl))
fits done b i f false w false hb hi hf hc hw hd = rw (hb refl, hi refl, hf, hw refl) (inl refl)
fits failed b i f c w d hb hi hf hc hw hd = rw (hb refl, hi refl, hf) (inr (inl refl))
fits _ b i f c w d hb hi hf hc hw hd =
    rw (hb refl, hi refl, hf, hc refl, hw refl, hd refl) (inl refl)

pub settled :
    (s : HubTaskStatus) (reason label : Option HubTaskStatus) (lifecycle : Option String)
    → Fits s reason
    → IsHarmless s label
    → by_reason reason label (some s) lifecycle ≡ s
settled s reason label lifecycle (inr (inl e)) h =
    rw e (if_same (same_status s sync_conflict && is_completed s) s)
settled s reason label lifecycle (inr (inr (e, c))) h = rw (e, c) refl
settled s reason label lifecycle (inl e) (inl k) = rw (e, k) refl
settled s reason label lifecycle (inl e) (inr (inl k)) = rw (e, k) refl
settled s reason label lifecycle (inl e) (inr (inr k)) =
    rw (e, k) (if_same (is_authoritative s && not (same_status s s)) s)

pub status_named_text : (s : HubTaskStatus) → status_of_value (some (text (status_text s))) ≡ some s
unfolding status_of_value normalize_key
status_named_text inbox = refl
status_named_text _ = refl
