-- ===== src/Lease/Race.antt =====
-- Several processes that acquire the lease of one branch, src/WorktreeLease.ts, by their steps on
-- the file system: each step is atomic, and a schedule says whose turn it is. Whether the worktree is
-- there does not change while the schedule runs. A lease file is the process id that stands in it:
-- making the file and writing it are one step.
use arch_loop.Prelude.{
  ℕ, ◌≡◌, ◌≢◌, refl, sym, ◌∙◌, Option, none, some, List, [], ◌∷◌, Bool, true, false, if◌then◌else◌,
  same_number, All, Bool-cases, inl, inr, subst, same_number_sound, same_number_complete,
  same_number_refl, same_number_ne,
}
use mathlib.Core.Option.{some_inj}

-- Where a process is in `acquireWorktreeLease`; the flag says that it is the second attempt.
pub data Progress : Type 0 where
  starting checking reading removing creating : Bool → Progress
  holding refused released : Progress

pub record System : Type 0 where
  pub lease : Option ℕ
  pub progress : ℕ → Progress

module _ (has_worktree : Bool) (is_alive : ℕ → Bool) where
  -- the next step of process `p`: the lease that it leaves, and where it is then
  unfoldable pub advance : ℕ → Progress → Option ℕ → Option ℕ × Progress
  advance p (starting again) none = (none, creating again)
  advance p (starting again) (some o) = (some o, checking again)
  advance p (checking again) lease = (lease, if has_worktree then reading again else removing again)
  advance p (reading again) none = (none, refused)
  advance p (reading again) (some o) = (some o, if is_alive o then refused else removing again)
  advance p (removing again) lease = (none, creating again)
  advance p (creating again) none = (some p, holding)
  advance p (creating again) (some o) = (some o, if again then refused else starting true)
  advance p holding lease = (none, released)
  advance p refused lease = (lease, refused)
  advance p released lease = (lease, released)

  unfoldable pub step : ℕ → System → System
  unfolding advance
  step p s =
      let (lease, now) = advance p (s.progress p) s.lease in
      record { lease = lease; progress = λ q. if same_number q p then now else s.progress q }

  unfoldable pub run : List ℕ → System → System
  unfolding step
  run [] s = s
  run (p ∷ ps) s = run ps (step p s)

abbrev pub start : Option ℕ → System
start lease = record { lease = lease; progress = λ p. starting false }

-- While nobody removes: a lease belongs to a live process, and who holds it is named in it.
record Inv (is_alive : ℕ → Bool) (s : System) : Type 0 where
  owner_alive : (o : ℕ) → s.lease ≡ some o → is_alive o ≡ true
  none_removing : (p : ℕ) (again : Bool) → s.progress p ≢ removing again
  holder_named : (p : ℕ) → s.progress p ≡ holding → s.lease ≡ some p

module _ (is_alive : ℕ → Bool) where
  start-Inv :
      (lease : Option ℕ)
      → ((o : ℕ) → lease ≡ some o → is_alive o ≡ true)
      → Inv is_alive (start lease)
  start-Inv lease live = record {
    owner_alive = live;
    none_removing = λ p again e. cc;
    holder_named = λ p e. cc;
  }

  -- What one step of a live process does to the lease and to where the process is.
  record Kept (p : ℕ) (lease after : Option ℕ) (now : Progress) : Type 0 where
    still_alive : (o : ℕ) → after ≡ some o → is_alive o ≡ true
    no_removal : (again : Bool) → now ≢ removing again
    named : now ≡ holding → after ≡ some p
    others_kept : (q : ℕ) → q ≢ p → lease ≡ some q → after ≡ some q

  unchanged :
      (p : ℕ) (lease : Option ℕ) (now : Progress)
      → ((o : ℕ) → lease ≡ some o → is_alive o ≡ true)
      → ((again : Bool) → now ≢ removing again)
      → now ≢ holding
      → Kept p lease lease now
  unchanged p lease now alive safe h = record {
    still_alive = alive;
    no_removal = safe;
    named = λ e. absurd (h e);
    others_kept = λ q n e. e;
  }

  advance_lem :
      (p : ℕ) (now : Progress) (lease : Option ℕ)
      → is_alive p ≡ true
      → ((o : ℕ) → lease ≡ some o → is_alive o ≡ true)
      → ((again : Bool) → now ≢ removing again)
      → (now ≡ holding → lease ≡ some p)
      → let r = advance true is_alive p now lease in Kept p lease r.0 r.1
  unfolding advance
  advance_lem p (starting again) none live alive safe h =
      unchanged p none (creating again) alive (λ b e. cc) (λ e. cc)
  advance_lem p (starting again) (some o) live alive safe h =
      unchanged p (some o) (checking again) alive (λ b e. cc) (λ e. cc)
  advance_lem p (checking again) lease live alive safe h =
      unchanged p lease (reading again) alive (λ b e. cc) (λ e. cc)
  advance_lem p (reading again) none live alive safe h =
      unchanged p none refused alive (λ b e. cc) (λ e. cc)
  advance_lem p (reading again) (some o) live alive safe h =
      rw (alive o refl) (unchanged p (some o) refused alive (λ b e. cc) (λ e. cc))
  advance_lem p (removing again) lease live alive safe h = absurd (safe again refl)
  advance_lem p (creating again) none live alive safe h = record {
    still_alive = λ o e. subst (λ x. is_alive x ≡ true) (some_inj.0 e) live;
    no_removal = λ b e. cc;
    named = λ e. refl;
    others_kept = λ q n e. cc;
  }
  advance_lem p (creating false) (some o) live alive safe h =
      unchanged p (some o) (starting true) alive (λ b e. cc) (λ e. cc)
  advance_lem p (creating true) (some o) live alive safe h =
      unchanged p (some o) refused alive (λ b e. cc) (λ e. cc)
  advance_lem p holding lease live alive safe h = record {
    still_alive = λ o e. cc;
    no_removal = λ b e. cc;
    named = λ e. cc;
    others_kept = λ q n e. absurd (n (some_inj.0 (sym e ∙ h refl)));
  }
  advance_lem p refused lease live alive safe h =
      unchanged p lease refused alive (λ b e. cc) (λ e. cc)
  advance_lem p released lease live alive safe h =
      unchanged p lease released alive (λ b e. cc) (λ e. cc)

  step-Inv :
      (p : ℕ) (s : System)
      → is_alive p ≡ true
      → Inv is_alive s
      → Inv is_alive (step true is_alive p s)
  unfolding step
  step-Inv p s live i = record {
    owner_alive = kept.still_alive;
    none_removing = λ q again e. elim (Bool-cases (same_number q p)) [
      | inl y ↦ kept.no_removal again (unmoved q y e)
      | inr y ↦ i.none_removing q again (unmoved q y e)
    ];
    holder_named = λ q e. elim (Bool-cases (same_number q p)) [
      | inl y ↦
          subst (λ x. (step true is_alive p s).lease ≡ some x) (sym (same_number_sound q p y))
            (kept.named (unmoved q y e))
      | inr y ↦ kept.others_kept q (same_number_complete q p y) (i.holder_named q (unmoved q y e))
    ];
  }
    where
      moved : ℕ → Option ℕ × Progress
      moved q = advance true is_alive p (s.progress p) s.lease

      kept : Kept p s.lease (moved p).0 (moved p).1
      kept =
          advance_lem p (s.progress p) s.lease live i.owner_alive (i.none_removing p)
            (i.holder_named p)

      unmoved :
          (q : ℕ) {b : Bool} {v : Progress}
          → same_number q p ≡ b
          → (if same_number q p then (moved p).1 else s.progress q) ≡ v
          → (if b then (moved p).1 else s.progress q) ≡ v
      unmoved q {v = v} y e = subst (λ c. (if c then (moved p).1 else s.progress q) ≡ v) y e

  run-Inv :
      (ps : List ℕ) (s : System)
      → All (λ p. is_alive p ≡ true) ps
      → Inv is_alive s
      → Inv is_alive (run true is_alive ps s)
  unfolding run
  run-Inv [] s live i = i
  run-Inv (p ∷ ps) s (a, live) i = run-Inv ps (step true is_alive p s) live (step-Inv p s a i)

  -- Where the worktree of the branch is there and the lease is not that of a dead process, at most one
  -- process holds the lease at a time, after every schedule of live processes that start to acquire it.
  pub run_exclusive :
      (ps : List ℕ) (lease : Option ℕ) (p q : ℕ)
      → All (λ r. is_alive r ≡ true) ps
      → ((o : ℕ) → lease ≡ some o → is_alive o ≡ true)
      → (run true is_alive ps (start lease)).progress p ≡ holding
      → q ≢ p
      → (run true is_alive ps (start lease)).progress q ≢ holding
  run_exclusive ps lease p q live alive hp n hq =
      let i = run-Inv ps (start lease) live (start-Inv lease alive) in
      n (some_inj.0 (sym (i.holder_named q hq) ∙ i.holder_named p hp))

  -- Where a dead process left a lease and the worktree is there, two processes that find the lease at
  -- the same time can both hold it: the second one removes the lease that the first one has just made.
  pub run_race :
      (a b o : ℕ)
      → a ≢ b
      → is_alive o ≡ false
      → let s = run true is_alive (a ∷ a ∷ a ∷ b ∷ b ∷ b ∷ a ∷ a ∷ b ∷ b ∷ []) (start (some o)) in
        (s.progress a ≡ holding) × ((s.progress b ≡ holding) × (s.lease ≡ some b))
  unfolding run step advance
  run_race a b o n dead =
      rw
        (
          same_number_refl a,
          same_number_refl b,
          same_number_ne a b n,
          same_number_ne b a (λ e. n (sym e)),
          dead,
        )
        (refl, (refl, refl))

  -- Where the worktree is missing, a process that starts to acquire the lease after another one holds
  -- it removes that lease, whether the other process lives or not, and then both hold it.
  pub run-missing_worktree :
      (a b : ℕ)
      → a ≢ b
      → let held = run false is_alive (a ∷ a ∷ []) (start none) in
        let s = run false is_alive (b ∷ b ∷ b ∷ b ∷ []) held in
        (held.progress a ≡ holding)
        × (held.lease ≡ some a)
        × (s.progress a ≡ holding)
        × (s.progress b ≡ holding)
        × (s.lease ≡ some b)
  unfolding run step advance
  run-missing_worktree a b n =
      rw
        (
          same_number_refl a,
          same_number_refl b,
          same_number_ne a b n,
          same_number_ne b a (λ e. n (sym e)),
        )
        (refl, refl, refl, refl, refl)
