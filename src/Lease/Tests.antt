-- ===== src/Lease/Tests.antt =====
-- Worktree leases at concrete inputs.
use arch_loop.Prelude.{ℕ, ◌≡◌, ◌≢◌, refl, none, some, [], ◌∷◌, Bool, true, false, ltb, arith}
use arch_loop.Lease.Metadata.{
  LeaseMetadata, direct, hub, json, serialize, IsWritable, parse-serialize,
}
use arch_loop.Lease.{Disk, active_lease, ok, err, acquire, release}
use arch_loop.Lease.Exclusive.{abandoned, acquire_exclusive}
use arch_loop.Lease.Race.{run, holding, start, run_exclusive, run_race, run-missing_worktree}

-- The processes below 10 are gone.
abbrev lives : ℕ → Bool
lives n = ltb 9 n

abbrev old : LeaseMetadata
old = record { owner = hub "t1" "f1" "b1"; pid = 7; branch = "archloop/t1"; acquired_at = "Monday" }

abbrev new : LeaseMetadata
new = record { owner = direct; pid = 12; branch = "archloop/t1"; acquired_at = "Tuesday" }

abbrev later : LeaseMetadata
later = record { owner = direct; pid = 13; branch = "archloop/t1"; acquired_at = "Friday" }

old-IsWritable : IsWritable old
old-IsWritable = record {
  has_pid = omega arith;
  has_branch = tt;
  has_time = tt;
  has_owner = (tt, tt, tt);
}

new-IsWritable : IsWritable new
new-IsWritable = record { has_pid = omega arith; has_branch = tt; has_time = tt; has_owner = tt }

abbrev left_behind : Disk
left_behind = record { lease_file = some (json (serialize old)); worktree_exists = true }

abbrev leased : Disk
leased = record { lease_file = some (json (serialize new)); worktree_exists = true }

acquire_exclusive_example :
    let held = (acquire lives "archloop/t1" new left_behind).0 in
    (acquire lives "archloop/t1" later held ≡ (held, err (active_lease new)))
    × ((acquire lives "archloop/t1" later (release lives "archloop/t1" held).0).1 ≡ ok later)
acquire_exclusive_example =
    acquire_exclusive lives "archloop/t1" new later left_behind
      (abandoned (json (serialize old)) old refl (parse-serialize old old-IsWritable) refl) refl
      new-IsWritable refl refl

run_exclusive_example : (run true lives (12 ∷ 13 ∷ 12 ∷ 13 ∷ []) (start none)).progress 13 ≢ holding
run_exclusive_example =
    run_exclusive lives (12 ∷ 13 ∷ 12 ∷ 13 ∷ []) none 12 13 (refl, (refl, (refl, (refl, tt))))
      (λ o e. cc) (unfold run in refl) (λ e. omega arith)

run_race_example :
    let s =
      run true lives (12 ∷ 12 ∷ 12 ∷ 13 ∷ 13 ∷ 13 ∷ 12 ∷ 12 ∷ 13 ∷ 13 ∷ []) (start (some 7)) in
    (s.progress 12 ≡ holding) × ((s.progress 13 ≡ holding) × (s.lease ≡ some 13))
run_race_example = run_race lives 12 13 7 (λ e. omega arith) refl

run-missing_worktree_example :
    let held = run false lives (12 ∷ 12 ∷ []) (start none) in
    let s = run false lives (13 ∷ 13 ∷ 13 ∷ 13 ∷ []) held in
    (held.progress 12 ≡ holding)
    × (held.lease ≡ some 12)
    × (s.progress 12 ≡ holding)
    × (s.progress 13 ≡ holding)
    × (s.lease ≡ some 13)
run-missing_worktree_example = run-missing_worktree lives 12 13 (λ e. omega arith)
