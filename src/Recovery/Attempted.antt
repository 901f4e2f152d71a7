-- ===== src/Recovery/Attempted.antt =====
-- What the recovery at the start of a run attempts and reports, src/hubRunAutoRecover.ts.
use arch_loop.Lease.Store.{LeaseRecord}
use arch_loop.Prelude.{
  ℕ, suc, ◌+◌, String, some, List, [], ◌∷◌, ◌++◌, length, map, if◌then◌else◌, ◌≡◌, refl, sym, ap,
  ◌∙◌, arith, Bool-cases, inl, inr, length-map,
}
use mathlib.Core.List.{append-nil, append_assoc}
use arch_loop.Recovery.{Task}
use arch_loop.Recovery.Detector.{Interrupted, detect}
use arch_loop.Recovery.Startup.{
  is_unchanged, Attempt, returned, threw, Entry, entry, Failure, failure, record_attempt,
  recover_each, auto_recover,
}

-- Each task with what its recovery gave.
abbrev pub Attempts : Type 0
Attempts = List (Interrupted × Attempt)

abbrev pub recovered : Attempts → List Entry
recovered [] = []
recovered ((i, returned r) ∷ rest) =
    let later = recovered rest in if is_unchanged r.outcome then later else entry i r ∷ later
recovered ((i, threw message) ∷ rest) = recovered rest

abbrev pub failed_ones : Attempts → List Failure
failed_ones [] = []
failed_ones ((i, returned r) ∷ rest) = failed_ones rest
failed_ones ((i, threw message) ∷ rest) = failure i message ∷ failed_ones rest

-- The recoveries that changed nothing.
abbrev pub unchanged_count : Attempts → ℕ
unchanged_count [] = 0
unchanged_count ((i, returned r) ∷ rest) =
    let later = unchanged_count rest in if is_unchanged r.outcome then suc later else later
unchanged_count ((i, threw message) ∷ rest) = unchanged_count rest

record_attempt-recovered :
    (i : Interrupted) (a : Attempt) (es : List Entry) (fs : List Failure) (rest : Attempts)
    → (record_attempt i a (es, fs)).0 ++ recovered rest ≡ es ++ recovered ((i, a) ∷ rest)
unfolding record_attempt
record_attempt-recovered i (threw message) es fs rest = refl
record_attempt-recovered i (returned r) es fs rest = elim (Bool-cases (is_unchanged r.outcome)) [
  | inl same ↦ rw same refl
  | inr other ↦ rw other (append_assoc es (entry i r ∷ []) (recovered rest))
]

record_attempt-failed_ones :
    (i : Interrupted) (a : Attempt) (es : List Entry) (fs : List Failure) (rest : Attempts)
    → (record_attempt i a (es, fs)).1 ++ failed_ones rest ≡ fs ++ failed_ones ((i, a) ∷ rest)
unfolding record_attempt
record_attempt-failed_ones i (returned r) es fs rest = refl
record_attempt-failed_ones i (threw message) es fs rest =
    append_assoc fs (failure i message ∷ []) (failed_ones rest)

module _ {W : Type 0} (recover_task : String → W → W × Attempt) where
  -- The recovery of each task in turn, in the world that the one before it left.
  abbrev pub attempts : List Interrupted → W → W × Attempts
  attempts [] w = (w, [])
  attempts (i ∷ is) w =
      let (next, attempt) = recover_task i.task_id w in
      let (after, rest) = attempts is next in (after, (i, attempt) ∷ rest)

  recover_each-attempts :
      (is : List Interrupted) (w : W) (es : List Entry) (fs : List Failure)
      → recover_each recover_task is w (es, fs) ≡ (
        (attempts is w).0,
        (es ++ recovered (attempts is w).1, fs ++ failed_ones (attempts is w).1),
      )
  unfolding recover_each
  recover_each-attempts [] w es fs = rw (append-nil es, append-nil fs) refl
  recover_each-attempts (i ∷ is) w es fs =
      let (next, attempt) = recover_task i.task_id w in
      let (after, rest) = attempts is next in
      let lists = record_attempt i attempt (es, fs) in
      recover_each-attempts is next lists.0 lists.1 ∙ λ k. (
        after,
        (
          record_attempt-recovered i attempt es fs rest k,
          record_attempt-failed_ones i attempt es fs rest k,
        ),
      )

  attempts-tasks : (is : List Interrupted) (w : W) → map (λ x. x.0) (attempts is w).1 ≡ is
  attempts-tasks [] w = refl
  attempts-tasks (i ∷ is) w = ap (◌∷◌ i) (attempts-tasks is (recover_task i.task_id w).0)

counts_lem :
    (xs : Attempts)
    → length (recovered xs) + length (failed_ones xs) + unchanged_count xs ≡ length xs
counts_lem [] = refl
counts_lem ((i, returned r) ∷ xs) = ground (arith, counts_lem xs)
counts_lem ((i, threw message) ∷ xs) = ground (arith, counts_lem xs)

module _ {W : Type 0} (recover_task : String → W → W × Attempt) where
  -- Every interrupted task of the board is attempted once and in order, whatever fails; the summary
  -- lists the attempts that changed something and those that failed, and with the attempts that
  -- changed nothing its two counts make up the number of interrupted tasks.
  pub auto_recover_lem :
      (tasks : List Task) (leases : List LeaseRecord) (w : W)
      → let found = detect tasks leases in
        let tried = (attempts recover_task found w).1 in
        let (after, summary) = auto_recover recover_task (some tasks) leases w in
        (map (λ x. x.0) tried ≡ found)
        × (after ≡ (attempts recover_task found w).0)
        × (summary.recoveries ≡ recovered tried)
        × (summary.failures ≡ failed_ones tried)
        × (summary.recovered_count + summary.failed_count + unchanged_count tried ≡ length found)
  unfolding auto_recover
  auto_recover_lem tasks leases w =
      let found = detect tasks leases in
      let tried = (attempts recover_task found w).1 in
      let run = recover_each-attempts recover_task found w [] [] in
      (
        attempts-tasks recover_task found w,
        ap (λ r. r.0) run,
        ap (λ r. r.1.0) run,
        ap (λ r. r.1.1) run,
        rw run (
            counts_lem tried
            ∙ sym (length-map (λ x. x.0) tried)
            ∙ ap length (attempts-tasks recover_task found w)),
      )
