-- ===== src/Orchestrator/Bounded.antt =====
-- How many attempts a run of iterations makes, `orchestrate` of src/Orchestrator.ts.
use arch_loop.Prelude.{
  ℕ, zero, suc, ◌+◌, ◌≤◌, Bool, true, false, String, List, ltb, length, ◌≡◌, ◌⊎◌, inl, inr, refl,
  ap, ◌∙◌, arith, Bool-cases, Option-cases,
}
use arch_loop.Orchestrator.{
  Attempt, finished, startup_aborted, failed, Progress, no_progress, Ending, threw_startup_abort,
  step, proceed, loop, orchestrate, matched_signal, after_finished,
}
use arch_loop.Orchestrator.Attempts.{Step-cases, later_attempts, attempts_from}

-- The ending of a run without enough iterations for a retry.
abbrev pub is_startup_abort : Ending → Bool
is_startup_abort threw_startup_abort = true
is_startup_abort _ = false

ltb-false : (a b : ℕ) → ltb a b ≡ false → b ≤ a
ltb-false a b h = ground arith

module _ {W : Type 0} (is_aborted : W → Bool) (attempt : ℕ → String → W → W × Attempt)
    (signals : List String) (iterations : ℕ) where
  abbrev from : ℕ → ℕ → Progress → W → List Attempt
  from = attempts_from is_aborted attempt signals iterations

  length-attempts_from-le : (left i : ℕ) (p : Progress) (w : W) → length (from left i p w) ≤ left
  unfolding attempts_from
  length-attempts_from-le zero i p w = omega arith
  length-attempts_from-le (suc left) i p w = elim (Bool-cases (is_aborted w)) [
    | inl h ↦ rw h (omega arith)
    | inr h ↦ elim (Step-cases (step signals iterations i (attempt i p.suffix w).1 p)) [
      | inl (e, c) ↦ rw (h, c) (omega arith)
      | inr (q, c) ↦
          rw (h, c) (omega (arith, length-attempts_from-le left (i + 1) q (attempt i p.suffix w).0))
    ]
  ]

  iteration-startup_abort :
      (left i : ℕ) (p : Progress) (x : W × Attempt)
      → i + suc left ≡ suc iterations
      → ((q : Progress) (w : W)
          → (loop is_aborted attempt signals iterations left (i + 1) q w).1 ≡ threw_startup_abort
          → length (from left (i + 1) q w) ≡ left)
      → (proceed
          (λ q. loop is_aborted attempt signals iterations left (i + 1) q x.0)
          x.0
          (step signals iterations i x.1 p)).1
        ≡ threw_startup_abort
      → suc
          (length (later_attempts (λ q. from left (i + 1) q x.0) (step signals iterations i x.1 p)))
        ≡ suc left
  unfolding step after_finished
  iteration-startup_abort left i p (w, failed error) n ih e = cc
  iteration-startup_abort left i p (w, startup_aborted) n ih e =
      elim (Bool-cases (ltb i iterations)) [
        | inl h ↦ rw h (ap suc (ih _ w (rw h at e)))
        | inr h ↦ rw h (omega (arith, n, ltb-false i iterations h))
      ]
  iteration-startup_abort left i p (w, finished f) n ih e =
      elim (Option-cases (matched_signal signals f.stdout)) [
        | inl h ↦ rw h (ap suc (ih _ w (rw h at e)))
        | inr (sig, h) ↦ cc
      ]

  -- The last iteration of a run whose startup is aborted.
  loop-startup_abort :
      (left i : ℕ) (p : Progress) (w : W)
      → i + left ≡ suc iterations
      → (loop is_aborted attempt signals iterations left i p w).1 ≡ threw_startup_abort
      → length (from left i p w) ≡ left
  unfolding loop attempts_from
  loop-startup_abort zero i p w n e = refl
  loop-startup_abort (suc left) i p w n e = elim (Bool-cases (is_aborted w)) [
    | inl h ↦ cc (rw h at e)
    | inr h ↦ rw h (
        iteration-startup_abort left i p (attempt i p.suffix w) n
          (λ q v c. loop-startup_abort left (i + 1) q v (omega (arith, n)) c) (rw h at e))
  ]

  startup_abort_sound : (e : Ending) → is_startup_abort e ≡ true → e ≡ threw_startup_abort
  startup_abort_sound threw_startup_abort h = refl
  startup_abort_sound _ h = cc

  module _ (attempts_in : W → ℕ)
      (counts : (i : ℕ) (suffix : String) (w : W)
        → attempts_in (attempt i suffix w).0 ≡ suc (attempts_in w)) where
    -- The loop leaves the world behind the attempts that are listed.
    loop-attempts_in :
        (left i : ℕ) (p : Progress) (w : W)
        → attempts_in (loop is_aborted attempt signals iterations left i p w).0
          ≡ attempts_in w + length (from left i p w)
    unfolding loop attempts_from
    loop-attempts_in zero i p w = omega arith
    loop-attempts_in (suc left) i p w =
        let made = counts i p.suffix w in
        elim (Bool-cases (is_aborted w)) [
          | inl h ↦ rw h (omega arith)
          | inr h ↦ elim (Step-cases (step signals iterations i (attempt i p.suffix w).1 p)) [
            | inl (e, c) ↦ rw (h, c) (omega (arith, made))
            | inr (q, c) ↦
                rw (h, c)
                  (omega (arith, made, loop-attempts_in left (i + 1) q (attempt i p.suffix w).0))
          ]
        ]

    -- Where the world counts its attempts: a run makes at most as many attempts as it has iterations,
    -- however each of them ends, and it fails with an aborted startup only after all of them.
    pub orchestrate-bounded :
        (w : W)
        → let (after, e) = orchestrate is_aborted attempt signals iterations w in
          (attempts_in after ≤ attempts_in w + iterations)
          × ((is_startup_abort e ≡ false) ⊎ (attempts_in after ≡ attempts_in w + iterations))
    unfolding orchestrate
    orchestrate-bounded w =
        let e = (loop is_aborted attempt signals iterations iterations 1 no_progress w).1 in
        let made = loop-attempts_in iterations 1 no_progress w in
        (
          omega (arith, made, length-attempts_from-le iterations 1 no_progress w),
          elim (Bool-cases (is_startup_abort e)) [
            | inr h ↦ inl h
            | inl h ↦ inr (
                made
                ∙ ap (λ n. attempts_in w + n)
                    (loop-startup_abort iterations 1 no_progress w (omega arith)
                      (startup_abort_sound e h)))
          ],
        )
