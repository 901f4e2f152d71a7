-- ===== src/Orchestrator/Attempts.antt =====
-- The attempts that a run of iterations makes, `orchestrate` of src/Orchestrator.ts.
use Prim.Native.String.{[]}
use arch_loop.Prelude.{
  ℕ, zero, suc, ◌+◌, Bool, String, Option, none, List, ◌++◌, if◌then◌else◌, or_option, ◌≡◌, ◌⊎◌,
  inl, inr, refl,
}
use arch_loop.Landing.Queue.TicketId.{◌+text◌}
use arch_loop.Orchestrator.{
  IterationResult, Attempt, finished, Progress, no_progress, Ending, Step, ended, continued, step,
  matched_signal, no_iteration,
}

abbrev pub iteration_of : Attempt → IterationResult
iteration_of (finished f) = f.iteration
iteration_of _ = no_iteration

abbrev pub stdout_of : List Attempt → String
stdout_of List.[] = []
stdout_of (List.◌∷◌ (finished f) rest) = f.stdout +text stdout_of rest
stdout_of (List.◌∷◌ _ rest) = stdout_of rest

abbrev pub commits_of : List Attempt → List String
commits_of List.[] = List.[]
commits_of (List.◌∷◌ (finished f) rest) = f.commits ++ commits_of rest
commits_of (List.◌∷◌ _ rest) = commits_of rest

pub Step-cases : (s : Step) → ((e : Ending) × (s ≡ ended e)) ⊎ ((q : Progress) × (s ≡ continued q))
Step-cases (ended e) = inl (e, refl)
Step-cases (continued q) = inr (q, refl)

abbrev pub later_attempts : (Progress → List Attempt) → Step → List Attempt
later_attempts rest (ended e) = List.[]
later_attempts rest (continued q) = rest q

-- The first completion signal in the output of the attempts.
unfoldable pub first_signal : List String → List Attempt → Option String
unfolding matched_signal
first_signal signals List.[] = none
first_signal signals (List.◌∷◌ (finished f) rest) =
    or_option (matched_signal signals f.stdout) (first_signal signals rest)
first_signal signals (List.◌∷◌ _ rest) = first_signal signals rest

module _ {W : Type 0} (is_aborted : W → Bool) (attempt : ℕ → String → W → W × Attempt)
    (signals : List String) (iterations : ℕ) where
  -- The attempts that the loop makes.
  unfoldable pub attempts_from : ℕ → ℕ → Progress → W → List Attempt
  unfolding step
  attempts_from zero i p w = List.[]
  attempts_from (suc left) i p w =
      let (next, a) = attempt i p.suffix w in
      if is_aborted w
      then List.[]
      else List.◌∷◌ a
          (later_attempts (λ q. attempts_from left (i + 1) q next) (step signals iterations i a p))

  unfoldable pub attempts_made : W → List Attempt
  unfolding attempts_from
  attempts_made w = attempts_from iterations 1 no_progress w
