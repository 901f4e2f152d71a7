-- ===== src/Orchestrator/Summed.antt =====
-- What a run of iterations returns, `orchestrate` of src/Orchestrator.ts.
use text.Mathlib.TextLemmas.{append-nil, append_assoc}
use mathlib.Core.List
use arch_loop.Prelude.{
  ℕ, zero, suc, ◌+◌, Bool, true, String, none, some, List, ◌++◌, ltb, length, map, is_some, ◌≡◌,
  ◌⊎◌, inl, inr, refl, sym, ap, ◌∙◌, Bool-cases, Option-cases, subst,
}
use arch_loop.Landing.Queue.TicketId.{◌+text◌}
use arch_loop.Orchestrator.{
  Finished, Attempt, finished, startup_aborted, failed, Progress, no_progress, OrchestrateResult,
  Ending, returned, step, proceed, loop, orchestrate, matched_signal, no_iteration, after_finished,
  result_with, add_finished, continuation_prompt, transient_startup_abort, kind_of,
}
use arch_loop.Orchestrator.Attempts.{
  iteration_of, stdout_of, commits_of, later_attempts, attempts_from, attempts_made, first_signal,
}

abbrev result_in : OrchestrateResult → Ending → OrchestrateResult
result_in other (returned r) = r
result_in other _ = other

module _ {W : Type 0} (is_aborted : W → Bool) (attempt : ℕ → String → W → W × Attempt)
    (signals : List String) (iterations : ℕ) where
  abbrev from : ℕ → ℕ → Progress → W → List Attempt
  from = attempts_from is_aborted attempt signals iterations

  -- What is returned sums up the attempts of the loop behind the progress before it.
  pub record IsSummary (p : Progress) (made : List Attempt) (left : ℕ) (r : OrchestrateResult)
      : Type 0 where
    pub iterations_listed : r.iterations ≡ p.iterations ++ map iteration_of made
    pub stdout_joined : r.stdout ≡ p.stdout +text stdout_of made
    pub commits_joined : r.commits ≡ p.commits ++ commits_of made
    pub signal_first : r.completion_signal ≡ first_signal signals made
    pub signal_or_all : (length made ≡ left) ⊎ (is_some r.completion_signal ≡ true)

  module _ (p q : Progress) (made : List Attempt) (left : ℕ) (r : OrchestrateResult) where
    -- A finished attempt without a signal stands before the later ones.
    summary-finished :
        (f : Finished)
        → matched_signal signals f.stdout ≡ none
        → q.iterations ≡ p.iterations ++ List.◌∷◌ f.iteration List.[]
        → q.stdout ≡ p.stdout +text f.stdout
        → q.commits ≡ p.commits ++ f.commits
        → IsSummary q made left r
        → IsSummary p (List.◌∷◌ (finished f) made) (suc left) r
    unfolding first_signal
    summary-finished f n i o c s = record {
      iterations_listed =
          s.iterations_listed
          ∙ rw i (
              mathlib.Core.List.append_assoc p.iterations (List.◌∷◌ f.iteration List.[])
                (map iteration_of made));
      stdout_joined = s.stdout_joined ∙ rw o (append_assoc p.stdout f.stdout (stdout_of made));
      commits_joined =
          s.commits_joined
          ∙ rw c (mathlib.Core.List.append_assoc p.commits f.commits (commits_of made));
      signal_first = rw n (s.signal_first);
      signal_or_all = elim s.signal_or_all [ inl e ↦ inl (ap suc e) | inr e ↦ inr e ];
    }

    summary-aborted :
        q.iterations ≡ p.iterations ++ List.◌∷◌ no_iteration List.[]
        → q.stdout ≡ p.stdout
        → q.commits ≡ p.commits
        → IsSummary q made left r
        → IsSummary p (List.◌∷◌ startup_aborted made) (suc left) r
    unfolding first_signal
    summary-aborted i o c s = record {
      iterations_listed =
          s.iterations_listed
          ∙ rw i (
              mathlib.Core.List.append_assoc p.iterations (List.◌∷◌ no_iteration List.[])
                (map iteration_of made));
      stdout_joined = s.stdout_joined ∙ rw o refl;
      commits_joined = s.commits_joined ∙ rw c refl;
      signal_first = s.signal_first;
      signal_or_all = elim s.signal_or_all [ inl e ↦ inl (ap suc e) | inr e ↦ inr e ];
    }

  returned_same : {r : OrchestrateResult} (s : OrchestrateResult) → returned s ≡ returned r → s ≡ r
  returned_same {r} s e = ap (result_in r) e

  -- One iteration, with what it ended in, before the rest of the loop.
  iteration :
      (left i : ℕ) (p : Progress) (x : W × Attempt) {r : OrchestrateResult}
      → ((q : Progress) (w : W)
          → (loop is_aborted attempt signals iterations left (i + 1) q w).1 ≡ returned r
          → IsSummary q (from left (i + 1) q w) left r)
      → (proceed
          (λ q. loop is_aborted attempt signals iterations left (i + 1) q x.0)
          x.0
          (step signals iterations i x.1 p)).1
        ≡ returned r
      → IsSummary p
          (List.◌∷◌ x.1
            (later_attempts (λ q. from left (i + 1) q x.0) (step signals iterations i x.1 p)))
          (suc left)
          r
  unfolding step after_finished first_signal
  iteration left i p (w, failed error) ih e = cc e
  iteration left i p (w, startup_aborted) {r} ih e = elim (Bool-cases (ltb i iterations)) [
    | inr h ↦ absurd (cc (rw h at e))
    | inl h ↦
        let q = record p {
          iterations = p.iterations ++ List.◌∷◌ no_iteration List.[];
          suffix = continuation_prompt transient_startup_abort i p.last_output;
        } in
        rw h
          (summary-aborted p q (from left (i + 1) q w) left r refl refl refl (ih q w (rw h at e)))
  ]
  iteration left i p (w, finished f) {r} ih e =
      elim (Option-cases (matched_signal signals f.stdout)) [
        | inr (sig, h) ↦ rw h (
            subst (IsSummary p (List.◌∷◌ (finished f) List.[]) (suc left))
              (returned_same (result_with (some sig) (add_finished f p)) (rw h at e))
              (record {
                iterations_listed = refl;
                stdout_joined = rw (append-nil f.stdout) refl;
                commits_joined = rw (mathlib.Core.List.append-nil f.commits) refl;
                signal_first = rw h refl;
                signal_or_all = inr refl;
              }))
        | inl h ↦
            let q = record (add_finished f p) {
              suffix = continuation_prompt (kind_of f.commits) i f.stdout;
              last_output = f.stdout;
            } in
            rw h (
              summary-finished p q (from left (i + 1) q w) left r f h refl refl refl
                (ih q w (rw h at e)))
      ]

  loop-IsSummary :
      (left i : ℕ) (p : Progress) (w : W) {r : OrchestrateResult}
      → (loop is_aborted attempt signals iterations left i p w).1 ≡ returned r
      → IsSummary p (from left i p w) left r
  unfolding loop attempts_from step after_finished first_signal
  loop-IsSummary zero i p w {r} e =
      subst (IsSummary p List.[] zero) (returned_same (result_with none p) e) (record {
        iterations_listed = sym (mathlib.Core.List.append-nil p.iterations);
        stdout_joined = sym (append-nil p.stdout);
        commits_joined = sym (mathlib.Core.List.append-nil p.commits);
        signal_first = refl;
        signal_or_all = inl refl;
      })
  loop-IsSummary (suc left) i p w e = elim (Bool-cases (is_aborted w)) [
    | inl h ↦ cc (rw h at e)
    | inr h ↦ rw h (
        iteration left i p (attempt i p.suffix w) (λ q v c. loop-IsSummary left (i + 1) q v c)
          (rw h at e))
  ]

  -- A run that returns sums up its attempts: it lists their results in order and joins their outputs
  -- and commits, it returns the first completion signal that their outputs have, and without one it
  -- made all the attempts that it was allowed.
  pub orchestrate-IsSummary :
      (w : W) {r : OrchestrateResult}
      → (orchestrate is_aborted attempt signals iterations w).1 ≡ returned r
      → IsSummary no_progress (attempts_made is_aborted attempt signals iterations w) iterations r
  unfolding orchestrate attempts_made
  orchestrate-IsSummary w e = loop-IsSummary iterations 1 no_progress w e
