-- ===== src/Orchestrator/Tests.antt =====
-- A run of iterations at concrete inputs.
use arch_loop.Prelude.{
  ℕ, suc, ◌+◌, ◌≤◌, Bool, false, String, none, some, List, [], ◌∷◌, ◌≡◌, ◌⊎◌, refl, if◌then◌else◌,
  same_number,
}
use arch_loop.Orchestrator.{
  Attempt, finished, startup_aborted, no_progress, OrchestrateResult, returned, orchestrate, loop,
  step, after_finished, matched_signal, includes, begins_with, no_iteration,
}
use arch_loop.Orchestrator.Attempts.{attempts_made}
use arch_loop.Orchestrator.Bounded.{orchestrate-bounded, is_startup_abort}
use arch_loop.Orchestrator.Summed.{IsSummary, orchestrate-IsSummary}

abbrev output : String → List String → Attempt
output s commits = finished (record {
  stdout = s;
  commits = commits;
  branch = "main";
  iteration = no_iteration;
  preserved_worktree_path = none;
})

-- An agent whose startup is aborted once, which then works and then signals that it is done.
abbrev agent : ℕ → String → ℕ → ℕ × Attempt
agent i suffix w = (
  suc w,
  if same_number i 1
      then startup_aborted
      else if same_number i 2
      then output "work " ("c1" ∷ [])
      else output "DONE" ("c2" ∷ []),
)

abbrev never : ℕ → Bool
never w = false

abbrev result : OrchestrateResult
result = record {
  iterations = no_iteration ∷ no_iteration ∷ no_iteration ∷ [];
  completion_signal = some "DONE";
  stdout = "work DONE";
  commits = "c1" ∷ "c2" ∷ [];
  branch = "main";
  preserved_worktree_path = none;
}

orchestrate_test : (orchestrate never agent ("DONE" ∷ []) 5 0).1 ≡ returned result
unfolding orchestrate loop step after_finished matched_signal includes begins_with
orchestrate_test = refl

orchestrate-IsSummary_example :
    IsSummary never agent
      ("DONE" ∷ [])
      5
      no_progress
      (attempts_made never agent ("DONE" ∷ []) 5 0)
      5
      result
orchestrate-IsSummary_example = orchestrate-IsSummary never agent ("DONE" ∷ []) 5 0 orchestrate_test

orchestrate-bounded_example :
    let (after, e) = orchestrate never agent ("DONE" ∷ []) 5 0 in
    (after ≤ 0 + 5) × ((is_startup_abort e ≡ false) ⊎ (after ≡ 0 + 5))
orchestrate-bounded_example =
    orchestrate-bounded never agent ("DONE" ∷ []) 5 (λ w. w) (λ i suffix w. refl) 0
