-- ===== src/Orchestrator.antt =====
-- The iterations of a run, `orchestrate` of src/Orchestrator.ts. What an iteration does in its sandbox
-- is a parameter: it takes the suffix of the prompt and ends with the agent's output, with the abort
-- of the provider's startup, or with another error. Status lines and the usage of tokens are left out.
pub mod Attempts
pub mod Bounded
pub mod Summed
mod Tests
use Prim.Native.String.{[], ◌∷◌}
use arch_loop.Prelude.{
  ℕ, zero, suc, ◌+◌, Bool, true, false, String, Option, none, some, List, ◌++◌, ltb, leb, find,
  if◌then◌else◌, code, same_number, ◌||◌,
}
use arch_loop.Prelude.Trim.{trim}
use arch_loop.Landing.Queue.TicketId.{◌+text◌, decimal}

-- `IterationResult`
pub record IterationResult : Type 0 where
  pub session_id : Option String
  pub session_file_path : Option String

-- What an iteration with output gives: the lifecycle's result and the path of a preserved worktree.
pub record Finished : Type 0 where
  pub stdout : String
  pub commits : List String
  pub branch : String
  pub iteration : IterationResult
  pub preserved_worktree_path : Option String

pub data Attempt : Type 0 where
  finished : Finished → Attempt
  startup_aborted : Attempt
  failed : String → Attempt

-- `IterationContinuationKind`
pub data ContinuationKind : Type 0 where
  zero_progress progress transient_startup_abort : ContinuationKind

-- `continuationMessage`
unfoldable pub continuation_message : ContinuationKind → ℕ → String
unfolding decimal
continuation_message transient_startup_abort i =
    "Iteration "
    +text decimal i
    +text " aborted during provider startup before the agent produced output. Continue the task. Do not restart exploration from scratch."
continuation_message zero_progress i =
    "Iteration "
    +text decimal i
    +text " produced no commits and no completion signal (exploration only). Do not repeat that exploration. Make implementation progress now: write the change, verify it, and commit."
continuation_message progress i =
    "Iteration "
    +text decimal i
    +text " did not emit a completion signal. Continue from the progress below instead of repeating the same exploration."

abbrev size : String → ℕ
size [] = 0
size (c ∷ s) = suc (size s)

-- `slice(-limit)`
tail_of : ℕ → String → String
tail_of limit [] = []
tail_of limit (c ∷ s) =
    let rest = tail_of limit s in if leb (size (c ∷ s)) limit then c ∷ s else rest

-- `truncateTail`; characters are counted, as for a text without surrogate pairs
unfoldable pub truncate_tail : String → ℕ → String
unfolding trim tail_of
truncate_tail s limit =
    let t = trim s in if leb (size t) limit then t else "…" +text tail_of limit t

-- `ITERATION_CONTINUATION_OUTPUT_LIMIT`
abbrev pub output_limit : ℕ
output_limit = 4000

abbrev progress_lines : String → String
progress_lines [] = []
progress_lines (c ∷ s) = "\n\nProgress from earlier iteration(s):\n" +text (c ∷ s)

-- `buildIterationContinuationPrompt`, the lines joined
unfoldable pub continuation_prompt : ContinuationKind → ℕ → String → String
unfolding continuation_message truncate_tail
continuation_prompt kind i output =
    "\n# ITERATION CONTINUATION\n\n"
    +text continuation_message kind i
    +text progress_lines (truncate_tail output output_limit)
    +text "\n"

unfoldable pub begins_with : String → String → Bool
begins_with [] t = true
begins_with (c ∷ s) [] = false
begins_with (c ∷ s) (d ∷ t) = if same_number (code c) (code d) then begins_with s t else false

-- `text.includes(signal)`
unfoldable pub includes : String → String → Bool
unfolding begins_with
includes [] signal = begins_with signal []
includes (c ∷ s) signal = let later = includes s signal in begins_with signal (c ∷ s) || later

-- `completionSignals.find(…)`
unfoldable pub matched_signal : List String → String → Option String
unfolding includes
matched_signal signals output = find (λ signal. includes output signal) signals

-- `OrchestrateResult`
pub record OrchestrateResult : Type 0 where
  pub iterations : List IterationResult
  pub completion_signal : Option String
  pub stdout : String
  pub commits : List String
  pub branch : String
  pub preserved_worktree_path : Option String

-- The variables of the loop.
pub record Progress : Type 0 where
  pub iterations : List IterationResult
  pub stdout : String
  pub commits : List String
  pub branch : String
  pub preserved_worktree_path : Option String
  pub suffix : String
  pub last_output : String

abbrev pub no_progress : Progress
no_progress = record {
  iterations = List.[];
  stdout = "";
  commits = List.[];
  branch = "";
  preserved_worktree_path = none;
  suffix = "";
  last_output = "";
}

abbrev pub result_with : Option String → Progress → OrchestrateResult
result_with signal p = record {
  iterations = p.iterations;
  completion_signal = signal;
  stdout = p.stdout;
  commits = p.commits;
  branch = p.branch;
  preserved_worktree_path = p.preserved_worktree_path;
}

pub data Ending : Type 0 where
  returned : OrchestrateResult → Ending
  aborted : Ending
  threw : String → Ending
  threw_startup_abort : Ending

-- After one iteration the loop is done, or goes on.
pub data Step : Type 0 where
  ended : Ending → Step
  continued : Progress → Step

-- what a finished iteration adds
abbrev pub add_finished : Finished → Progress → Progress
add_finished f p = record {
  iterations = p.iterations ++ List.◌∷◌ f.iteration List.[];
  stdout = p.stdout +text f.stdout;
  commits = p.commits ++ f.commits;
  branch = f.branch;
  preserved_worktree_path = f.preserved_worktree_path;
  suffix = p.suffix;
  last_output = p.last_output;
}

abbrev pub kind_of : List String → ContinuationKind
kind_of List.[] = zero_progress
kind_of (List.◌∷◌ c cs) = progress

abbrev pub no_iteration : IterationResult
no_iteration = record { session_id = none; session_file_path = none }

unfoldable pub after_finished : ℕ → Finished → Progress → Option String → Step
unfolding continuation_prompt
after_finished i f p (some signal) = ended (returned (result_with (some signal) (add_finished f p)))
after_finished i f p none = continued (record (add_finished f p) {
  suffix = continuation_prompt (kind_of f.commits) i f.stdout;
  last_output = f.stdout;
})

-- the body of the loop behind the sandbox
unfoldable pub step : List String → ℕ → ℕ → Attempt → Progress → Step
unfolding after_finished matched_signal continuation_prompt
step signals iterations i (finished f) p = after_finished i f p (matched_signal signals f.stdout)
step signals iterations i startup_aborted p =
    if ltb i iterations
    then continued (record p {
      iterations = p.iterations ++ List.◌∷◌ no_iteration List.[];
      suffix = continuation_prompt transient_startup_abort i p.last_output;
    })
    else ended threw_startup_abort
step signals iterations i (failed error) p = ended (threw error)

abbrev pub proceed {ℓ} : {W : Type ℓ} → (Progress → W × Ending) → W → Step → W × Ending
proceed rest w (ended e) = (w, e)
proceed rest w (continued q) = rest q

module _ {W : Type 0} (is_aborted : W → Bool) (attempt : ℕ → String → W → W × Attempt)
    (signals : List String) (iterations : ℕ) where
  -- The loop from iteration `i` on, with the number of iterations that are left.
  unfoldable pub loop : ℕ → ℕ → Progress → W → W × Ending
  unfolding step
  loop zero i p w = (w, returned (result_with none p))
  loop (suc left) i p w =
      let (next, a) = attempt i p.suffix w in
      if is_aborted w
      then (w, aborted)
      else proceed (λ q. loop left (i + 1) q next) next (step signals iterations i a p)

  -- `orchestrate`
  unfoldable pub orchestrate : W → W × Ending
  unfolding loop
  orchestrate w = loop iterations 1 no_progress w
