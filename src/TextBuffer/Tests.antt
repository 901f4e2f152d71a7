-- ===== src/TextBuffer/Tests.antt =====
-- The text buffer at a concrete stream.
use arch_loop.Prelude.{List, [], ◌∷◌, ◌≡◌, refl}
use arch_loop.TextBuffer.{new_buffer, flush, Step, written, timed, run, should_flush}
use arch_loop.TextBuffer.Stream.{delivered, inputs, flush-run, IsSettled, run-IsSettled}

abbrev stream : List Step
stream = written "Hello " ∷ timed ∷ written "wor" ∷ written "ld. " ∷ written "Bye" ∷ []

run_test : (run stream new_buffer).flushed ≡ "world. " ∷ "Hello " ∷ []
unfolding run
run_test = refl

flush-run_example : delivered (flush (run stream new_buffer)).flushed ≡ inputs stream
flush-run_example = flush-run stream

new_buffer-IsSettled : IsSettled new_buffer
unfolding should_flush
new_buffer-IsSettled = record { pending = refl; calm = refl }

run-IsSettled_example : IsSettled (run stream new_buffer)
run-IsSettled_example = run-IsSettled stream new_buffer new_buffer-IsSettled
