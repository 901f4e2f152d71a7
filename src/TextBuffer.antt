-- ===== src/TextBuffer.antt =====
-- The buffer that turns streamed text into readable chunks, src/TextDeltaBuffer.ts.
pub mod Stream
mod Tests
use Prim.Native.String.{[], ◌∷◌}
use arch_loop.Prelude.{
  ℕ, zero, suc, ◌+◌, String, Char, code, List, Bool, true, false, ◌&&◌, ◌||◌, if◌then◌else◌, leb,
  same_number,
}
use arch_loop.Landing.Queue.TicketId.{◌+text◌}

-- The buffer, whether a timer is set that has not gone off, and what `onFlush` was called with, the last chunk first.
pub record Buffer : Type 0 where
  pub buffer : String
  pub is_pending : Bool
  pub flushed : List String

abbrev pub new_buffer : Buffer
new_buffer = record { buffer = ""; is_pending = false; flushed = List.[] }

-- `text.length`, in units of UTF-16
unfoldable pub units : String → ℕ
units [] = 0
units (c ∷ s) = (if leb 65536 (code c) then 2 else 1) + units s

-- `LENGTH_THRESHOLD`
abbrev pub length_threshold : ℕ
length_threshold = 80

-- `includes("\n")`
unfoldable pub has_newline : String → Bool
has_newline [] = false
has_newline (c ∷ s) = same_number (code c) 10 || has_newline s

abbrev is_stop : ℕ → Bool
is_stop c = same_number c b'.' || same_number c b'!' || same_number c b'?'

abbrev is_one_space : String → Bool
is_one_space [] = false
is_one_space (c ∷ []) = same_number (code c) b' '
is_one_space (c ∷ d ∷ s) = false

-- `SENTENCE_BOUNDARY_RE`, /[.!?] $/
unfoldable pub ends_sentence : String → Bool
ends_sentence [] = false
ends_sentence (c ∷ s) = is_stop (code c) && is_one_space s || ends_sentence s

-- `shouldFlush`
unfoldable pub should_flush : String → Bool
unfolding has_newline ends_sentence units
should_flush s = has_newline s || ends_sentence s || leb length_threshold (units s)

unfoldable pub add_chunk : String → List String → List String
add_chunk [] flushed = flushed
add_chunk (c ∷ s) flushed = List.◌∷◌ (c ∷ s) flushed

-- `doFlush`; an empty buffer is not passed on
unfoldable pub do_flush : Buffer → Buffer
unfolding add_chunk
do_flush b = record b { buffer = ""; flushed = add_chunk b.buffer b.flushed }

abbrev clear_timer : Buffer → Buffer
clear_timer b = record b { is_pending = false }

unfoldable pub write : String → Buffer → Buffer
unfolding should_flush do_flush
write [] b = b
write (c ∷ s) b =
    let added = clear_timer (record b { buffer = b.buffer +text (c ∷ s) }) in
    if should_flush added.buffer then do_flush added else record added { is_pending = true }

unfoldable pub flush : Buffer → Buffer
unfolding do_flush
flush b = do_flush (clear_timer b)

-- The timer goes off, if one is set.
unfoldable pub go_off : Buffer → Buffer
unfolding flush
go_off b = if b.is_pending then flush b else b

pub data Step : Type 0 where
  written : String → Step
  forced timed : Step

unfoldable pub step : Step → Buffer → Buffer
unfolding write flush go_off
step (written s) b = write s b
step forced b = flush b
step timed b = go_off b

unfoldable pub run : List Step → Buffer → Buffer
unfolding step
run List.[] b = b
run (List.◌∷◌ e es) b = run es (step e b)
