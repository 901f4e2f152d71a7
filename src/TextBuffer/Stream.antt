-- ===== src/TextBuffer/Stream.antt =====
-- What the text buffer delivers, src/TextDeltaBuffer.ts.
use Prim.Native.String.{[], ◌∷◌}
use text.Mathlib.TextLemmas.{append-nil, append_assoc, nil-append, cons-append}
use arch_loop.Prelude.{
  String, List, Bool, true, false, not, ◌≡◌, refl, sym, ap, ◌∙◌, Bool-cases, inl, inr, Char,
}
use arch_loop.Landing.Queue.TicketId.{◌+text◌}
use arch_loop.TextBuffer.{
  Buffer, new_buffer, should_flush, add_chunk, do_flush, write, flush, go_off, Step, written,
  forced, timed, step, run,
}

-- The chunks in the order of their delivery, joined.
abbrev pub delivered : List String → String
delivered List.[] = ""
delivered (List.◌∷◌ chunk earlier) = delivered earlier +text chunk

-- What the caller has written, joined.
abbrev pub inputs : List Step → String
inputs List.[] = ""
inputs (List.◌∷◌ (written s) es) = s +text inputs es
inputs (List.◌∷◌ forced es) = inputs es
inputs (List.◌∷◌ timed es) = inputs es

content : Buffer → String
content b = delivered b.flushed +text b.buffer

add_chunk-delivered :
    (s : String) (chunks : List String) → delivered (add_chunk s chunks) ≡ delivered chunks +text s
unfolding add_chunk
add_chunk-delivered [] chunks = sym (append-nil (delivered chunks))
add_chunk-delivered (c ∷ s) chunks = refl

do_flush-content : (b : Buffer) → content (do_flush b) ≡ content b
unfolding content do_flush
do_flush-content b = append-nil _ ∙ add_chunk-delivered b.buffer b.flushed

write-content : (s : String) (b : Buffer) → content (write s b) ≡ content b +text s
unfolding content write
write-content [] b = sym (append-nil _)
write-content (c ∷ s) b =
    let whole = b.buffer +text (c ∷ s) in
    let joined = sym (append_assoc (delivered b.flushed) b.buffer (c ∷ s)) in
    elim (Bool-cases (should_flush whole)) [
      | inl e ↦ rw e (do_flush-content (record b { buffer = whole; is_pending = false }) ∙ joined)
      | inr e ↦ rw e joined
    ]

step-content :
    (e : Step) (es : List Step) (b : Buffer)
    → content (step e b) +text inputs es ≡ content b +text inputs (List.◌∷◌ e es)
unfolding content step flush go_off do_flush
step-content (written s) es b = rw (write-content s b) (append_assoc (content b) s (inputs es))
step-content forced es b = ap (λ t. t +text inputs es) (do_flush-content b)
step-content timed es b = elim (Bool-cases b.is_pending) [
  | inl e ↦ rw e (ap (λ t. t +text inputs es) (do_flush-content b))
  | inr e ↦ rw e refl
]

run-content : (es : List Step) (b : Buffer) → content (run es b) ≡ content b +text inputs es
unfolding run
run-content List.[] b = sym (append-nil (content b))
run-content (List.◌∷◌ e es) b = run-content es (step e b) ∙ step-content e es b

-- Whatever is written, whenever the timer goes off and the buffer is flushed: after a last flush the
-- chunks that were delivered are, joined in their order, all the text that was written.
pub flush-run : (es : List Step) → delivered (flush (run es new_buffer)).flushed ≡ inputs es
unfolding flush do_flush content
flush-run es =
    let b = run es new_buffer in
    add_chunk-delivered b.buffer b.flushed ∙ run-content es new_buffer ∙ nil-append (inputs es)

abbrev pub is_blank : String → Bool
is_blank [] = true
is_blank (c ∷ s) = false

-- The buffer holds text exactly while a timer is set, and no text that is to be flushed at once.
pub record IsSettled (b : Buffer) : Type 0 where
  pub pending : b.is_pending ≡ not (is_blank b.buffer)
  pub calm : should_flush b.buffer ≡ false

append-filled : (t : String) (c : Char) (s : String) → is_blank (t +text (c ∷ s)) ≡ false
append-filled [] c s = rw (nil-append (c ∷ s)) refl
append-filled (d ∷ t) c s = rw (cons-append d t (c ∷ s)) refl

step-IsSettled : (e : Step) (b : Buffer) → IsSettled b → IsSettled (step e b)
unfolding step flush go_off do_flush write
step-IsSettled forced b h = record { pending = refl; calm = unfold should_flush in refl }
step-IsSettled timed b h = elim (Bool-cases b.is_pending) [
  | inl e ↦ rw e (record { pending = refl; calm = unfold should_flush in refl })
  | inr e ↦ rw e (record { pending = sym e ∙ h.pending; calm = h.calm })
]
step-IsSettled (written []) b h = h
step-IsSettled (written (c ∷ s)) b h = elim (Bool-cases (should_flush (b.buffer +text (c ∷ s)))) [
  | inl e ↦ rw e (record { pending = refl; calm = unfold should_flush in refl })
  | inr e ↦ rw e (record { pending = ap not (sym (append-filled b.buffer c s)); calm = e })
]

-- After any steps of a buffer that was settled, as a new one is, there is text in it exactly while a
-- timer is set, and that text has no newline, ends no sentence and is shorter than the threshold.
pub run-IsSettled : (es : List Step) (b : Buffer) → IsSettled b → IsSettled (run es b)
unfolding run
run-IsSettled List.[] b h = h
run-IsSettled (List.◌∷◌ e es) b h = run-IsSettled es (step e b) (step-IsSettled e b h)
