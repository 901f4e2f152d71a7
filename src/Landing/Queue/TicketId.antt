-- ===== src/Landing/Queue/TicketId.antt =====
-- The ticket ids of src/hubLandingQueue.ts: `lqt-${safeTaskId(taskId)}-${sequence}`.
use Prim.Native.String.{[], ◌∷◌}
use text.Mathlib.TextLemmas.{nil-append, cons-append}
use arch_loop.Prelude.{
  ℕ, zero, suc, ◌+◌, ◌-◌, ◌*◌, ◌/◌, ◌%◌, ◌<◌, ◌≡◌, refl, ◌∙◌, ap, sym, Bool, false, ◌&&◌, ◌||◌, not,
  Char, code, String, arith, ltb, leb, if◌then◌else◌, Bool-cases, inl, inr,
}

infixl 65 ◌+text◌
abbrev pub ◌+text◌ : String → String → String
s +text t = Prim.Native.String.◌++◌ s t

-- `[A-Za-z0-9._-]`
is_safe : ℕ → Bool
is_safe c =
    leb b'A' c && leb c b'Z'
    || leb b'a' c && leb c b'z'
    || leb b'0' c && leb c b'9'
    || leb b'-' c && leb c b'.'
    || leb b'_' c && leb c b'_'

-- `replace(/[^A-Za-z0-9._-]+/g, "-")`; the flag says that the text before ends in an unsafe run
collapse : Bool → String → String
collapse in_run [] = []
collapse in_run (c ∷ s) =
    let safe = is_safe (code c) in
    let rest = collapse (not safe) s in
    if safe then c ∷ rest else if in_run then rest else "-" ∷ rest

unfoldable pub safe_task_id : String → String
unfolding collapse is_safe
safe_task_id s = collapse false s

abbrev digit : ℕ → Char
digit zero = "0"
digit (suc zero) = "1"
digit (suc (suc zero)) = "2"
digit (suc (suc (suc zero))) = "3"
digit (suc (suc (suc (suc zero)))) = "4"
digit (suc (suc (suc (suc (suc zero))))) = "5"
digit (suc (suc (suc (suc (suc (suc zero)))))) = "6"
digit (suc (suc (suc (suc (suc (suc (suc zero))))))) = "7"
digit (suc (suc (suc (suc (suc (suc (suc (suc zero)))))))) = "8"
digit (suc (suc (suc (suc (suc (suc (suc (suc (suc n))))))))) = "9"

decimal_fuel : ℕ → ℕ → String
decimal_fuel zero n = []
decimal_fuel (suc f) n =
    let rest = decimal_fuel f (n / 10) in
    if ltb n 10 then digit n ∷ [] else rest +text (digit (n % 10) ∷ [])

-- a number in a template literal
unfoldable pub decimal : ℕ → String
unfolding decimal_fuel
decimal n = decimal_fuel (suc n) n

unfoldable pub ticket_id : String → ℕ → String
unfolding safe_task_id decimal
ticket_id task sequence = "lqt-" +text safe_task_id task +text "-" +text decimal sequence

-- Reading back the number behind the last character that is no digit.
next : ℕ → ℕ → ℕ
next a c = if leb b'0' c && leb c b'9' then a * 10 + (c - b'0') else 0

read_from : ℕ → String → ℕ
read_from a [] = a
read_from a (c ∷ s) = read_from (next a (code c)) s

read_from-append : (a : ℕ) (s t : String) → read_from a (s +text t) ≡ read_from (read_from a s) t
unfolding read_from
read_from-append a [] t = rw nil-append
read_from-append a (c ∷ s) t = rw cons-append (read_from-append (next a (code c)) s t)

next-digit : (a n : ℕ) → n < 10 → next a (code (digit n)) ≡ a * 10 + n
unfolding next
next-digit a zero h = refl
next-digit a (suc zero) h = refl
next-digit a (suc (suc zero)) h = refl
next-digit a (suc (suc (suc zero))) h = refl
next-digit a (suc (suc (suc (suc zero)))) h = refl
next-digit a (suc (suc (suc (suc (suc zero))))) h = refl
next-digit a (suc (suc (suc (suc (suc (suc zero)))))) h = refl
next-digit a (suc (suc (suc (suc (suc (suc (suc zero))))))) h = refl
next-digit a (suc (suc (suc (suc (suc (suc (suc (suc zero)))))))) h = refl
next-digit a (suc (suc (suc (suc (suc (suc (suc (suc (suc zero))))))))) h = refl
next-digit a (suc (suc (suc (suc (suc (suc (suc (suc (suc (suc n)))))))))) h = absurd (omega arith)

read-decimal_fuel : (f n : ℕ) → n < f → read_from 0 (decimal_fuel f n) ≡ n
unfolding decimal_fuel
read-decimal_fuel zero n h = absurd (omega arith)
read-decimal_fuel (suc f) n h = elim (Bool-cases (ltb n 10)) [
  | inl small ↦ rw small (unfold read_from in (next-digit 0 n (ground arith) ∙ omega arith))
  | inr large ↦
      rw (large, read_from-append, read-decimal_fuel f (n / 10) (ground arith))
        (unfold read_from in (next-digit (n / 10) (n % 10) (omega arith) ∙ omega arith))
]

read-ticket_id : (s : String) (n : ℕ) → read_from 0 (ticket_id s n) ≡ n
unfolding ticket_id
read-ticket_id s n =
    rw (read_from-append, read_from-append)
      (unfold read_from next in (read-decimal_fuel (suc n) n (omega arith)))

-- Two ticket ids are the same only if their sequence numbers are.
pub ticket_id-injective : (s t : String) (n m : ℕ) → ticket_id s n ≡ ticket_id t m → n ≡ m
ticket_id-injective s t n m e = sym (read-ticket_id s n) ∙ ap (read_from 0) e ∙ read-ticket_id t m
