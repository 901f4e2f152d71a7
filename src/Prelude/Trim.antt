-- ===== src/Prelude/Trim.antt =====
-- `String.prototype.trim`, and the removal of leading and trailing characters in general.
use Prim.Native.Nat.{ℕ}
use Prim.Native.Char.{Char, code}
use Prim.Native.String.{String, [], ◌∷◌}
use mathlib.Core.Bool.{Bool, ◌&&◌, ◌||◌}
use arch_loop.Prelude.Tests.{leb, same_number, if◌then◌else◌}

-- White space and line ends of JavaScript.
unfoldable pub is_space : ℕ → Bool
is_space c =
    leb 9 c && leb c 13
    || same_number c 32
    || same_number c 160
    || same_number c 5760
    || leb 8192 c && leb c 8202
    || leb 8232 c && leb c 8233
    || same_number c 8239
    || same_number c 8287
    || same_number c 12288
    || same_number c 65279

-- `replace(/^p+/, "")`
unfoldable pub strip_start : (ℕ → Bool) → String → String
strip_start p [] = []
strip_start p (c ∷ s) = let rest = strip_start p s in if p (code c) then rest else c ∷ s

unfoldable pub keep_unless_last : Bool → Char → String → String
keep_unless_last drop c [] = if drop then [] else c ∷ []
keep_unless_last drop c (d ∷ s) = c ∷ d ∷ s

-- `replace(/p+$/, "")`
unfoldable pub strip_end : (ℕ → Bool) → String → String
unfolding keep_unless_last
strip_end p [] = []
strip_end p (c ∷ s) = keep_unless_last (p (code c)) c (strip_end p s)

abbrev pub strip : (ℕ → Bool) → String → String
strip p s = strip_end p (strip_start p s)

-- `trim()`
unfoldable pub trim : String → String
unfolding is_space strip_start strip_end
trim s = strip is_space s
