-- ===== src/Recovery/Branch.antt =====
-- The branch of a task, `resolveHubTaskBranch` and `slugifyHubTaskTitle` of src/taskBoard.ts.
use arch_loop.Prelude.Trim.{strip_start, strip_end, keep_unless_last, strip, trim}
use Prim.Native.String.{[], ◌∷◌}
use text.Mathlib.TextLemmas.{nil-append, cons-append}
use arch_loop.Prelude.{
  ℕ, zero, suc, ◌-◌, Bool, true, false, ◌&&◌, ◌||◌, not, Char, code, String, arith, leb,
  same_number, if◌then◌else◌, Bool-cases, inl, inr, ◌≡◌, refl,
}
use arch_loop.Landing.Queue.TicketId.{◌+text◌}
use arch_loop.Lease.{branch_to_worktree_name}

unfoldable pub char_at : ℕ → String → Char → Char
char_at n [] other = other
char_at zero (c ∷ s) other = c
char_at (suc n) (c ∷ s) other = char_at n s other

-- `toLowerCase()`, with any other character where the result has one that is not ASCII: the code
-- replaces them all alike. Beside A to Z, two characters have ASCII letters in lower case.
unfoldable pub lower_char : Char → String
unfolding char_at
lower_char c =
    if leb b'A' (code c) && leb (code c) b'Z'
    then char_at (code c - b'A') "abcdefghijklmnopqrstuvwxyz" c ∷ []
    else if same_number (code c) 304
    then "i" ∷ c ∷ []
    else if same_number (code c) 8490
    then "k" ∷ []
    else c ∷ []

unfoldable pub lower : String → String
unfolding lower_char
lower [] = []
lower (c ∷ s) = lower_char c +text lower s

-- `replace(/[^…]+/g, "-")` for the characters that `p` allows; the flag says that the text before
-- ends in a replaced run
replace_runs : (ℕ → Bool) → Bool → String → String
replace_runs p in_run [] = []
replace_runs p in_run (c ∷ s) =
    let allowed = p (code c) in
    let rest = replace_runs p (not allowed) s in
    if allowed then c ∷ rest else if in_run then rest else "-" ∷ rest

is_dash : ℕ → Bool
is_dash c = same_number c b'-'

-- `[a-z0-9]`
is_title_char : ℕ → Bool
is_title_char c = leb b'a' c && leb c b'z' || leb b'0' c && leb c b'9'

-- `[a-z0-9._-]`
unfoldable pub is_id_char : ℕ → Bool
unfolding is_title_char
is_id_char c = is_title_char c || leb b'-' c && leb c b'.' || same_number c b'_'

-- `slice(0, n)` of a text of ASCII characters
first_chars : ℕ → String → String
first_chars zero s = []
first_chars (suc n) [] = []
first_chars (suc n) (c ∷ s) = c ∷ first_chars n s

or_task : String → String
unfolding first_chars
or_task [] = "task"
or_task (c ∷ s) = first_chars 48 (c ∷ s)

unfoldable pub slugify_title : String → String
unfolding trim lower replace_runs is_dash is_title_char or_task strip_start strip_end
slugify_title title =
    or_task (strip is_dash (replace_runs is_title_char false (lower (trim title))))

unfoldable pub normalize_id : String → String
unfolding trim lower replace_runs is_dash is_id_char strip_start strip_end
normalize_id id = strip is_dash (replace_runs is_id_char false (lower (trim id)))

unfoldable pub resolve_branch : String → String → String
unfolding normalize_id slugify_title
resolve_branch id title = "archloop/" +text normalize_id id +text "-" +text slugify_title title

-- Every character of the text passes.
unfoldable pub every_char : (ℕ → Bool) → String → Bool
every_char p [] = true
every_char p (c ∷ s) = p (code c) && every_char p s

module _ (p : ℕ → Bool) where
  every_char-cons :
      (c : Char) (s : String)
      → every_char p (c ∷ s) ≡ true
      → (p (code c) ≡ true) × (every_char p s ≡ true)
  unfolding every_char
  every_char-cons c s h = ground arith

  every_char-append :
      (s t : String)
      → every_char p s ≡ true
      → every_char p t ≡ true
      → every_char p (s +text t) ≡ true
  unfolding every_char
  every_char-append [] t h k = rw (nil-append t) k
  every_char-append (c ∷ s) t h k =
      let (x, y) = every_char-cons c s h in rw (cons-append c s t, x) (every_char-append s t y k)

  every_char-strip_start :
      (q : ℕ → Bool) (s : String) → every_char p s ≡ true → every_char p (strip_start q s) ≡ true
  unfolding every_char strip_start
  every_char-strip_start q [] h = refl
  every_char-strip_start q (c ∷ s) h = elim (Bool-cases (q (code c))) [
    | inl e ↦ rw e (every_char-strip_start q s (every_char-cons c s h).1)
    | inr e ↦ rw e h
  ]

  every_char-keep_unless_last :
      (b : Bool) (c : Char) (s : String)
      → p (code c) ≡ true
      → every_char p s ≡ true
      → every_char p (keep_unless_last b c s) ≡ true
  unfolding every_char keep_unless_last
  every_char-keep_unless_last true c [] h k = refl
  every_char-keep_unless_last false c [] h k = rw h refl
  every_char-keep_unless_last b c (d ∷ s) h k = rw h k

  every_char-strip_end :
      (q : ℕ → Bool) (s : String) → every_char p s ≡ true → every_char p (strip_end q s) ≡ true
  unfolding every_char strip_end
  every_char-strip_end q [] h = refl
  every_char-strip_end q (c ∷ s) h =
      every_char-keep_unless_last (q (code c)) c (strip_end q s) (every_char-cons c s h).0
        (every_char-strip_end q s (every_char-cons c s h).1)

  every_char-first_chars :
      (n : ℕ) (s : String) → every_char p s ≡ true → every_char p (first_chars n s) ≡ true
  unfolding every_char first_chars
  every_char-first_chars zero s h = refl
  every_char-first_chars (suc n) [] h = refl
  every_char-first_chars (suc n) (c ∷ s) h =
      rw ((every_char-cons c s h).0) (every_char-first_chars n s (every_char-cons c s h).1)

  every_char-replace_runs :
      (q : ℕ → Bool) (b : Bool) (s : String)
      → ((n : ℕ) → q n ≡ true → p n ≡ true)
      → p b'-' ≡ true
      → every_char p (replace_runs q b s) ≡ true
  unfolding every_char replace_runs
  every_char-replace_runs q b [] h k = refl
  every_char-replace_runs q b (c ∷ s) h k = elim (Bool-cases (q (code c))) [
    | inl e ↦ rw (e, h (code c) e) (every_char-replace_runs q false s h k)
    | inr e ↦ rw e (dashed b _ (every_char-replace_runs q true s h k))
  ]
    where
      dashed :
          (b : Bool) (t : String)
          → every_char p t ≡ true
          → every_char p (if b then t else "-" ∷ t) ≡ true
      dashed true t x = x
      dashed false t x = rw k x

is_title_char-is_id_char : (c : ℕ) → is_title_char c ≡ true → is_id_char c ≡ true
unfolding is_id_char
is_title_char-is_id_char c h = rw h refl

normalize_id-chars : (id : String) → every_char is_id_char (normalize_id id) ≡ true
unfolding normalize_id
normalize_id-chars id = every_char-strip_end is_id_char is_dash _ (
    every_char-strip_start is_id_char is_dash _ (
      every_char-replace_runs is_id_char is_id_char false (lower (trim id)) (λ n e. e)
        (unfold is_id_char is_title_char in refl)))

or_task-chars :
    (s : String) → every_char is_id_char s ≡ true → every_char is_id_char (or_task s) ≡ true
unfolding or_task every_char is_id_char is_title_char
or_task-chars [] h = refl
or_task-chars (c ∷ s) h = every_char-first_chars is_id_char 48 (c ∷ s) h

slugify_title-chars : (title : String) → every_char is_id_char (slugify_title title) ≡ true
unfolding slugify_title
slugify_title-chars title = or_task-chars _ (
    every_char-strip_end is_id_char is_dash _ (
      every_char-strip_start is_id_char is_dash _ (
        every_char-replace_runs is_id_char is_title_char false (lower (trim title))
          is_title_char-is_id_char (unfold is_id_char is_title_char in refl))))

no_slash : (n : ℕ) → is_id_char n ≡ true → leb n b'/' && leb b'/' n ≡ false
unfolding is_id_char is_title_char
no_slash n h = ground arith

worktree_name-same : (s : String) → every_char is_id_char s ≡ true → branch_to_worktree_name s ≡ s
unfolding branch_to_worktree_name
worktree_name-same [] h = refl
worktree_name-same (c ∷ s) h =
    let (here, there) = every_char-cons is_id_char c s h in
    rw (no_slash (code c) here, worktree_name-same s there) refl

worktree_name-append :
    (s t : String)
    → branch_to_worktree_name (s +text t)
      ≡ branch_to_worktree_name s +text branch_to_worktree_name t
unfolding branch_to_worktree_name
worktree_name-append [] t = rw (nil-append t, nil-append (branch_to_worktree_name t)) refl
worktree_name-append (c ∷ s) t =
    rw (cons-append c s t, worktree_name-append s t, cons-append _ _ _) refl

-- The worktree of a derived branch has one name of the characters a to z, 0 to 9, dot, underscore
-- and dash, whatever the id and the title of the task are: no character of it separates paths.
pub resolve_branch-worktree :
    (id title : String)
    → branch_to_worktree_name (resolve_branch id title)
      ≡ "archloop-" +text normalize_id id +text "-" +text slugify_title title
unfolding resolve_branch
resolve_branch-worktree id title =
    rw
      (
        worktree_name-append ("archloop/" +text normalize_id id +text "-") (slugify_title title),
        worktree_name-append ("archloop/" +text normalize_id id) "-",
        worktree_name-append "archloop/" (normalize_id id),
        worktree_name-same (normalize_id id) (normalize_id-chars id),
        worktree_name-same (slugify_title title) (slugify_title-chars title),
      )
      (unfold branch_to_worktree_name in refl)
