-- ===== src/Landing/Transaction/Entries.antt =====
-- What stands under a key of a written record, src/hubLandingTransaction.ts.
use arch_loop.Prelude.{
  String, Option, none, some, List, [], ◌∷◌, Bool, true, false, ◌==◌, if◌then◌else◌, ◌≡◌, refl, sym,
  ap, ◌∙◌, inl, inr, Bool-cases, eq_iff,
}
use arch_loop.Prelude.Json.{Json, member}
use arch_loop.Landing.Transaction.Write.{written_fields}

abbrev pub Entries : Type 0
Entries = List (String × Option Json)

abbrev pub is_absent : String → Entries → Bool
is_absent x [] = true
is_absent x ((k, o) ∷ es) = if k == x then false else is_absent x es

abbrev pub are_distinct : Entries → Bool
are_distinct [] = true
are_distinct ((k, o) ∷ es) = if is_absent k es then are_distinct es else false

abbrev pub entry : String → Entries → Option Json
entry x [] = none
entry x ((k, o) ∷ es) = if k == x then o else entry x es

member-absent :
    (x : String) (es : Entries) → is_absent x es ≡ true → member x (written_fields es) ≡ none
unfolding written_fields
member-absent x [] h = refl
member-absent x ((k, none) ∷ es) h = elim (Bool-cases (k == x)) [
  | inl same ↦ cc (rw same at h)
  | inr other ↦ member-absent x es (rw other at h)
]
member-absent x ((k, some v) ∷ es) h = elim (Bool-cases (k == x)) [
  | inl same ↦ cc (rw same at h)
  | inr other ↦ rw other (member-absent x es (rw other at h))
]

member-first :
    (k : String) (o : Option Json) (x : String) (es : Entries)
    → (k == x) ≡ true
    → is_absent k es ≡ true
    → member x (written_fields ((k, o) ∷ es)) ≡ o
unfolding written_fields
member-first k none x es same once =
    member-absent x es (ap (λ y. is_absent y es) (sym ((eq_iff k x).0 same)) ∙ once)
member-first k (some v) x es same once = rw same refl

member-later :
    (k : String) (o : Option Json) (x : String) (es : Entries)
    → (k == x) ≡ false
    → member x (written_fields ((k, o) ∷ es)) ≡ member x (written_fields es)
unfolding written_fields
member-later k none x es other = refl
member-later k (some v) x es other = rw other refl

-- With distinct keys, what is written under a key is the value of its entry.
pub member-written_fields :
    (x : String) (es : Entries) → are_distinct es ≡ true → member x (written_fields es) ≡ entry x es
unfolding written_fields
member-written_fields x [] h = refl
member-written_fields x ((k, o) ∷ es) h = elim (Bool-cases (is_absent k es)) [
  | inr twice ↦ cc (rw twice at h)
  | inl once ↦ elim (Bool-cases (k == x)) [
    | inl same ↦ rw same (member-first k o x es same once)
    | inr other ↦ rw other (member-later k o x es other ∙ member-written_fields x es (rw once at h))
  ]
]
