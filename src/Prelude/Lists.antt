-- ===== src/Prelude/Lists.antt =====
-- Lists: searching, filtering by a Boolean test, and a stable sort by a numeric key.
use Prim.Native.Nat.{ℕ, zero, suc, ◌≤◌}
use mathlib.Core.Path.{◌≡◌, refl, sym, ap, ◌∙◌}
use mathlib.Core.Logic.{◌⊎◌, inl, inr}
use mathlib.Core.Bool.{Bool, true, false, ◌&&◌, ◌||◌}
use mathlib.Core.Option.{Option, none, some, some-injective, some-ne-none, some_inj}
use mathlib.Core.List.{List, [], ◌∷◌, ◌++◌, map}
use native.Mathlib.Omega.{arith}
use arch_loop.Prelude.Tests.{if◌then◌else◌, Bool-cases, Option-cases, or_option, is_some}

module _ {ℓ} {A : Type ℓ} where
  abbrev pub length : List A → ℕ
  length [] = 0
  length (x ∷ xs) = suc (length xs)

  abbrev pub take : ℕ → List A → List A
  take zero xs = []
  take (suc n) [] = []
  take (suc n) (x ∷ xs) = x ∷ take n xs

  abbrev pub head? : List A → Option A
  head? [] = none
  head? (x ∷ xs) = some x

  pub length-take-le : (n : ℕ) (xs : List A) → length (take n xs) ≤ n
  length-take-le zero xs = omega arith
  length-take-le (suc n) [] = omega arith
  length-take-le (suc n) (x ∷ xs) = omega (arith, length-take-le n xs)

  pub head?-take : (n : ℕ) (xs : List A) → head? (take (suc n) xs) ≡ head? xs
  head?-take n [] = refl
  head?-take n (x ∷ xs) = refl

  -- `Array.prototype.find`
  abbrev pub find : (A → Bool) → List A → Option A
  find p [] = none
  find p (x ∷ xs) = if p x then some x else find p xs

  -- `Array.prototype.filter`
  abbrev pub keep : (A → Bool) → List A → List A
  keep p [] = []
  keep p (x ∷ xs) = let rest = keep p xs in if p x then x ∷ rest else rest

  -- `Array.prototype.every`
  abbrev pub every : (A → Bool) → List A → Bool
  every p [] = true
  every p (x ∷ xs) = p x && every p xs

  abbrev pub any : (A → Bool) → List A → Bool
  any p [] = false
  any p (x ∷ xs) = p x || any p xs

pub length-map {ℓ κ} :
    {A : Type ℓ} {B : Type κ} (f : A → B) (xs : List A) → length (map f xs) ≡ length xs
length-map f [] = refl
length-map f (x ∷ xs) = rw (length-map f xs) refl

-- Membership, by recursion on the list. The data of the program stand in `Type 0`.
module _ {A : Type 0} where
  abbrev pub In : A → List A → Type 0
  In x [] = ⊥
  In x (y ∷ ys) = (x ≡ y) ⊎ In x ys

pub keep-ext {ℓ} :
    {A : Type ℓ} (p q : A → Bool) (xs : List A) → ((x : A) → p x ≡ q x) → keep p xs ≡ keep q xs
keep-ext p q [] h = refl
keep-ext p q (x ∷ xs) h = rw (h x, keep-ext p q xs h)

pub map-In : {A B : Type 0} (f : A → B) (xs : List A) (x : A) → In x xs → In (f x) (map f xs)
map-In f [] x m = elim m [ ]
map-In f (y ∷ xs) x (inl e) = inl (ap f e)
map-In f (y ∷ xs) x (inr m) = inr (map-In f xs x m)

module _ {A : Type 0} where
  pub append-In_left : (xs ys : List A) (x : A) → In x xs → In x (xs ++ ys)
  append-In_left [] ys x m = elim m [ ]
  append-In_left (z ∷ xs) ys x (inl e) = inl e
  append-In_left (z ∷ xs) ys x (inr m) = inr (append-In_left xs ys x m)

  pub append-In_last : (xs : List A) (x : A) → In x (xs ++ (x ∷ []))
  append-In_last [] x = inl refl
  append-In_last (z ∷ xs) x = inr (append-In_last xs x)

  pub In-append : (xs ys : List A) (x : A) → In x (xs ++ ys) → In x xs ⊎ In x ys
  In-append [] ys x m = inr m
  In-append (z ∷ xs) ys x (inl e) = inl (inl e)
  In-append (z ∷ xs) ys x (inr m) = elim (In-append xs ys x m) [
    | inl n ↦ inl (inr n)
    | inr n ↦ inr n
  ]

module _ {A : Type 0} (p : A → Bool) where
  pub find-mem : (xs : List A) {x : A} → find p xs ≡ some x → In x xs × (p x ≡ true)
  find-mem [] e = cc
  find-mem (y ∷ ys) {x} e = elim (Bool-cases (p y)) [
    | inl here ↦ let c : y ≡ x = some-injective y x (rw here at e) in (inl (sym c), rw (← c) here)
    | inr there ↦ let (m, h) = find-mem ys (rw there at e) in (inr m, h)
  ]

  -- Nothing is found exactly where no member passes.
  pub find-none : (xs : List A) {x : A} → find p xs ≡ none → In x xs → p x ≡ false
  find-none [] e m = elim m [ ]
  find-none (y ∷ ys) {x} e m = elim (Bool-cases (p y)) [
    | inl here ↦ absurd (some-ne-none y (rw here at e))
    | inr there ↦ elim m [ inl c ↦ rw c there | inr later ↦ find-none ys (rw there at e) later ]
  ]

  pub keep_sound : (xs : List A) {x : A} → In x (keep p xs) → In x xs × (p x ≡ true)
  keep_sound [] m = elim m [ ]
  keep_sound (y ∷ ys) {x} m = elim (Bool-cases (p y)) [
    | inl good ↦
        let n : In x (y ∷ keep p ys) = rw good at m in
        elim n [
          | inl e ↦ (inl e, rw e good)
          | inr later ↦ let (n, h) = keep_sound ys later in (inr n, h)
        ]
    | inr bad ↦ let (n, h) = keep_sound ys (rw bad at m) in (inr n, h)
  ]

  pub keep_complete : (xs : List A) {x : A} → In x xs → p x ≡ true → In x (keep p xs)
  keep_complete [] m h = elim m [ ]
  keep_complete (y ∷ ys) {x} m h = elim (Bool-cases (p y)) [
    | inl good ↦ rw good (elim m [ inl e ↦ inl e | inr n ↦ inr (keep_complete ys n h) ])
    | inr bad ↦ rw bad (elim m [ inl e ↦ cc (sym h ∙ ap p e ∙ bad) | inr n ↦ keep_complete ys n h ])
  ]

module _ {κ} {A : Type 0} where
  abbrev pub All : (A → Type κ) → List A → Type κ
  All P [] = Unit
  All P (x ∷ xs) = P x × All P xs

  pub All-mem : (P : A → Type κ) {x : A} (xs : List A) → In x xs → All P xs → P x
  All-mem P [] m h = elim m [ ]
  All-mem P (y ∷ xs) (inl e) h = rw e h.0
  All-mem P (y ∷ xs) (inr m) h = All-mem P xs m h.1

  pub All-append : (P : A → Type κ) (xs ys : List A) → All P xs → All P ys → All P (xs ++ ys)
  All-append P [] ys h k = k
  All-append P (x ∷ xs) ys h k = (h.0, All-append P xs ys h.1 k)

  -- `All` from a proof for every member.
  pub mem-All : (P : A → Type κ) (xs : List A) → ((x : A) → In x xs → P x) → All P xs
  mem-All P [] f = tt
  mem-All P (x ∷ xs) f = (f x (inl refl), mem-All P xs (λ y m. f y (inr m)))

  pub All-take : (P : A → Type κ) (n : ℕ) (xs : List A) → All P xs → All P (take n xs)
  All-take P zero xs h = tt
  All-take P (suc n) [] h = tt
  All-take P (suc n) (x ∷ xs) h = (h.0, All-take P n xs h.1)

-- The last member that passes.
abbrev pub find_last {ℓ} : {A : Type ℓ} → (A → Bool) → List A → Option A
find_last p [] = none
find_last p (x ∷ xs) = or_option (find_last p xs) (if p x then some x else none)

module _ {A : Type 0} (p : A → Bool) where
  pub find_last-mem : (xs : List A) {x : A} → find_last p xs ≡ some x → In x xs × (p x ≡ true)
  find_last-mem [] e = cc
  find_last-mem (y ∷ ys) {x} e = elim (Option-cases (find_last p ys)) [
    | inl c ↦ elim (Bool-cases (p y)) [
      | inl h ↦ let d : y ≡ x = some_inj.0 (rw (c, h) at e) in (inl (sym d), rw (← d) h)
      | inr h ↦ cc (rw (c, h) at e)
    ]
    | inr (z, c) ↦ let (m, h) = find_last-mem ys (c ∙ (rw c at e)) in (inr m, h)
  ]

  pub find_last-some :
      (xs : List A) {x : A} → In x xs → p x ≡ true → is_some (find_last p xs) ≡ true
  find_last-some [] m h = elim m [ ]
  find_last-some (y ∷ ys) {x} m h = elim (Option-cases (find_last p ys)) [
    | inl c ↦ elim m [
      | inl d ↦ rw (c, ap p (sym d) ∙ h) refl
      | inr n ↦ cc (sym (ap is_some c) ∙ find_last-some ys n h)
    ]
    | inr (z, c) ↦ rw c refl
  ]
