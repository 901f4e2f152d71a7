-- ===== src/Recover/Said.antt =====
-- What the metadata of a task says for its recovery, src/hubTaskRecover.ts.
use arch_loop.Prelude.{
  String, Option, none, some, List, [], ◌∷◌, Bool, true, false, ◌||◌, is_some, ◌≡◌, ◌≢◌, ◌⊎◌, refl,
  sym, ap, ◌∙◌, inl, inr, In, Bool-cases, Option-cases, ◌↔◌, eq_iff, eq_refl,
}
use arch_loop.Prelude.Json.{Json, Fields, null, bool, text, member, is_literal}
use arch_loop.Board.{trimmed}
use arch_loop.Recover.{FailureReason, merge_conflict, verification_failure, is_human_failure}
use arch_loop.Recover.{has_truthy, is_truthy_value, is_human_task}

-- A value that says something: neither null nor false, and no blank text.
pub record IsSaid (v : Json) : Type 0 where
  pub not_null : v ≢ null
  pub not_false : v ≢ bool false
  pub not_blank : (s : String) → v ≡ text s → trimmed (some (text s)) ≢ none

-- One of the keys has a value that says something.
pub record Says (fs : Fields) (ks : List String) : Type 0 where
  pub key : String
  pub listed : In key ks
  pub value : Json
  pub found : member key fs ≡ some value
  pub said : IsSaid value

some_trimmed : (o : Option String) → is_some o ≡ true → o ≢ none
some_trimmed (some s) h e = cc
some_trimmed none h e = cc

trimmed_some : (o : Option String) → o ≢ none → is_some o ≡ true
trimmed_some none n = absurd (n refl)
trimmed_some (some s) n = refl

is_truthy_value-IsSaid : (v : Json) → is_truthy_value (some v) ≡ true → IsSaid v
is_truthy_value-IsSaid null h = cc
is_truthy_value-IsSaid (bool false) h = cc
is_truthy_value-IsSaid (text t) h = record {
  not_null = λ e. cc;
  not_false = λ e. cc;
  not_blank = λ s e.
      some_trimmed (trimmed (some (text s))) (ap (λ v. is_truthy_value (some v)) (sym e) ∙ h);
}
is_truthy_value-IsSaid _ h = record {
  not_null = λ e. cc;
  not_false = λ e. cc;
  not_blank = λ s e. cc;
}

IsSaid-is_truthy_value : (v : Json) → IsSaid v → is_truthy_value (some v) ≡ true
IsSaid-is_truthy_value null s = absurd (s.not_null refl)
IsSaid-is_truthy_value (bool false) s = absurd (s.not_false refl)
IsSaid-is_truthy_value (text t) s = trimmed_some (trimmed (some (text t))) (s.not_blank t refl)
IsSaid-is_truthy_value _ s = refl

-- A task says something under one of the keys exactly where the code's test holds.
has_truthy-Says : (fs : Fields) (ks : List String) → has_truthy fs ks ≡ true → Says fs ks
has_truthy-Says fs [] h = cc h
has_truthy-Says fs (k ∷ ks) h = elim (Bool-cases (is_truthy_value (member k fs))) [
  | inr fails ↦
      let s = has_truthy-Says fs ks (rw fails at h) in
      record { key = s.key; listed = inr s.listed; value = s.value; found = s.found; said = s.said }
  | inl holds ↦ elim (Option-cases (member k fs)) [
    | inl missing ↦ cc (rw missing at holds)
    | inr (v, found) ↦ record {
      key = k;
      listed = inl refl;
      value = v;
      found = found;
      said = is_truthy_value-IsSaid v (rw found at holds);
    }
  ]
]

Says-has_truthy :
    (fs : Fields) (ks : List String) (k : String) (v : Json)
    → In k ks
    → member k fs ≡ some v
    → IsSaid v
    → has_truthy fs ks ≡ true
Says-has_truthy fs (l ∷ ks) k v (inl e) found said =
    rw
      (ap (λ x. is_truthy_value (member x fs)) (sym e)
        ∙ ap is_truthy_value found
        ∙ IsSaid-is_truthy_value v said)
      refl
Says-has_truthy fs (l ∷ ks) k v (inr m) found said =
    elim (Bool-cases (is_truthy_value (member l fs))) [
      | inl holds ↦ rw holds refl
      | inr fails ↦ rw fails (Says-has_truthy fs ks k v m found said)
    ]
Says-has_truthy fs [] k v m found said = elim m [ ]

pub Says-iff : (fs : Fields) (ks : List String) → has_truthy fs ks ≡ true ↔ Says fs ks
Says-iff fs ks =
    (has_truthy-Says fs ks, λ s. Says-has_truthy fs ks s.key s.value s.listed s.found s.said)

-- The metadata makes the task one for a human.
abbrev pub IsForHuman : Fields → Type 0
IsForHuman fs =
    (member "slice_type" fs ≡ some (text "HITL"))
    ⊎ ((member "sliceType" fs ≡ some (text "HITL")) ⊎ (member "kind" fs ≡ some (text "human")))

is_literal_iff : (t : String) (v : Option Json) → is_literal t v ≡ true ↔ (v ≡ some (text t))
is_literal_iff t v = (is_literal-text v, λ e. ap (is_literal t) e ∙ eq_refl t)
  where
    is_literal-text : (v : Option Json) → is_literal t v ≡ true → v ≡ some (text t)
    is_literal-text (some (text s)) h = ap (λ x. some (text x)) ((eq_iff s t).0 h)
    is_literal-text (some null) h = cc h
    is_literal-text (some (bool b)) h = cc h
    is_literal-text (some (Json.number n)) h = cc h
    is_literal-text (some (Json.other_number n)) h = cc h
    is_literal-text (some (Json.array vs)) h = cc h
    is_literal-text (some (Json.object gs)) h = cc h
    is_literal-text none h = cc h

or-cases : (a b : Bool) → (a || b ≡ true) ↔ ((a ≡ true) ⊎ (b ≡ true))
or-cases true b = (λ h. inl refl, λ m. refl)
or-cases false b = (λ h. inr h, λ m. elim m [ inl e ↦ cc e | inr e ↦ e ])

pub IsForHuman-iff : (fs : Fields) → is_human_task fs ≡ true ↔ IsForHuman fs
IsForHuman-iff fs =
    let a = is_literal_iff "HITL" (member "slice_type" fs) in
    let b = is_literal_iff "HITL" (member "sliceType" fs) in
    let c = is_literal_iff "human" (member "kind" fs) in
    let x = is_literal "HITL" (member "slice_type" fs) in
    let y = is_literal "HITL" (member "sliceType" fs) in
    let last = or-cases (x || y) (is_literal "human" (member "kind" fs)) in
    let first = or-cases x y in
    (
      λ h. elim (last.0 h) [
        | inl l ↦ elim (first.0 l) [ inl m ↦ inl (a.0 m) | inr m ↦ inr (inl (b.0 m)) ]
        | inr m ↦ inr (inr (c.0 m))
      ],
      λ m. elim m [
        | inl e ↦ last.1 (inl (first.1 (inl (a.1 e))))
        | inr (inl e) ↦ last.1 (inl (first.1 (inr (b.1 e))))
        | inr (inr e) ↦ last.1 (inr (c.1 e))
      ],
    )

-- A failure that a human has to look at.
abbrev pub NeedsHuman : Option FailureReason → Type 0
NeedsHuman reason = (reason ≡ some merge_conflict) ⊎ (reason ≡ some verification_failure)

pub NeedsHuman-iff :
    (reason : Option FailureReason) → is_human_failure reason ≡ true ↔ NeedsHuman reason
NeedsHuman-iff reason =
    (sound reason, λ m. elim m [ inl e ↦ ap is_human_failure e | inr e ↦ ap is_human_failure e ])
  where
    sound : (reason : Option FailureReason) → is_human_failure reason ≡ true → NeedsHuman reason
    sound (some merge_conflict) h = inl refl
    sound (some verification_failure) h = inr refl
    sound none h = cc h
    sound (some _) h = cc h
