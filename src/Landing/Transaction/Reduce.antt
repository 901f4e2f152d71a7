-- ===== src/Landing/Transaction/Reduce.antt =====
-- The reduction of a journal, `reduceHubLandingTransaction` of src/hubLandingTransaction.ts.
use mathlib.Core.Option.{some-injective}
use arch_loop.Prelude.{
  ◌≤◌, ◌≡◌, refl, sym, ap, ◌∙◌, String, Option, none, some, List, [], ◌∷◌, leb, keep, or_option, In,
  Bool-cases, inl, inr, arith, ◌⊎◌, or_option_assoc,
}
use arch_loop.Landing.Transaction.{
  Checkpoint, rank, Evidence, TransactionRecord, TransactionState, merge_evidence, of_transaction,
  open_state, advance, advance_all, reduce,
}

-- The records of a journal that count: the first, and those of its transaction.
abbrev pub counted : List TransactionRecord → List TransactionRecord
counted [] = []
counted (r ∷ rs) = r ∷ keep (of_transaction r.transaction_id) rs

rank-injective : (a b : Checkpoint) → rank a ≡ rank b → a ≡ b
rank-injective a b e = ground arith

advance-rank :
    (s : TransactionState) (r : TransactionRecord)
    → (rank s.checkpoint ≤ rank (advance s r).checkpoint)
      × (rank r.checkpoint ≤ rank (advance s r).checkpoint)
      × (((advance s r).checkpoint ≡ s.checkpoint) ⊎ ((advance s r).checkpoint ≡ r.checkpoint))
unfolding advance
advance-rank s r = elim (Bool-cases (leb (rank s.checkpoint) (rank r.checkpoint))) [
  | inl le ↦ rw le (ground arith, omega arith, inr refl)
  | inr gt ↦ rw gt (omega arith, ground arith, inl refl)
]

advance_all-reached :
    (s : TransactionState) (rs : List TransactionRecord)
    → (rank s.checkpoint ≤ rank (advance_all s rs).checkpoint)
      × ((r : TransactionRecord) → In r rs → rank r.checkpoint ≤ rank (advance_all s rs).checkpoint)
      × (((advance_all s rs).checkpoint ≡ s.checkpoint)
          ⊎ ((r : TransactionRecord) × In r rs × ((advance_all s rs).checkpoint ≡ r.checkpoint)))
unfolding advance_all
advance_all-reached s [] = (omega arith, (λ r m. absurd m), inl refl)
advance_all-reached s (r ∷ rs) =
    let (here, there, from) = advance-rank s r in
    let (on, each, last) = advance_all-reached (advance s r) rs in
    (
      omega (arith, here, on),
      (λ x m. elim m [ inl e ↦ rw e (omega (arith, there, on)) | inr n ↦ each x n ]),
      elim last [
        | inr (x, n, e) ↦ inr (x, inr n, e)
        | inl e ↦ elim from [ inl f ↦ inl (e ∙ f) | inr f ↦ inr (r, inl refl, e ∙ f) ]
      ],
    )

-- The checkpoint of a reduced journal is the furthest one of the records that count.
pub reduce_furthest :
    (journal : List TransactionRecord) (s : TransactionState)
    → reduce journal ≡ some s
    → ((r : TransactionRecord) → In r (counted journal) → rank r.checkpoint ≤ rank s.checkpoint)
      × ((r : TransactionRecord) × In r (counted journal) × (s.checkpoint ≡ r.checkpoint))
unfolding reduce
reduce_furthest [] s e = cc
reduce_furthest (r ∷ rs) s e =
    let valid = keep (of_transaction r.transaction_id) rs in
    let first = open_state (r ∷ valid) r in
    let c = some-injective (advance_all first valid) s e in
    rw (← c) (furthest valid (advance_all first valid) (advance_all-reached first valid))
  where
    furthest :
        (valid : List TransactionRecord) (t : TransactionState)
        → (rank r.checkpoint ≤ rank t.checkpoint)
          × ((x : TransactionRecord) → In x valid → rank x.checkpoint ≤ rank t.checkpoint)
          × ((t.checkpoint ≡ r.checkpoint)
              ⊎ ((x : TransactionRecord) × In x valid × (t.checkpoint ≡ x.checkpoint)))
        → ((x : TransactionRecord) → In x (r ∷ valid) → rank x.checkpoint ≤ rank t.checkpoint)
          × ((x : TransactionRecord) × In x (r ∷ valid) × (t.checkpoint ≡ x.checkpoint))
    furthest valid t (first_le, each, reached) = (
      λ x m. elim m [ inl d ↦ rw d first_le | inr n ↦ each x n ],
      elim reached [ inl d ↦ (r, inl refl, d) | inr (x, n, d) ↦ (x, inr n, d) ],
    )

-- The last of the values that are given, if any is.
abbrev pub last_given {ℓ} : {A : Type ℓ} → List (Option A) → Option A
last_given [] = none
last_given (o ∷ os) = or_option (last_given os) o

-- What the records give for one field.
abbrev pub given : {A : Type 0} → (Evidence → Option A) → List TransactionRecord → List (Option A)
given field [] = []
given field (r ∷ rs) = field r.evidence ∷ given field rs

module _ {A : Type 0} (field : Evidence → Option A)
    (merges : (new old : Evidence)
      → field (merge_evidence new old) ≡ or_option (field new) (field old)) where
  advance_all-field :
      (s : TransactionState) (rs : List TransactionRecord)
      → field (advance_all s rs).evidence
        ≡ or_option (last_given (given field rs)) (field s.evidence)
  unfolding advance_all advance
  advance_all-field s [] = refl
  advance_all-field s (r ∷ rs) =
      advance_all-field (advance s r) rs
      ∙ ap (or_option (last_given (given field rs))) (merges r.evidence s.evidence)
      ∙ sym (or_option_assoc (last_given (given field rs)) (field r.evidence) (field s.evidence))

  reduce-field :
      (journal : List TransactionRecord) (s : TransactionState)
      → reduce journal ≡ some s
      → field s.evidence ≡ last_given (given field (counted journal))
  unfolding reduce
  reduce-field [] s e = cc
  reduce-field (r ∷ rs) s e =
      let valid = keep (of_transaction r.transaction_id) rs in
      let first = open_state (r ∷ valid) r in
      rw (← some-injective (advance_all first valid) s e) (advance_all-field first valid)

-- Each object id of a reduced journal is the one that was recorded last among the records that
-- count; a record without one takes none away.
pub reduce_oids :
    (journal : List TransactionRecord) (s : TransactionState)
    → reduce journal ≡ some s
    → let evidence = s.evidence in
      let recorded =
        λ (field : Evidence → Option String). last_given (given field (counted journal)) in
      (evidence.source_oid ≡ recorded (λ v. v.source_oid))
      × (evidence.base_oid ≡ recorded (λ v. v.base_oid))
      × (evidence.candidate_oid ≡ recorded (λ v. v.candidate_oid))
      × (evidence.publish_target_oid ≡ recorded (λ v. v.publish_target_oid))
      × (evidence.fence_oid ≡ recorded (λ v. v.fence_oid))
      × (evidence.receipt_oid ≡ recorded (λ v. v.receipt_oid))
reduce_oids journal s e = (
  reduce-field (λ v. v.source_oid) (λ a b. unfold merge_evidence in refl) journal s e,
  reduce-field (λ v. v.base_oid) (λ a b. unfold merge_evidence in refl) journal s e,
  reduce-field (λ v. v.candidate_oid) (λ a b. unfold merge_evidence in refl) journal s e,
  reduce-field (λ v. v.publish_target_oid) (λ a b. unfold merge_evidence in refl) journal s e,
  reduce-field (λ v. v.fence_oid) (λ a b. unfold merge_evidence in refl) journal s e,
  reduce-field (λ v. v.receipt_oid) (λ a b. unfold merge_evidence in refl) journal s e,
)
