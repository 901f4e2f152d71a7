-- ===== src/Landing/Transaction/Readable.antt =====
-- What can be read from a journal file of src/hubLandingTransaction.ts.
use mathlib.Core.Option.{some_inj}
use arch_loop.Prelude.{
  String, Option, none, some, List, [], ◌∷◌, true, ◌≡◌, refl, sym, ap, ◌∙◌, All, is_truthy,
  Bool-cases, inl, inr,
}
use arch_loop.Prelude.Trim.{trim}
use arch_loop.Prelude.Json.{Json, text, array, object, Fields, member, is_literal}
use arch_loop.Landing.Transaction.{Checkpoint, Evidence, TransactionRecord}
use arch_loop.Landing.Transaction.Journal.{
  filled, trimmed_text, checkpoint_of, read_evidence, oids_are_valid, with_valid_oids, record_from,
  read_fields, fields_of, parse_record, found, read_journal,
}

-- A record that names its transaction, its task and its time, and whose object ids are well formed.
pub record IsReadable (r : TransactionRecord) : Type 0 where
  pub has_transaction : is_truthy (some r.transaction_id) ≡ true
  pub has_task : is_truthy (some r.task_id) ≡ true
  pub has_time : is_truthy (some r.created_at) ≡ true
  pub valid_oids : oids_are_valid r.evidence ≡ true

filled-truthy : (t : String) {s : String} → filled t ≡ some s → is_truthy (some s) ≡ true
unfolding filled
filled-truthy String.[] e = cc
filled-truthy (String.◌∷◌ c t) e = ap is_truthy (sym e)

trimmed_text-truthy :
    (v : Option Json) {s : String} → trimmed_text v ≡ some s → is_truthy (some s) ≡ true
unfolding trimmed_text
trimmed_text-truthy (some (text t)) e = filled-truthy (trim t) e
trimmed_text-truthy none e = cc
trimmed_text-truthy (some Json.null) e = cc
trimmed_text-truthy (some (Json.bool b)) e = cc
trimmed_text-truthy (some (Json.number n)) e = cc
trimmed_text-truthy (some (Json.other_number t)) e = cc
trimmed_text-truthy (some (array vs)) e = cc
trimmed_text-truthy (some (object fs)) e = cc

with_valid_oids-same :
    (x r : TransactionRecord)
    → with_valid_oids x ≡ some r
    → (x ≡ r) × (oids_are_valid r.evidence ≡ true)
unfolding with_valid_oids
with_valid_oids-same x r e = elim (Bool-cases (oids_are_valid x.evidence)) [
  | inl good ↦
      let same : x ≡ r = some_inj.0 (rw good at e) in
      (same, ap (λ y. oids_are_valid y.evidence) (sym same) ∙ good)
  | inr bad ↦ cc (rw bad at e)
]

-- The text is missing or not empty.
abbrev IsFilled : Option String → Type 0
IsFilled o = (s : String) → o ≡ some s → is_truthy (some s) ≡ true

record_from-IsReadable :
    (c : Option Checkpoint) (transaction task time : Option String) (evidence : Evidence)
    (r : TransactionRecord)
    → IsFilled transaction
    → IsFilled task
    → IsFilled time
    → record_from c transaction task time evidence ≡ some r
    → IsReadable r
unfolding record_from
record_from-IsReadable (some c) (some a) (some b) (some t) evidence r f g h e =
    let x : TransactionRecord = record {
      checkpoint = c;
      transaction_id = a;
      task_id = b;
      created_at = t;
      evidence = evidence;
    } in
    let (same, good) = with_valid_oids-same x r e in
    record {
      has_transaction = ap (λ x. is_truthy (some x.transaction_id)) (sym same) ∙ f a refl;
      has_task = ap (λ x. is_truthy (some x.task_id)) (sym same) ∙ g b refl;
      has_time = ap (λ x. is_truthy (some x.created_at)) (sym same) ∙ h t refl;
      valid_oids = good;
    }
record_from-IsReadable none a b t evidence r f g h e = cc
record_from-IsReadable (some c) none b t evidence r f g h e = cc
record_from-IsReadable (some c) (some a) none t evidence r f g h e = cc
record_from-IsReadable (some c) (some a) (some b) none evidence r f g h e = cc

read_fields-IsReadable :
    (fs : Fields) (r : TransactionRecord) → read_fields fs ≡ some r → IsReadable r
unfolding read_fields
read_fields-IsReadable fs r e =
    record_from-IsReadable (checkpoint_of (member "checkpoint" fs))
      (trimmed_text (member "transactionId" fs)) (trimmed_text (member "taskId" fs))
      (trimmed_text (member "createdAt" fs)) (read_evidence fs) r
      (λ s. trimmed_text-truthy (member "transactionId" fs))
      (λ s. trimmed_text-truthy (member "taskId" fs))
      (λ s. trimmed_text-truthy (member "createdAt" fs)) e

parse_record-IsReadable :
    (v : Json) (r : TransactionRecord) → parse_record v ≡ some r → IsReadable r
unfolding parse_record
parse_record-IsReadable v r e =
    elim (Bool-cases (is_literal "checkpoint" (member "type" (fields_of v)))) [
      | inl y ↦ read_fields-IsReadable (fields_of v) r (rw y at e)
      | inr y ↦ cc (rw y at e)
    ]

found-IsReadable :
    (o : Option TransactionRecord) (rest : List TransactionRecord)
    → ((r : TransactionRecord) → o ≡ some r → IsReadable r)
    → All IsReadable rest
    → All IsReadable (found o rest)
found-IsReadable none rest f h = h
found-IsReadable (some r) rest f h = (f r refl, h)

-- Whatever a journal file holds, every record that is read from it names its transaction, its task
-- and its time, and has well formed object ids or none.
pub read_journal-IsReadable : (lines : List (Option Json)) → All IsReadable (read_journal lines)
unfolding read_journal
read_journal-IsReadable [] = tt
read_journal-IsReadable (none ∷ lines) = read_journal-IsReadable lines
read_journal-IsReadable (some v ∷ lines) =
    found-IsReadable (parse_record v) (read_journal lines) (parse_record-IsReadable v)
      (read_journal-IsReadable lines)
