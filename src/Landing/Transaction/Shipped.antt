-- ===== src/Landing/Transaction/Shipped.antt =====
-- `deriveHubLandingShipped` of src/hubLandingTransaction.ts.
use arch_loop.Prelude.{
  String, Option, none, Bool, true, false, ◌&&◌, not, if◌then◌else◌, ◌≡◌, ◌↔◌, ◌⊎◌, inl, inr, arith,
  is_truthy, same_text, same_text_iff,
}
use arch_loop.Landing.Queue.Marks.{PublishPolicy, required}
use arch_loop.Landing.Transaction.{is_git_oid}

-- An optional flag that is missing counts as false: the code tests it for truth or `=== true`.
pub record ShippedInput : Type 0 where
  pub publish_policy : PublishPolicy
  pub task_closed : Bool
  pub transaction_id : Option String
  pub closed_transaction_id : Option String
  pub candidate_oid : Option String
  pub closed_candidate_oid : Option String
  pub publish_target_oid : Option String
  pub legacy_closed_grandfathered : Bool
  pub candidate_contained_in_target : Bool
  pub remote_publication_proven : Bool

pub data Reason : Type 0 where
  legacy_closed_grandfathered task_not_closed transaction_metadata_mismatch : Reason
  missing_candidate_oid candidate_metadata_mismatch : Reason
  publish_target_does_not_contain_candidate remote_publication_pending : Reason
  verified_landing_matching_closure_and_remote_publication : Reason
  verified_landing_and_matching_closure : Reason

pub record ShippedProof : Type 0 where
  pub shipped : Bool
  pub reason : Reason
  pub transaction_id : Option String
  pub candidate_oid : Option String
  pub publish_target_oid : Option String

abbrev is_required : PublishPolicy → Bool
is_required required = true
is_required _ = false

abbrev proof_of : ShippedInput → Bool → Reason → ShippedProof
proof_of i shipped reason = record {
  shipped = shipped;
  reason = reason;
  transaction_id = i.transaction_id;
  candidate_oid = i.candidate_oid;
  publish_target_oid = i.publish_target_oid;
}

-- The result for a closed task whose transaction and candidate match and are in the target.
by_policy : ShippedInput → ShippedProof
by_policy i =
    if is_required i.publish_policy
    then if i.remote_publication_proven
      then proof_of i true verified_landing_matching_closure_and_remote_publication
      else proof_of i false remote_publication_pending
    else proof_of i true verified_landing_and_matching_closure

unfoldable pub derive_shipped : ShippedInput → ShippedProof
unfolding by_policy
derive_shipped i =
    if i.legacy_closed_grandfathered && i.task_closed
    then proof_of i true legacy_closed_grandfathered
    else if not i.task_closed
    then proof_of i false task_not_closed
    else if not (is_truthy i.transaction_id && same_text i.closed_transaction_id i.transaction_id)
    then proof_of i false transaction_metadata_mismatch
    else if not (is_git_oid i.candidate_oid)
    then record (proof_of i false missing_candidate_oid) { candidate_oid = none }
    else if not (same_text i.closed_candidate_oid i.candidate_oid)
    then proof_of i false candidate_metadata_mismatch
    else if not i.candidate_contained_in_target
        && not (same_text i.publish_target_oid i.candidate_oid)
    then proof_of i false publish_target_does_not_contain_candidate
    else by_policy i

-- What a verified landing is: the closure names the transaction and its candidate, a commit that
-- the target contains, and a required remote publication is proven.
pub record IsVerifiedLanding (i : ShippedInput) : Type 0 where
  pub named : is_truthy i.transaction_id ≡ true
  pub same_transaction : i.closed_transaction_id ≡ i.transaction_id
  pub is_oid : is_git_oid i.candidate_oid ≡ true
  pub same_candidate : i.closed_candidate_oid ≡ i.candidate_oid
  pub contained :
      (i.candidate_contained_in_target ≡ true) ⊎ (i.publish_target_oid ≡ i.candidate_oid)
  pub published : i.publish_policy ≡ required → i.remote_publication_proven ≡ true

derive_shipped_sound :
    (i : ShippedInput)
    → (derive_shipped i).shipped ≡ true
    → (i.task_closed ≡ true) × ((i.legacy_closed_grandfathered ≡ true) ⊎ IsVerifiedLanding i)
unfolding derive_shipped
derive_shipped_sound i h = ground (
  arith,
  same_text_iff i.closed_transaction_id i.transaction_id,
  same_text_iff i.closed_candidate_oid i.candidate_oid,
  same_text_iff i.publish_target_oid i.candidate_oid,
)

verified-shipped :
    (i : ShippedInput)
    → i.task_closed ≡ true
    → IsVerifiedLanding i
    → (derive_shipped i).shipped ≡ true
unfolding derive_shipped
verified-shipped i c v = ground (
  arith,
  same_text_iff i.closed_transaction_id i.transaction_id,
  same_text_iff i.closed_candidate_oid i.candidate_oid,
  same_text_iff i.publish_target_oid i.candidate_oid,
  v.published,
)

-- A task counts as shipped exactly when it is closed, and either is grandfathered or has a
-- verified landing.
pub derive_shipped_iff :
    (i : ShippedInput)
    → ((derive_shipped i).shipped ≡ true)
      ↔ ((i.task_closed ≡ true) × ((i.legacy_closed_grandfathered ≡ true) ⊎ IsVerifiedLanding i))
derive_shipped_iff i = (
  derive_shipped_sound i,
  λ h. elim h.1 [
    | inl legacy ↦ unfold derive_shipped in rw (legacy, h.0)
    | inr verified ↦ verified-shipped i h.0 verified
  ],
)
