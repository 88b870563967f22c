-- ===== src/Contracts/Recovery.antt =====
-- The validators of observations, recovery plans and verification results in src/fieldtrue/domain.py.
use inbar.Prelude.{
  String, Option, none, some, Bool, true, false, not, ◌&&◌, ◌||◌, ◌==◌, ltb, ◌≡◌, ◌≢◌, ◌↔◌, arith,
  length, is_hex, is_identifier, string_discrete, ok, Check, ◌>>◌, raise_if, forbid,
}
use inbar.Domain.{ExecutionAuthority, testbed}
use inbar.Json.{Fields, end, field}
use inbar.Contracts.{
  TestObservation, RecoveryPlan, VerificationResult, ContractError, malformed_field, naive_time,
  finishes_before_start, needs_approval, verifier_is_proposer, abstained_with_success,
  success_without_validity,
}
use inbar.Contracts.Truth.{is_artifact, all_artifacts, is_filled}

abbrev pub is_testbed : ExecutionAuthority → Bool
is_testbed testbed = true
is_testbed _ = false

abbrev is_absent : Option String → Bool
is_absent none = true
is_absent (some h) = false

abbrev hash_option : Option String → Bool
hash_option none = true
hash_option (some h) = is_hex 64 h

abbrev is_end : Fields → Bool
is_end end = true
is_end (field k v fs) = false

unfoldable pub validate_observation : TestObservation → Check ContractError
validate_observation o = do
  raise_if
      (not (
        is_identifier o.incident_id
        && is_identifier o.test_id
        && is_identifier o.outcome_id
        && is_identifier o.executor_id
        && is_artifact o.observation_artifact
        && is_identifier o.safety_envelope_id
        && is_hex 64 o.candidate_sha256
        && is_hex 64 o.safety_envelope_sha256
        && hash_option o.approval_receipt_hash))
      malformed_field
  raise_if (not o.started_at.aware) naive_time
  raise_if (not o.finished_at.aware) naive_time
  raise_if (ltb o.finished_at.instant o.started_at.instant) finishes_before_start
  raise_if (is_testbed o.authority && is_absent o.approval_receipt_hash) needs_approval

unfoldable pub validate_recovery : RecoveryPlan → Check ContractError
validate_recovery p = do
  raise_if
      (not (
        is_identifier p.recovery_id
        && is_identifier p.incident_id
        && is_identifier p.hypothesis_id
        && is_identifier p.proposer_id
        && is_filled p.action
        && is_filled p.target
        && not (is_end p.expected_settled_state)
        && hash_option p.approval_receipt_hash))
      malformed_field
  raise_if (is_testbed p.authority && is_absent p.approval_receipt_hash) needs_approval

-- The patterns of a verification result's fields.
unfoldable pub is_result : VerificationResult → Bool
is_result v =
    is_identifier v.verification_id
    && is_identifier v.recovery_id
    && is_identifier v.verifier_id
    && is_identifier v.proposer_id
    && not (length v.outcome_artifacts == 0)
    && all_artifacts v.outcome_artifacts
    && is_filled v.scope

unfoldable pub validate_result : VerificationResult → Check ContractError
validate_result v = do
  raise_if (not (is_result v)) malformed_field
  forbid (string_discrete v.verifier_id v.proposer_id) verifier_is_proposer
  raise_if (v.abstained && (v.action_valid || v.target_valid || v.settled_success))
      abstained_with_success
  raise_if (v.settled_success && not (v.action_valid && v.target_valid)) success_without_validity

-- A verifier other than the proposer, who claims settled success only with a valid action and a
-- valid target, and nothing where it abstains.
pub record IsHonestResult (v : VerificationResult) : Type 0 where
  pub fields : is_result v ≡ true
  pub independent : v.verifier_id ≢ v.proposer_id
  pub success :
      v.settled_success ≡ true
      → (v.action_valid ≡ true) × (v.target_valid ≡ true) × (v.abstained ≡ false)
  pub abstention : v.abstained ≡ true → (v.action_valid ≡ false) × (v.target_valid ≡ false)

-- A verification result validates exactly if it is honest in that sense.
pub validate_result_iff : (v : VerificationResult) → (validate_result v ≡ ok tt) ↔ IsHonestResult v
unfolding validate_result
validate_result_iff v = (
  λ h. record {
    fields = ground arith;
    independent = ground arith;
    success = λ s. (ground arith, ground arith, ground arith);
    abstention = λ a. (ground arith, ground arith);
  },
  λ r. ground (arith, r.fields, r.independent, r.success, r.abstention),
)
