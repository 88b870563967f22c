-- ===== src/Contracts.antt =====
-- The evidence, truth and recovery contracts of src/fieldtrue/domain.py.
pub mod Truth
pub mod Recovery
mod Tests
use inbar.Prelude.{ℕ, String, Option, List, Bool}
use inbar.Domain.{Timestamp, ExecutionAuthority}
use inbar.Json.{Fields}

pub data Modality : Type 0 where
  telemetry command_log event_log configuration procedure schematic image : Modality
  video audio nde simulation operator_note : Modality

pub data ReviewKind : Type 0 where
  cause ambiguity safe_test : ReviewKind

pub record ArtifactRef : Type 0 where
  pub artifact_id : String
  pub uri : String
  pub sha256 : String
  pub bytes : ℕ
  pub media_type : String
  pub source_authority : String
  pub clock_domain : Option String
  pub license_ref : String
  pub lineage_sha256 : List String

pub record ReviewAttestation : Type 0 where
  pub attestation_id : String
  pub kind : ReviewKind
  pub producer_id : String
  pub reviewer_id : String
  pub subject_ids : List String
  pub method : String
  pub scope : String
  pub evidence_refs : List ArtifactRef
  pub reviewed_at : Timestamp

pub record EvidenceItem : Type 0 where
  pub evidence_id : String
  pub modality : Modality
  pub artifact : ArtifactRef
  pub observed_start : Option String
  pub observed_end : Option String
  pub description : String

pub record EvidenceBundle : Type 0 where
  pub incident_id : String
  pub system_family : String
  pub system_id : String
  pub mission_id : String
  pub context : Fields
  pub evidence : List EvidenceItem
  pub truth_commitment : String

pub record TruthRecord : Type 0 where
  pub incident_id : String
  pub commitment_nonce : String
  pub hardware_family : String
  pub hardware_id : String
  pub fault_family : String
  pub mechanism_ids : List String
  pub cause_authority : String
  pub verification_method : String
  pub injection_method : Option String
  pub injection_times : List String
  pub competing_hypothesis_ids : List String
  pub safe_discriminating_test_ids : List String
  pub settled_outcome_refs : List ArtifactRef
  pub review_attestations : List ReviewAttestation
  pub notes : List String

pub record TestObservation : Type 0 where
  pub incident_id : String
  pub test_id : String
  pub outcome_id : String
  pub authority : ExecutionAuthority
  pub executor_id : String
  pub started_at : Timestamp
  pub finished_at : Timestamp
  pub observation_artifact : ArtifactRef
  pub safety_envelope_id : String
  pub candidate_sha256 : String
  pub safety_envelope_sha256 : String
  pub approval_receipt_hash : Option String

pub record RecoveryPlan : Type 0 where
  pub recovery_id : String
  pub incident_id : String
  pub hypothesis_id : String
  pub proposer_id : String
  pub action : String
  pub target : String
  pub expected_settled_state : Fields
  pub authority : ExecutionAuthority
  pub approval_receipt_hash : Option String

pub record VerificationResult : Type 0 where
  pub verification_id : String
  pub recovery_id : String
  pub verifier_id : String
  pub proposer_id : String
  pub action_valid : Bool
  pub target_valid : Bool
  pub settled_success : Bool
  pub abstained : Bool
  pub outcome_artifacts : List ArtifactRef
  pub scope : String

pub data ContractError : Type 0 where
  malformed_field reviewer_is_producer duplicate_ids naive_time unregistered_subject : ContractError
  finishes_before_start needs_approval verifier_is_proposer abstained_with_success : ContractError
  success_without_validity : ContractError
