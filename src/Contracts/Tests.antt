-- ===== src/Contracts/Tests.antt =====
-- Runs of the contracts at small inputs, and the theorems at those inputs.
use inbar.Domain.{pos}
use inbar.Prelude.{
  String, none, [], ◌∷◌, ◌≡◌, ◌↔◌, refl, Bool, true, false, All, ok, err, is_hex, is_identifier,
  is_subset, all_distinct, string_discrete,
}
use inbar.Contracts.{
  ArtifactRef, ReviewAttestation, cause, TruthRecord, VerificationResult, unregistered_subject,
  abstained_with_success,
}
use inbar.Contracts.Truth.{
  all_texts, is_artifact, all_artifacts, validate_review, validate_reviews, check_subjects,
  validate_truth, IsIndependentReview, validate_truth_reviews,
}
use inbar.Contracts.Recovery.{is_result, validate_result, IsHonestResult, validate_result_iff}

abbrev ones : String
ones = "1111111111111111111111111111111111111111111111111111111111111111"

abbrev artifact : ArtifactRef
artifact = record {
  artifact_id = "artifact-1";
  uri = "data/run.csv";
  sha256 = ones;
  bytes = 1;
  media_type = "text/csv";
  source_authority = "testbed";
  clock_domain = none;
  license_ref = "public";
  lineage_sha256 = [];
}

abbrev review : String → ReviewAttestation
review subject = record {
  attestation_id = "review-1";
  kind = cause;
  producer_id = "producer";
  reviewer_id = "reviewer";
  subject_ids = subject ∷ [];
  method = "inspection";
  scope = "one incident";
  evidence_refs = artifact ∷ [];
  reviewed_at = record { aware = true; instant = 10; offset = pos 0 };
}

abbrev truth : String → TruthRecord
truth subject = record {
  incident_id = "incident-1";
  commitment_nonce = ones;
  hardware_family = "battery";
  hardware_id = "battery-1";
  fault_family = "short";
  mechanism_ids = "mechanism-1" ∷ [];
  cause_authority = "injection";
  verification_method = "log";
  injection_method = none;
  injection_times = [];
  competing_hypothesis_ids = "other-1" ∷ [];
  safe_discriminating_test_ids = [];
  settled_outcome_refs = [];
  review_attestations = review subject ∷ [];
  notes = [];
}

abbrev result : Bool → VerificationResult
result abstained = record {
  verification_id = "verification-1";
  recovery_id = "recovery-1";
  verifier_id = "verifier";
  proposer_id = "proposer";
  action_valid = true;
  target_valid = true;
  settled_success = true;
  abstained = abstained;
  outcome_artifacts = artifact ∷ [];
  scope = "one recovery";
}

program : Unit {0}
unfolding all_texts is_artifact all_artifacts validate_review validate_reviews check_subjects
    validate_truth is_result validate_result is_hex is_identifier is_subset all_distinct
    string_discrete
program = tt

truth_valid : validate_truth (truth "mechanism-1") ≡ ok tt
unfolding program
truth_valid = refl

-- A review of the cause cannot name a competing hypothesis.
truth_refused : validate_truth (truth "other-1") ≡ err unregistered_subject
unfolding program
truth_refused = refl

result_valid : validate_result (result false) ≡ ok tt
unfolding program
result_valid = refl

result_refused : validate_result (result true) ≡ err abstained_with_success
unfolding program
result_refused = refl

validate_truth_reviews_example :
    All (IsIndependentReview (truth "mechanism-1")) (review "mechanism-1" ∷ [])
validate_truth_reviews_example = validate_truth_reviews (truth "mechanism-1") truth_valid

validate_result_iff_example :
    (validate_result (result false) ≡ ok tt) ↔ IsHonestResult (result false)
validate_result_iff_example = validate_result_iff (result false)
