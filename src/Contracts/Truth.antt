-- ===== src/Contracts/Truth.antt =====
-- The validators of artifacts, reviews, evidence bundles and truth records in src/fieldtrue/domain.py.
use inbar.Prelude.{
  String, List, [], ◌∷◌, map, Mem, dec_mem, Bool, true, false, not, ◌&&◌, ◌==◌, ◌≡◌, ◌≢◌, arith,
  codes, length, is_hex, is_identifier, is_subset, all_distinct, All, string_discrete, ok, Check,
  ◌>>◌, raise_if, forbid, then-eq-ok,
}
use inbar.Contracts.{
  ReviewKind, cause, ambiguity, safe_test, ArtifactRef, ReviewAttestation, EvidenceItem,
  EvidenceBundle, TruthRecord, ContractError, malformed_field, reviewer_is_producer, duplicate_ids,
  naive_time, unregistered_subject,
}

-- `min_length=1`
abbrev pub is_filled : String → Bool
is_filled s = not (length (codes s) == 0)

unfoldable pub all_texts : (String → Bool) → List String → Bool
all_texts p [] = true
all_texts p (x ∷ xs) = p x && all_texts p xs

unfoldable pub is_artifact : ArtifactRef → Bool
is_artifact a =
    is_identifier a.artifact_id
    && is_filled a.uri
    && is_hex 64 a.sha256
    && is_filled a.media_type
    && is_filled a.source_authority
    && is_filled a.license_ref
    && all_texts (is_hex 64) a.lineage_sha256

unfoldable pub all_artifacts : List ArtifactRef → Bool
all_artifacts [] = true
all_artifacts (a ∷ artifacts) = is_artifact a && all_artifacts artifacts

unfoldable pub validate_review : ReviewAttestation → Check ContractError
validate_review r = do
  raise_if
      (not (
        is_identifier r.attestation_id
        && is_identifier r.producer_id
        && is_identifier r.reviewer_id
        && not (length r.subject_ids == 0)
        && all_texts is_identifier r.subject_ids
        && is_filled r.method
        && is_filled r.scope
        && not (length r.evidence_refs == 0)
        && all_artifacts r.evidence_refs))
      malformed_field
  forbid (string_discrete r.producer_id r.reviewer_id) reviewer_is_producer
  raise_if (not (all_distinct r.subject_ids)) duplicate_ids
  raise_if (not r.reviewed_at.aware) naive_time

unfoldable pub validate_reviews : List ReviewAttestation → Check ContractError
validate_reviews [] = ok tt
validate_reviews (r ∷ rs) = do validate_review r; validate_reviews rs

unfoldable pub all_items : List EvidenceItem → Bool
all_items [] = true
all_items (e ∷ es) =
    is_identifier e.evidence_id && is_artifact e.artifact && is_filled e.description && all_items es

unfoldable pub validate_evidence_bundle : EvidenceBundle → Check ContractError
validate_evidence_bundle b = do
  raise_if
      (not (
        is_identifier b.incident_id
        && is_filled b.system_family
        && is_filled b.system_id
        && is_filled b.mission_id
        && not (length b.evidence == 0)
        && all_items b.evidence
        && is_hex 64 b.truth_commitment))
      malformed_field
  raise_if (not (all_distinct (map (λ (e : EvidenceItem). e.evidence_id) b.evidence))) duplicate_ids

-- `groups`
abbrev pub group : TruthRecord → ReviewKind → List String
group t cause = t.mechanism_ids
group t ambiguity = t.competing_hypothesis_ids
group t safe_test = t.safe_discriminating_test_ids

-- The loop over the attestations.
unfoldable pub check_subjects : TruthRecord → List ReviewAttestation → Check ContractError
check_subjects t [] = ok tt
check_subjects t (r ∷ rs) = do
  raise_if (not (is_subset r.subject_ids (group t r.kind))) unregistered_subject
  check_subjects t rs

unfoldable pub validate_truth : TruthRecord → Check ContractError
validate_truth t = do
  raise_if
      (not (
        is_identifier t.incident_id
        && is_hex 64 t.commitment_nonce
        && is_filled t.hardware_family
        && is_filled t.hardware_id
        && is_filled t.fault_family
        && not (length t.mechanism_ids == 0)
        && all_texts is_identifier t.mechanism_ids
        && is_filled t.cause_authority
        && is_filled t.verification_method
        && all_texts is_identifier t.competing_hypothesis_ids
        && all_texts is_identifier t.safe_discriminating_test_ids
        && all_artifacts t.settled_outcome_refs))
      malformed_field
  validate_reviews t.review_attestations
  raise_if (not (all_distinct t.mechanism_ids)) duplicate_ids
  raise_if (not (all_distinct t.competing_hypothesis_ids)) duplicate_ids
  raise_if (not (all_distinct t.safe_discriminating_test_ids)) duplicate_ids
  raise_if
      (not (all_distinct (map (λ (r : ReviewAttestation). r.attestation_id) t.review_attestations)))
      duplicate_ids
  check_subjects t t.review_attestations

-- An attestation by somebody else than the producer, about registered subjects of its kind.
pub record IsIndependentReview (t : TruthRecord) (r : ReviewAttestation) : Type 0 where
  pub independent : r.producer_id ≢ r.reviewer_id
  pub registered : All (λ s. Mem s (group t r.kind)) r.subject_ids

subset-All : (xs ys : List String) → is_subset xs ys ≡ true → All (λ x. Mem x ys) xs
unfolding is_subset
subset-All [] ys h = tt
subset-All (x ∷ xs) ys h =
    elim (dec_mem string_discrete x ys)
        as (λ d.
          (elim d [ yes _ ↦ true | no _ ↦ false ] && is_subset xs ys) ≡ true
          → All (λ z. Mem z ys) (x ∷ xs)) [ yes m ↦ λ k. (m, subset-All xs ys k) | no n ↦ λ k. cc ]
      h

reviews-All :
    (t : TruthRecord) (rs : List ReviewAttestation)
    → validate_reviews rs ≡ ok tt
    → check_subjects t rs ≡ ok tt
    → All (IsIndependentReview t) rs
unfolding validate_reviews validate_review check_subjects
reviews-All t [] h k = tt
reviews-All t (r ∷ rs) h k =
    let (one, others) = then-eq-ok (validate_review r) h in
    let (_, rest) =
      then-eq-ok (raise_if (not (is_subset r.subject_ids (group t r.kind))) unregistered_subject)
        k in
    let apart : r.producer_id ≢ r.reviewer_id = ground arith in
    let subset : is_subset r.subject_ids (group t r.kind) ≡ true = ground arith in
    (
      record { independent = apart; registered = subset-All r.subject_ids (group t r.kind) subset },
      reviews-All t rs others rest,
    )

-- Every review of a truth record that validates is independent of the producer, and every subject
-- it attests is registered in the record, in the group of the review's kind.
pub validate_truth_reviews :
    (t : TruthRecord) → validate_truth t ≡ ok tt → All (IsIndependentReview t) t.review_attestations
unfolding validate_truth
validate_truth_reviews t h =
    let reviews : validate_reviews t.review_attestations ≡ ok tt = ground arith in
    let subjects : check_subjects t t.review_attestations ≡ ok tt = ground arith in
    reviews-All t t.review_attestations reviews subjects
