-- ===== src/Planning/Select.antt =====
-- `_eligible` and `select_discriminating_test` of src/fieldtrue/planning.py.
use inbar.Prelude.{
  is_in, is_subset, String, Option, none, some, List, [], ◌∷◌, Bool, true, false, not, ◌&&◌, ◌||◌,
  string_discrete, if◌then◌else◌, codes, Result, ok, err, ◌>>=◌,
}
use inbar.Domain.{Timestamp, ExecutionAuthority, testbed, ExecutionAuthority-discrete}
use inbar.Sorting.{codes_less}
use inbar.Approvals.{ApprovalReceipt, VerifiedApproval, ApprovalError, test_execution}
use inbar.Approvals
use inbar.Approvals.Verify.{Expected, verify_approval}
use inbar.Planning.{
  Distribution, TestBody, DiscriminatingTest, EnvelopeBody, SafetyEnvelope, PlannerWeights, Floats,
  PlanningError,
}
use inbar.Planning.Information.{expected_information_gain_bits}

-- The parts of the subject that an approval is asked for.
pub data SubjectPart (Float Extension : Type 0) : Type 0 where
  candidate : TestBody Float → SubjectPart Float Extension
  safety_envelope : EnvelopeBody Float → SubjectPart Float Extension
  extension : Extension → SubjectPart Float Extension

abbrev pub Subject : Type 0 → Type 0 → Type 0
Subject Float Extension = List (String × SubjectPart Float Extension)

-- SHA-256 of canonical JSON: of an authorization subject, a test and an envelope.
pub record Digests (Float Extension : Type 0) : Type 0 where
  pub subject_digest : Subject Float Extension → String
  pub test_digest : DiscriminatingTest Float → String
  pub envelope_digest : SafetyEnvelope Float → String

-- The arguments that concern the approval; `approval_time` has been read from the clock where the
-- caller gives none.
pub record ApprovalArguments (Float Extension : Type 0) : Type 0 where
  pub approval_receipt : Option (ApprovalReceipt Float)
  pub expected_approval_signer : Option String
  pub approval_time : Timestamp
  pub approval_subject_extension : List (String × Extension)

-- A candidate with what it is sorted by.
pub record Scored (Float : Type 0) : Type 0 where
  pub negated_utility : Float
  pub test : DiscriminatingTest Float
  pub gain : Float
  pub denominator : Float

module _ {Float Extension : Type 0} where
  -- `subject[key] = part`
  abbrev put :
      String → SubjectPart Float Extension → Subject Float Extension → Subject Float Extension
  put key part [] = (key, part) ∷ []
  put key part ((k, p) ∷ subject) =
      let rest = put key part subject in
      elim (string_discrete k key) [ yes _ ↦ (k, part) ∷ subject | no _ ↦ (k, p) ∷ rest ]

  abbrev update : Subject Float Extension → List (String × Extension) → Subject Float Extension
  update subject [] = subject
  update subject ((k, x) ∷ xs) = update (put k (extension x) subject) xs

  abbrev pub approval_subject :
      TestBody Float → EnvelopeBody Float → List (String × Extension) → Subject Float Extension
  approval_subject test envelope =
      update (("candidate", candidate test) ∷ ("safety_envelope", safety_envelope envelope) ∷ [])

abbrev pub option_equal : Option String → Option String → Bool
option_equal none none = true
option_equal (some a) (some b) = elim (string_discrete a b) [ yes _ ↦ true | no _ ↦ false ]
option_equal _ _ = false

abbrev is_absent : Option String → Bool
is_absent none = true
is_absent (some s) = false

abbrev pub same_authority : ExecutionAuthority → ExecutionAuthority → Bool
same_authority a b = elim (ExecutionAuthority-discrete a b) [ yes _ ↦ true | no _ ↦ false ]

module _ {Float Extension SigningKey : Type 0} (floats : Floats Float)
    (digests : Digests Float Extension) (prims : inbar.Approvals.Primitives Float SigningKey) where
  unfoldable pub ordinary_checks : DiscriminatingTest Float → SafetyEnvelope Float → Bool
  ordinary_checks test envelope =
      test.approved
      && same_authority test.authority envelope.authority
      && is_in test.test_id envelope.allowed_test_ids
      && floats.at_most test.risk envelope.max_risk
      && is_subset test.preconditions envelope.satisfied_preconditions
      && (is_absent envelope.approval_receipt_hash
          || option_equal test.approval_receipt_hash envelope.approval_receipt_hash)

  -- What the approval has to cover.
  abbrev pub expected :
      DiscriminatingTest Float
      → SafetyEnvelope Float
      → List (String × Extension)
      → String
      → Expected Float
  expected test envelope extensions signer = record {
    signer_public_key = signer;
    subject_kind = test_execution;
    subject_sha256 =
        digests.subject_digest (approval_subject test.test_body envelope.envelope_body extensions);
    authority = testbed;
    required_risk = test.risk;
    required_cost_usd = "0";
  }

  -- Both carry the receipt's hash. A refusal is not eligible; the two costs are decimals here.
  abbrev pub covered :
      DiscriminatingTest Float
      → SafetyEnvelope Float
      → Result ApprovalError (VerifiedApproval Float)
      → Bool
  covered test envelope (err e) = false
  covered test envelope (ok v) =
      option_equal test.approval_receipt_hash (some v.receipt_hash)
      && option_equal envelope.approval_receipt_hash (some v.receipt_hash)

  abbrev pub physically_approved :
      DiscriminatingTest Float
      → SafetyEnvelope Float
      → Timestamp
      → List (String × Extension)
      → Option (ApprovalReceipt Float)
      → Option String
      → Bool
  physically_approved test envelope now extensions (some receipt) (some signer) =
      covered test envelope
        (verify_approval prims receipt (expected test envelope extensions signer) now)
  physically_approved test envelope now extensions _ _ = false

  unfoldable pub eligible :
      DiscriminatingTest Float → SafetyEnvelope Float → ApprovalArguments Float Extension → Bool
  unfolding ordinary_checks
  eligible test envelope args =
      ordinary_checks test envelope
      && (not (same_authority test.authority testbed)
          || physically_approved test envelope args.approval_time args.approval_subject_extension
              args.approval_receipt args.expected_approval_signer)

  -- `max(a, b)`
  abbrev larger : Float → Float → Float
  larger a b = if floats.less a b then b else a

  -- The order of the tuples `(-utility, cost_units, risk, test_id)`
  unfoldable pub precedes : Scored Float → Scored Float → Bool
  precedes a b =
      floats.less a.negated_utility b.negated_utility
      || floats.equal a.negated_utility b.negated_utility
        && (floats.less a.test.cost_units b.test.cost_units
            || floats.equal a.test.cost_units b.test.cost_units
              && (floats.less a.test.risk b.test.risk
                  || floats.equal a.test.risk b.test.risk
                    && codes_less (codes a.test.test_id) (codes b.test.test_id)))

  abbrev pub denominator_of : PlannerWeights Float → DiscriminatingTest Float → Float
  denominator_of weights c =
      larger
        (floats.add
          (floats.add c.cost_units (floats.multiply weights.time_weight c.duration_seconds))
          (floats.multiply weights.risk_weight c.risk))
        weights.denominator_floor

  unfoldable pub score :
      Distribution Float
      → PlannerWeights Float
      → DiscriminatingTest Float
      → Result PlanningError (Scored Float)
  score posterior weights c = do
    gain ← expected_information_gain_bits floats posterior c.test_body
    let denominator = denominator_of weights c
    ok (record {
      negated_utility = floats.negate (floats.divide gain denominator);
      test = c;
      gain = gain;
      denominator = denominator;
    })
