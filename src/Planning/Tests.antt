-- ===== src/Planning/Tests.antt =====
-- Runs of the planner at small inputs, and the theorems at those inputs.
use inbar.Prelude.{
  is_subset, ℕ, ◌+◌, ◌-◌, ◌*◌, String, some, List, [], ◌∷◌, ◌≡◌, refl, true, false, ok, err, ltb,
  leb, ◌==◌, is_hex, is_identifier, string_discrete,
}
use inbar.Domain.{pos, Timestamp, replay, testbed, ExecutionAuthority, ExecutionAuthority-discrete}
use inbar.Approvals.{ApprovalReceipt, ReceiptBody, test_execution, ApprovalSubjectKind-discrete}
use inbar.Approvals
use inbar.Approvals.Verify.{verify_approval}
use inbar.Planning.{
  Distribution, DiscriminatingTest, SafetyEnvelope, PlannerWeights, HypothesisSet, SelectedTest,
  Floats, IsOrdered, no_eligible_test,
}
use inbar.Planning.Information.{
  probability_of, normalized, entropy_bits, joint, posterior_entropy,
  expected_information_gain_bits, posterior_after_observation, posterior_after_observation-ids,
  hypothesis_ids,
}
use inbar.Planning.Select.{
  Digests, ApprovalArguments, Scored, ordinary_checks, eligible, precedes, score,
}
use inbar.Sorting.{codes_less, insert, sort}
use inbar.Planning.Choice.{
  score_all, choose, validate_selection, select_discriminating_test, selection,
}
use inbar.Planning.Best.{IsBest, select-IsBest, select_discriminating_test_refuses}
use inbar.Prelude.{dec_lt, dec_le}

abbrev ones : String
ones = "1111111111111111111111111111111111111111111111111111111111111111"

-- Numbers stand for floats here: one is 2, quotients are not taken, and `v * log2 v` is `v * (2 - v)`.
abbrev total : List ℕ → ℕ
total [] = 0
total (n ∷ ns) = n + total ns

abbrev toy : Floats ℕ
toy = record {
  zero = 0;
  one = 2;
  tolerance = 0;
  abs = λ a. a;
  sum = total;
  add = λ a b. a + b;
  subtract = λ a b. a - b;
  multiply = λ a b. a * b;
  divide = λ a b. a;
  negate = λ a. a;
  log2 = λ a. 2 - a;
  less = ltb;
  equal = λ a b. a == b;
  at_most = leb;
  is_finite = λ a. true;
}

toy-IsOrdered : IsOrdered toy
toy-IsOrdered = record { rank = λ a. a; less_rank = λ a b. refl; equal_rank = λ a b. refl }

abbrev digests : Digests ℕ Unit
digests = record {
  subject_digest = λ s. ones;
  test_digest = λ t. ones;
  envelope_digest = λ e. ones;
}

abbrev prims : inbar.Approvals.Primitives ℕ Unit
prims = record {
  receipt_digest = λ b. ones;
  public_key = λ k. ones;
  sign = λ k m. ones;
  verify = λ k m s. true;
  greater = λ a b. ltb b a;
  is_unit = λ a. leb a 2;
  decimal_greater = λ a b. some false;
}

abbrev at_time : ℕ → Timestamp
at_time n = record { aware = true; instant = n; offset = pos 0 }

abbrev receipt : ApprovalReceipt ℕ
receipt = record {
  receipt_body = record {
    approval_id = "approval-1";
    issuer_id = "owner";
    subject_kind = test_execution;
    subject_sha256 = ones;
    authority = testbed;
    scope = "one test";
    max_risk = 1;
    max_cost_usd = "5";
    not_before = at_time 10;
    expires_at = at_time 20;
    nonce = ones;
    signer_public_key = ones;
  };
  receipt_hash = ones;
  signature = ones;
}

-- Its two outcomes tell the two hypotheses apart.
abbrev test : ExecutionAuthority → String → DiscriminatingTest ℕ
test authority test_id = record {
  test_body = record {
    test_id = test_id;
    description = "a test";
    authority = authority;
    approved = true;
    cost_units = 1;
    duration_seconds = 1;
    risk = 1;
    preconditions = [];
    outcome_model =
        record { outcome_id = "on"; probability_by_hypothesis = ("h1", 2) ∷ ("h2", 0) ∷ [] }
        ∷ record { outcome_id = "off"; probability_by_hypothesis = ("h1", 0) ∷ ("h2", 2) ∷ [] }
        ∷ [];
  };
  approval_receipt_hash = some ones;
}

abbrev envelope : ExecutionAuthority → SafetyEnvelope ℕ
envelope authority = record {
  envelope_body = record {
    envelope_id = "envelope-1";
    authority = authority;
    allowed_test_ids = "test-a" ∷ "test-b" ∷ [];
    max_risk = 1;
    satisfied_preconditions = [];
  };
  approval_receipt_hash = some ones;
}

abbrev approval : ApprovalArguments ℕ Unit
approval = record {
  approval_receipt = some receipt;
  expected_approval_signer = some ones;
  approval_time = at_time 15;
  approval_subject_extension = [];
}

abbrev weights : PlannerWeights ℕ
weights = record { time_weight = 1; risk_weight = 1; denominator_floor = 1 }

abbrev posterior : Distribution ℕ
posterior = ("h1", 1) ∷ ("h2", 1) ∷ []

abbrev hypotheses : HypothesisSet ℕ
hypotheses = record {
  incident_id = "incident-1";
  hypotheses =
      record { hypothesis_id = "h1"; prior = 1 } ∷ record { hypothesis_id = "h2"; prior = 1 } ∷ [];
}

program : Unit {0}
unfolding select_discriminating_test choose validate_selection score_all score eligible
    ordinary_checks verify_approval expected_information_gain_bits posterior_entropy entropy_bits
    normalized joint probability_of posterior_after_observation is_subset precedes codes_less insert
    sort is_hex is_identifier string_discrete ExecutionAuthority-discrete
    ApprovalSubjectKind-discrete dec_lt dec_le
program = tt

abbrev best : Scored ℕ
best = record { negated_utility = 2; test = test replay "test-a"; gain = 2; denominator = 3 }

abbrev chosen : SelectedTest ℕ
chosen = selection toy digests prims hypotheses (envelope replay) "planner-1" best

abbrev candidates : List (DiscriminatingTest ℕ)
candidates = test replay "test-b" ∷ test replay "test-a" ∷ test testbed "test-c" ∷ []

-- Of two candidates that tie, the identifier decides; the third is not eligible.
selected :
    select_discriminating_test toy digests prims hypotheses candidates
      (envelope replay)
      "planner-1"
      weights
      approval
    ≡ ok chosen
unfolding program
selected = refl

select-IsBest_example :
    (t : Scored ℕ) × IsBest toy digests prims hypotheses weights
      (envelope replay)
      approval
      candidates
      t
    × (chosen ≡ selection toy digests prims hypotheses (envelope replay) "planner-1" t)
select-IsBest_example =
    select-IsBest toy digests prims hypotheses weights (envelope replay) approval toy-IsOrdered
      candidates "planner-1" chosen selected

not_eligible : eligible toy digests prims (test testbed "test-c") (envelope replay) approval ≡ false
unfolding program
not_eligible = refl

select_discriminating_test_refuses_example :
    select_discriminating_test toy digests prims hypotheses
      (test testbed "test-c" ∷ [])
      (envelope replay)
      "planner-1"
      weights
      approval
    ≡ err no_eligible_test
select_discriminating_test_refuses_example =
    select_discriminating_test_refuses toy digests prims hypotheses weights (envelope replay)
      approval (test testbed "test-c" ∷ []) "planner-1" (not_eligible, tt)

updated :
    posterior_after_observation toy posterior (test replay "test-a").test_body "on"
    ≡ ok (("h1", 2) ∷ ("h2", 0) ∷ [])
unfolding program
updated = refl

posterior_after_observation-ids_example :
    hypothesis_ids {Float = ℕ} (("h1", 2) ∷ ("h2", 0) ∷ []) ≡ hypothesis_ids posterior
posterior_after_observation-ids_example =
    posterior_after_observation-ids toy posterior (test replay "test-a").test_body "on"
      (("h1", 2) ∷ ("h2", 0) ∷ []) updated
