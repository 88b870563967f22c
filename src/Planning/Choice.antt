-- ===== src/Planning/Choice.antt =====
-- The loop, the sort and the result of `select_discriminating_test` in src/fieldtrue/planning.py.
use inbar.Prelude.{
  String, List, [], ◌∷◌, Bool, true, false, not, ◌&&◌, ◌||◌, is_hex, is_identifier, if◌then◌else◌,
  Result, ok, err, ◌>>=◌, ◌>>◌, raise_if,
}
use inbar.Approvals
use inbar.Planning.{
  Distribution, DiscriminatingTest, SafetyEnvelope, PlannerWeights, SelectedTest, CausalHypothesis,
  HypothesisSet, Floats, PlanningError, no_eligible_test, malformed_selection,
  non_discriminating_test,
}
use inbar.Planning.Information.{values}
use inbar.Planning.Select.{Digests, ApprovalArguments, Scored, eligible, score, precedes}
use inbar.Sorting.{sort}

module _ {Float : Type 0} where
  -- `{item.hypothesis_id: item.prior for item in hypotheses.hypotheses}`, of distinct identifiers
  abbrev pub priors : List (CausalHypothesis Float) → Distribution Float
  priors [] = []
  priors (h ∷ hs) = (h.hypothesis_id, h.prior) ∷ priors hs

module _ {Float : Type 0} (floats : Floats Float) where
  all_probabilities : List Float → Bool
  all_probabilities [] = true
  all_probabilities (v ∷ vs) =
      floats.at_most floats.zero v && floats.at_most v floats.one && all_probabilities vs

  -- `abs(sum(values) - 1.0) > 1e-9`
  far_from_one : List Float → Bool
  far_from_one vs =
      floats.less floats.tolerance (floats.abs (floats.subtract (floats.sum vs) floats.one))

  abbrev is_empty : Distribution Float → Bool
  is_empty [] = true
  is_empty (p ∷ d) = false

  -- `SelectedTest.model_validate`
  unfoldable pub validate_selection : SelectedTest Float → Result PlanningError (SelectedTest Float)
  unfolding all_probabilities far_from_one
  validate_selection s = do
    raise_if
        (not (
          is_identifier s.incident_id
          && is_identifier s.test_id
          && is_identifier s.planner_id
          && is_hex 64 s.candidate_sha256
          && is_hex 64 s.safety_envelope_sha256
          && floats.at_most floats.zero s.expected_information_gain_bits
          && floats.less floats.zero s.denominator
          && floats.at_most floats.zero s.utility
          && all_probabilities (values s.posterior_before)))
        malformed_selection
    raise_if (is_empty s.posterior_before || far_from_one (values s.posterior_before))
        malformed_selection
    ok s

module _ {Float Extension SigningKey : Type 0} (floats : Floats Float)
    (digests : Digests Float Extension) (prims : inbar.Approvals.Primitives Float SigningKey) where
  -- The loop over the candidates: those that are not eligible are passed over.
  unfoldable pub score_all :
      Distribution Float
      → PlannerWeights Float
      → SafetyEnvelope Float
      → ApprovalArguments Float Extension
      → List (DiscriminatingTest Float)
      → Result PlanningError (List (Scored Float))
  score_all posterior weights envelope args [] = ok []
  score_all posterior weights envelope args (c ∷ cs) =
      if eligible floats digests prims c envelope args
      then (do
        s ← score floats digests prims posterior weights c
        rest ← score_all posterior weights envelope args cs
        ok (s ∷ rest))
      else score_all posterior weights envelope args cs

  abbrev pub selection :
      HypothesisSet Float → SafetyEnvelope Float → String → Scored Float → SelectedTest Float
  selection hypotheses envelope planner_id best = record {
    incident_id = hypotheses.incident_id;
    test_id = best.test.test_id;
    expected_information_gain_bits = best.gain;
    denominator = best.denominator;
    utility = floats.divide best.gain best.denominator;
    posterior_before = priors hypotheses.hypotheses;
    planner_id = planner_id;
    candidate_sha256 = digests.test_digest best.test;
    safety_envelope_sha256 = digests.envelope_digest envelope;
  }

  -- What follows the sort.
  unfoldable pub choose :
      HypothesisSet Float
      → SafetyEnvelope Float
      → String
      → List (Scored Float)
      → Result PlanningError (SelectedTest Float)
  choose hypotheses envelope planner_id [] = err no_eligible_test
  choose hypotheses envelope planner_id (best ∷ others) = do
    raise_if (floats.at_most best.gain floats.zero) non_discriminating_test
    validate_selection floats (selection hypotheses envelope planner_id best)

  unfoldable pub select_discriminating_test :
      HypothesisSet Float
      → List (DiscriminatingTest Float)
      → SafetyEnvelope Float
      → String
      → PlannerWeights Float
      → ApprovalArguments Float Extension
      → Result PlanningError (SelectedTest Float)
  select_discriminating_test hypotheses candidates envelope planner_id weights args = do
    scored ← score_all (priors hypotheses.hypotheses) weights envelope args candidates
    choose hypotheses envelope planner_id (sort (precedes floats digests prims) [] scored)
