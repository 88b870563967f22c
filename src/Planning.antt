-- ===== src/Planning.antt =====
-- The data of src/fieldtrue/planning.py: the test contracts of src/fieldtrue/domain.py that it reads,
-- and what it takes from Python's floats.
pub mod Information
pub mod Select
pub mod Choice
pub mod Safety
pub mod Best
mod Tests
use inbar.Prelude.{ℕ, String, Option, none, some, List, Bool, ◌≡◌, ltb, ◌==◌}
use inbar.Domain.{ExecutionAuthority}

-- A dictionary from hypotheses to probabilities, in order of insertion.
abbrev pub Distribution : Type 0 → Type 0
Distribution Float = List (String × Float)

pub record TestOutcomeModel (Float : Type 0) : Type 0 where
  pub outcome_id : String
  pub probability_by_hypothesis : Distribution Float

-- The fields that an authorization covers: all but `approval_receipt_hash`.
pub record TestBody (Float : Type 0) : Type 0 where
  pub test_id : String
  pub description : String
  pub authority : ExecutionAuthority
  pub approved : Bool
  pub cost_units : Float
  pub duration_seconds : Float
  pub risk : Float
  pub preconditions : List String
  pub outcome_model : List (TestOutcomeModel Float)

pub record DiscriminatingTest (Float : Type 0) : Type 0 where
  pub test_body : TestBody Float
  pub open test_body use *
  pub approval_receipt_hash : Option String

pub record EnvelopeBody (Float : Type 0) : Type 0 where
  pub envelope_id : String
  pub authority : ExecutionAuthority
  pub allowed_test_ids : List String
  pub max_risk : Float
  pub satisfied_preconditions : List String

pub record SafetyEnvelope (Float : Type 0) : Type 0 where
  pub envelope_body : EnvelopeBody Float
  pub open envelope_body use *
  pub approval_receipt_hash : Option String

-- The fields of a hypothesis that planning reads.
pub record CausalHypothesis (Float : Type 0) : Type 0 where
  pub hypothesis_id : String
  pub prior : Float

pub record HypothesisSet (Float : Type 0) : Type 0 where
  pub incident_id : String
  pub hypotheses : List (CausalHypothesis Float)

pub record PlannerWeights (Float : Type 0) : Type 0 where
  pub time_weight : Float
  pub risk_weight : Float
  pub denominator_floor : Float

pub record SelectedTest (Float : Type 0) : Type 0 where
  pub incident_id : String
  pub test_id : String
  pub expected_information_gain_bits : Float
  pub denominator : Float
  pub utility : Float
  pub posterior_before : Distribution Float
  pub planner_id : String
  pub candidate_sha256 : String
  pub safety_envelope_sha256 : String

-- Python's float operations and `math.log2`.
pub record Floats (Float : Type 0) : Type 0 where
  pub zero : Float
  pub one : Float
  pub tolerance : Float  -- 1e-9
  pub abs : Float → Float
  pub sum : List Float → Float
  pub add : Float → Float → Float
  pub subtract : Float → Float → Float
  pub multiply : Float → Float → Float
  pub divide : Float → Float → Float
  pub negate : Float → Float
  pub log2 : Float → Float
  pub less : Float → Float → Bool
  pub equal : Float → Float → Bool
  pub at_most : Float → Float → Bool
  pub is_finite : Float → Bool

-- Comparison of floats other than NaN: they stand in one order.
pub record IsOrdered {Float : Type 0} (floats : Floats Float) : Type 0 where
  pub rank : Float → ℕ
  pub less_rank : (a b : Float) → floats.less a b ≡ ltb (rank a) (rank b)
  pub equal_rank : (a b : Float) → floats.equal a b ≡ (rank a == rank b)

pub data PlanningError : Type 0 where
  empty_distribution not_finite_or_negative no_mass : PlanningError
  hypothesis_mismatch missing_hypothesis no_outcome_model unknown_or_duplicate_outcome :
      PlanningError
  no_eligible_test malformed_selection non_discriminating_test : PlanningError
