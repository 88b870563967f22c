-- ===== src/Validation/Receipt.antt =====
-- The engineering-validation receipt of src/fieldtrue/domain.py and its validator.
use inbar.Prelude.{
  ℕ, String, List, [], ◌∷◌, ◌++◌, map, Bool, true, false, not, ◌&&◌, ◌||◌, ◌==◌, ltb, ◌≡◌, arith,
  codes, length, is_hex, is_identifier, is_git_object_id, is_in, all_distinct, string_discrete, All,
  ok, Check, ◌>>◌, raise_if, require, then-eq-ok,
}
use inbar.Domain.{Timestamp, ℤ}
use inbar.Validation.{
  StepResult, pass, fail, EngineeringValidationStep, EngineeringValidationPytestObservation,
  EngineeringValidationMissionObservation, ValidationError, malformed_field, naive_time,
  finishes_before_start, duplicate_values, unrecorded_step, outside_window, one_artifact_twice,
  outside_receipt, wrong_plan, wrong_result,
}
use inbar.Validation.Steps.{validate_step, validate_pytest, same_result, validate_step-IsTrueStep}
use inbar.Validation.Observations.{validate_mission, validate_mission_iff, registered_blocker}

pub record EngineeringValidationReceipt : Type 0 where
  pub receipt_id : String
  pub subject_commit : String
  pub subject_tree : String
  pub plan_sha256 : String
  pub started_at : Timestamp
  pub finished_at : Timestamp
  pub producer_actor_id : String
  pub platform : String
  pub machine : String
  pub python_version : String
  pub uv_version : String
  pub steps : List EngineeringValidationStep
  pub pytest_observation : EngineeringValidationPytestObservation
  pub mission_observation : EngineeringValidationMissionObservation
  pub result : StepResult

-- What the plan's hash covers of a step.
pub record PlanStep : Type 0 where
  pub argv : List String
  pub expected_exit_code : ℤ
  pub step_id : String
  pub working_directory : String

abbrev pub plan_step : EngineeringValidationStep → PlanStep
plan_step s = record {
  argv = s.argv;
  expected_exit_code = s.expected_exit_code;
  step_id = s.step_id;
  working_directory = s.working_directory;
}

starts_with : List ℕ → List ℕ → Bool
starts_with [] cs = true
starts_with (p ∷ ps) [] = false
starts_with (p ∷ ps) (c ∷ cs) = (p == c) && starts_with ps cs

unfoldable pub all_scoped : String → List String → Bool
unfolding starts_with
all_scoped receipt_id [] = true
all_scoped receipt_id (path ∷ paths) =
    starts_with (codes "evidence/validation/" ++ codes receipt_id ++ codes "/") (codes path)
    && all_scoped receipt_id paths

abbrev pub artifact_paths : List EngineeringValidationStep → List String
artifact_paths [] = []
artifact_paths (s ∷ ss) = s.stdout.path ∷ s.stderr.path ∷ artifact_paths ss

unfoldable pub inside_window : Timestamp → Timestamp → List EngineeringValidationStep → Bool
inside_window first last [] = true
inside_window first last (s ∷ ss) =
    not (ltb s.started_at.instant first.instant || ltb last.instant s.finished_at.instant)
    && inside_window first last ss

abbrev pub is_pass : StepResult → Bool
is_pass pass = true
is_pass fail = false

unfoldable pub all_passed : List EngineeringValidationStep → Bool
all_passed [] = true
all_passed (s ∷ ss) = is_pass s.result && all_passed ss

abbrev is_nil : List String → Bool
is_nil [] = true
is_nil (x ∷ xs) = false

unfoldable pub passes : EngineeringValidationReceipt → Bool
passes r =
    all_passed r.steps
    && ltb 0 r.pytest_observation.tests_passed
    && (r.pytest_observation.tests_failed == 0)
    && (r.pytest_observation.tests_errors == 0)
    && is_nil r.mission_observation.missing_expected_blockers
    && is_nil r.mission_observation.unexpected_blockers

abbrev result_of : Bool → StepResult
result_of true = pass
result_of false = fail

unfoldable pub validate_steps : List EngineeringValidationStep → Check ValidationError
validate_steps [] = ok tt
validate_steps (s ∷ ss) = do validate_step s; validate_steps ss

-- SHA-256 of the canonical JSON of a plan.
module _ (plan_digest : List PlanStep → String) where
  unfoldable pub validate_engineering_receipt : EngineeringValidationReceipt → Check ValidationError
  validate_engineering_receipt r = do
    raise_if
        (not (
          is_identifier r.receipt_id
          && is_git_object_id r.subject_commit
          && is_git_object_id r.subject_tree
          && is_hex 64 r.plan_sha256
          && is_identifier r.producer_actor_id
          && not (length (codes r.platform) == 0)
          && not (length (codes r.machine) == 0)
          && not (length (codes r.python_version) == 0)
          && not (length (codes r.uv_version) == 0)
          && not (length r.steps == 0)))
        malformed_field
    validate_steps r.steps
    validate_pytest r.pytest_observation
    validate_mission r.mission_observation
    raise_if (not r.started_at.aware) naive_time
    raise_if (not r.finished_at.aware) naive_time
    raise_if (ltb r.finished_at.instant r.started_at.instant) finishes_before_start
    let step_ids = map (λ (s : EngineeringValidationStep). s.step_id) r.steps
    raise_if (not (all_distinct step_ids)) duplicate_values
    raise_if (not (is_in "pytest-cov" step_ids && is_in "mission-validate" step_ids))
        unrecorded_step
    raise_if (not (inside_window r.started_at r.finished_at r.steps)) outside_window
    let paths =
        artifact_paths r.steps
        ++ r.pytest_observation.junit_xml.path ∷ r.pytest_observation.coverage_json.path ∷ []
    raise_if (not (all_distinct paths)) one_artifact_twice
    raise_if (not (all_scoped r.receipt_id paths)) outside_receipt
    require (string_discrete r.plan_sha256 (plan_digest (map plan_step r.steps))) wrong_plan
    raise_if (not (same_result r.result (result_of (passes r)))) wrong_result

  passed-All :
      (ss : List EngineeringValidationStep)
      → validate_steps ss ≡ ok tt
      → all_passed ss ≡ true
      → All (λ s. s.observed_exit_code ≡ s.expected_exit_code) ss
  unfolding validate_steps all_passed
  passed-All [] h p = tt
  passed-All (s ∷ ss) h p =
      let (one, rest) = then-eq-ok (validate_step s) h in
      let said : s.result ≡ pass = ground arith in
      let others : all_passed ss ≡ true = ground arith in
      ((validate_step-IsTrueStep s one).passed_by_exit_code.0 said, passed-All ss rest others)

  -- A receipt that validates and says pass means it: every step ended with the exit code it had to,
  -- no test failed or ended in an error, and the mission run observed the registered blocker and
  -- no other.
  pub validate_engineering_receipt_pass :
      (r : EngineeringValidationReceipt)
      → validate_engineering_receipt r ≡ ok tt
      → r.result ≡ pass
      → All (λ s. s.observed_exit_code ≡ s.expected_exit_code) r.steps
        × (r.pytest_observation.tests_failed ≡ 0)
        × (r.pytest_observation.tests_errors ≡ 0)
        × (r.mission_observation.observed_blockers ≡ registered_blocker ∷ [])
  unfolding validate_engineering_receipt passes
  validate_engineering_receipt_pass r h said =
      let steps : validate_steps r.steps ≡ ok tt = ground arith in
      let mission : validate_mission r.mission_observation ≡ ok tt = ground arith in
      let passed : passes r ≡ true = ground arith in
      let all : all_passed r.steps ≡ true = ground arith in
      let missing : r.mission_observation.missing_expected_blockers ≡ [] = ground arith in
      let unexpected : r.mission_observation.unexpected_blockers ≡ [] = ground arith in
      (
        passed-All r.steps steps all,
        ground arith,
        ground arith,
        (validate_mission_iff r.mission_observation mission).0 (missing, unexpected),
      )
