-- ===== src/Validation/Tests.antt =====
-- Runs of the validation contracts at small inputs, and the theorems at those inputs.
use inbar.Prelude.{
  all_distinct, is_subset, ℕ, ◌+◌, ◌*◌, ◌≤◌, String, true, [], ◌∷◌, ◌≡◌, ◌↔◌, refl, ok, err, is_hex,
  is_identifier, string_discrete, ℕ_discrete,
}
use inbar.Domain.{Timestamp, pos, ℤ-discrete}
use inbar.Sorting.{sort, insert, codes_less}
use inbar.Validation.{
  EngineeringValidationArtifact, StepResult, pass, fail, EngineeringValidationStep,
  EngineeringValidationPytestObservation, EngineeringValidationMissionObservation, wrong_result,
}
use inbar.Validation.Steps.{
  well_formed_artifact, validate_step, IsTrueStep, validate_step-IsTrueStep, validate_pytest,
  uncovered, validate_pytest_floor,
}
use inbar.Validation.Observations.{
  difference, sorted_texts, same_texts, registered_blocker, validate_mission, validate_mission_iff,
}
use inbar.Validation.Receipt.{
  EngineeringValidationReceipt, PlanStep, all_scoped, inside_window, all_passed, passes,
  validate_steps, validate_engineering_receipt, validate_engineering_receipt_pass,
}
use inbar.Prelude.{All, List, is_git_object_id}

abbrev artifact : String → EngineeringValidationArtifact
artifact path = record {
  path = path;
  sha256 = "1111111111111111111111111111111111111111111111111111111111111111";
  bytes = 1;
  media_type = "text/plain";
}

abbrev at_time : ℕ → Timestamp
at_time n = record { aware = true; instant = n; offset = pos 0 }

abbrev step : StepResult → EngineeringValidationStep
step result = record {
  step_id = "ruff";
  argv = "ruff" ∷ "check" ∷ [];
  working_directory = ".";
  started_at = at_time 1_000;
  finished_at = at_time 5_400;
  duration_ms = 4;
  expected_exit_code = pos 0;
  observed_exit_code = pos 0;
  result = result;
  stdout = artifact "out.txt";
  stderr = artifact "err.txt";
}

abbrev tests : EngineeringValidationPytestObservation
tests = record {
  junit_xml = artifact "junit.xml";
  coverage_json = artifact "coverage.json";
  tests_passed = 3;
  tests_failed = 0;
  tests_errors = 0;
  covered_lines = 95;
  num_statements = 100;
  covered_branches = 9;
  num_branches = 10;
}

abbrev mission : EngineeringValidationMissionObservation
mission = record {
  mission_check_ids = registered_blocker ∷ "check-a" ∷ [];
  expected_blockers = registered_blocker ∷ [];
  observed_blockers = registered_blocker ∷ [];
  missing_expected_blockers = [];
  unexpected_blockers = [];
}

program : Unit {0}
unfolding validate_engineering_receipt validate_steps passes all_passed inside_window all_scoped
    is_git_object_id validate_step well_formed_artifact validate_pytest validate_mission
    all_distinct is_subset difference sorted_texts same_texts sort insert codes_less is_hex
    is_identifier string_discrete ℕ_discrete ℤ-discrete
program = tt

step_valid : validate_step (step pass) ≡ ok tt
unfolding program
step_valid = refl

-- A step cannot call itself failed against its exit code.
step_refused : validate_step (step fail) ≡ err wrong_result
unfolding program
step_refused = refl

validate_step-IsTrueStep_example : IsTrueStep (step pass)
validate_step-IsTrueStep_example = validate_step-IsTrueStep (step pass) step_valid

tests_valid : validate_pytest tests ≡ ok tt
unfolding program
tests_valid = refl

validate_pytest_floor_example :
    (uncovered tests * 10_000 ≤ (tests.num_statements + tests.num_branches) * 999)
    × (tests.covered_lines + tests.covered_branches + uncovered tests
        ≡ tests.num_statements + tests.num_branches)
    × (2 ≤ tests.num_statements + tests.num_branches)
validate_pytest_floor_example = validate_pytest_floor tests tests_valid

mission_valid : validate_mission mission ≡ ok tt
unfolding program
mission_valid = refl

validate_mission_iff_example :
    ((mission.missing_expected_blockers ≡ []) × (mission.unexpected_blockers ≡ []))
    ↔ (mission.observed_blockers ≡ registered_blocker ∷ [])
validate_mission_iff_example = validate_mission_iff mission mission_valid

abbrev recorded_step : String → String → String → EngineeringValidationStep
recorded_step step_id out_path err_path = record {
  step_id = step_id;
  argv = step_id ∷ [];
  working_directory = ".";
  started_at = at_time 1_000;
  finished_at = at_time 5_400;
  duration_ms = 4;
  expected_exit_code = pos 0;
  observed_exit_code = pos 0;
  result = pass;
  stdout = artifact out_path;
  stderr = artifact err_path;
}

abbrev steps : List EngineeringValidationStep
steps =
    recorded_step "pytest-cov" "evidence/validation/r1/a" "evidence/validation/r1/b"
    ∷ recorded_step "mission-validate" "evidence/validation/r1/c" "evidence/validation/r1/d"
    ∷ []

abbrev scoped_tests : EngineeringValidationPytestObservation
scoped_tests = record {
  junit_xml = artifact "evidence/validation/r1/e";
  coverage_json = artifact "evidence/validation/r1/f";
  tests_passed = 3;
  tests_failed = 0;
  tests_errors = 0;
  covered_lines = 95;
  num_statements = 100;
  covered_branches = 9;
  num_branches = 10;
}

abbrev receipt : StepResult → EngineeringValidationReceipt
receipt result = record {
  receipt_id = "r1";
  subject_commit = "aaaaaaaaaaaaaaaaaaaaaaaaaaaaaaaaaaaaaaaa";
  subject_tree = "aaaaaaaaaaaaaaaaaaaaaaaaaaaaaaaaaaaaaaaa";
  plan_sha256 = "1111111111111111111111111111111111111111111111111111111111111111";
  started_at = at_time 1_000;
  finished_at = at_time 6_000;
  producer_actor_id = "operator";
  platform = "linux";
  machine = "x86_64";
  python_version = "3.12";
  uv_version = "0.7";
  steps = steps;
  pytest_observation = scoped_tests;
  mission_observation = mission;
  result = result;
}

abbrev plan_digest : List PlanStep → String
plan_digest plan = "1111111111111111111111111111111111111111111111111111111111111111"

receipt_valid : validate_engineering_receipt plan_digest (receipt pass) ≡ ok tt
unfolding program
receipt_valid = refl

receipt_refused : validate_engineering_receipt plan_digest (receipt fail) ≡ err wrong_result
unfolding program
receipt_refused = refl

validate_engineering_receipt_pass_example :
    All (λ (s : EngineeringValidationStep). s.observed_exit_code ≡ s.expected_exit_code) steps
    × (scoped_tests.tests_failed ≡ 0)
    × (scoped_tests.tests_errors ≡ 0)
    × (mission.observed_blockers ≡ registered_blocker ∷ [])
validate_engineering_receipt_pass_example =
    validate_engineering_receipt_pass plan_digest (receipt pass) receipt_valid refl
