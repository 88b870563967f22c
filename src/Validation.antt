-- ===== src/Validation.antt =====
-- The engineering-validation contracts of src/fieldtrue/domain.py: what a validation receipt records.
pub mod Steps
pub mod Observations
pub mod Receipt
mod Tests
use inbar.Prelude.{ℕ, String, List}
use inbar.Domain.{Timestamp, ℤ}

pub record EngineeringValidationArtifact : Type 0 where
  pub path : String
  pub sha256 : String
  pub bytes : ℕ
  pub media_type : String

pub data StepResult : Type 0 where
  pass fail : StepResult

pub record EngineeringValidationStep : Type 0 where
  pub step_id : String
  pub argv : List String
  pub working_directory : String
  pub started_at : Timestamp
  pub finished_at : Timestamp
  pub duration_ms : ℕ
  pub expected_exit_code : ℤ
  pub observed_exit_code : ℤ
  pub result : StepResult
  pub stdout : EngineeringValidationArtifact
  pub stderr : EngineeringValidationArtifact

pub record EngineeringValidationPytestObservation : Type 0 where
  pub junit_xml : EngineeringValidationArtifact
  pub coverage_json : EngineeringValidationArtifact
  pub tests_passed : ℕ
  pub tests_failed : ℕ
  pub tests_errors : ℕ
  pub covered_lines : ℕ
  pub num_statements : ℕ
  pub covered_branches : ℕ
  pub num_branches : ℕ

pub record EngineeringValidationMissionObservation : Type 0 where
  pub mission_check_ids : List String
  pub expected_blockers : List String
  pub observed_blockers : List String
  pub missing_expected_blockers : List String
  pub unexpected_blockers : List String

pub data ValidationError : Type 0 where
  malformed_field naive_time finishes_before_start wrong_duration invalid_argv : ValidationError
  wrong_result one_artifact_twice lines_exceed_statements branches_exceed : ValidationError
  below_coverage_floor duplicate_values blocker_not_preserved unregistered_blocker : ValidationError
  wrong_missing wrong_unexpected unrecorded_step outside_window : ValidationError
  outside_receipt wrong_plan : ValidationError
