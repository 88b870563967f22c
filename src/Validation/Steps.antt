-- ===== src/Validation/Steps.antt =====
-- The validators of an engineering-validation step and of a pytest observation in
-- src/fieldtrue/domain.py.
use inbar.Prelude.{
  ℕ, ◌+◌, ◌-◌, ◌*◌, ◌≤◌, String, List, [], ◌∷◌, Bool, true, false, not, ◌&&◌, ◌||◌, ◌==◌, ltb, ◌≡◌,
  ◌≢◌, ◌↔◌, refl, arith, codes, length, is_hex, is_identifier, string_discrete, ok, Check, ◌>>◌,
  raise_if, require, forbid,
}
use inbar.Domain.{ℤ, ℤ-discrete}
use inbar.Validation.{
  EngineeringValidationArtifact, StepResult, pass, fail, EngineeringValidationStep,
  EngineeringValidationPytestObservation, ValidationError, malformed_field, naive_time,
  finishes_before_start, wrong_duration, invalid_argv, wrong_result, one_artifact_twice,
  lines_exceed_statements, branches_exceed, below_coverage_floor,
}

-- The patterns of an artifact's fields but its path.
unfoldable pub well_formed_artifact : EngineeringValidationArtifact → Bool
well_formed_artifact a = is_hex 64 a.sha256 && not (length (codes a.media_type) == 0)

has_nul : List ℕ → Bool
has_nul [] = false
has_nul (c ∷ cs) = (c == 0) || has_nul cs

any_nul : List String → Bool
unfolding has_nul
any_nul [] = false
any_nul (a ∷ as_given) = has_nul (codes a) || any_nul as_given

-- `not self.argv[0]`; there is at least one argument.
abbrev no_command : List String → Bool
no_command [] = true
no_command (a ∷ _) = length (codes a) == 0

-- `abs(a - b)`
abbrev pub distance : ℕ → ℕ → ℕ
distance a b = (a - b) + (b - a)

-- `"pass" if self.observed_exit_code == self.expected_exit_code else "fail"`
abbrev pub expected_result : ℤ → ℤ → StepResult
expected_result observed expected = elim (ℤ-discrete observed expected) [
  | yes _ ↦ pass
  | no _ ↦ fail
]

abbrev pub same_result : StepResult → StepResult → Bool
same_result pass pass = true
same_result fail fail = true
same_result _ _ = false

unfoldable pub validate_step : EngineeringValidationStep → Check ValidationError
unfolding any_nul
validate_step s = do
  raise_if
      (not (
        is_identifier s.step_id
        && not (length s.argv == 0)
        && well_formed_artifact s.stdout
        && well_formed_artifact s.stderr))
      malformed_field
  require (string_discrete s.working_directory ".") malformed_field
  raise_if (not s.started_at.aware) naive_time
  raise_if (not s.finished_at.aware) naive_time
  raise_if (ltb s.finished_at.instant s.started_at.instant) finishes_before_start
  raise_if
      (ltb 1_000 (distance (s.finished_at.instant - s.started_at.instant) (s.duration_ms * 1_000)))
      wrong_duration
  raise_if (no_command s.argv || any_nul s.argv) invalid_argv
  raise_if (not (same_result s.result (expected_result s.observed_exit_code s.expected_exit_code)))
      wrong_result
  forbid (string_discrete s.stdout.path s.stderr.path) one_artifact_twice

-- What a recorded step cannot misstate.
pub record IsTrueStep (s : EngineeringValidationStep) : Type 0 where
  pub passed_by_exit_code : (s.result ≡ pass) ↔ (s.observed_exit_code ≡ s.expected_exit_code)
  pub not_before_start : s.started_at.instant ≤ s.finished_at.instant
  pub not_too_long : s.started_at.instant + s.duration_ms * 1_000 ≤ s.finished_at.instant + 1_000
  pub not_too_short : s.finished_at.instant ≤ s.started_at.instant + s.duration_ms * 1_000 + 1_000
  pub two_artifacts : s.stdout.path ≢ s.stderr.path

result_iff :
    (r : StepResult) (observed expected : ℤ)
    → same_result r (expected_result observed expected) ≡ true
    → (r ≡ pass) ↔ (observed ≡ expected)
result_iff r observed expected h =
    elim (ℤ-discrete observed expected)
        as (λ d.
          same_result r (elim d [ yes _ ↦ pass | no _ ↦ fail ]) ≡ true
          → (r ≡ pass) ↔ (observed ≡ expected)) [
            | yes e ↦ λ k. (λ _. e, λ _. passes r k)
            | no n ↦ λ k. (λ p. cc (rw p at k), λ e. absurd (n e))
          ]
      h
  where
    passes : (q : StepResult) → same_result q pass ≡ true → q ≡ pass
    passes pass k = refl
    passes fail k = cc

-- A step that validates says pass exactly if the observed exit code is the expected one, its
-- duration is within a millisecond of its times, and its two streams are two artifacts.
pub validate_step-IsTrueStep :
    (s : EngineeringValidationStep) → validate_step s ≡ ok tt → IsTrueStep s
unfolding validate_step
validate_step-IsTrueStep s h =
    let ordered : ltb s.finished_at.instant s.started_at.instant ≡ false = ground arith in
    let near : ltb 1_000
          (distance (s.finished_at.instant - s.started_at.instant) (s.duration_ms * 1_000))
        ≡ false =
      ground arith in
    let said : same_result s.result (expected_result s.observed_exit_code s.expected_exit_code)
        ≡ true =
      ground arith in
    record {
      passed_by_exit_code = result_iff s.result s.observed_exit_code s.expected_exit_code said;
      not_before_start = ground (arith, ordered);
      not_too_long = ground (arith, ordered, near);
      not_too_short = ground (arith, ordered, near);
      two_artifacts = ground arith;
    }

unfoldable pub validate_pytest : EngineeringValidationPytestObservation → Check ValidationError
validate_pytest o = do
  raise_if
      (not (
        well_formed_artifact o.junit_xml
        && well_formed_artifact o.coverage_json
        && ltb 0 o.tests_passed
        && ltb 0 o.num_statements
        && ltb 0 o.num_branches))
      malformed_field
  raise_if (ltb o.num_statements o.covered_lines) lines_exceed_statements
  raise_if (ltb o.num_branches o.covered_branches) branches_exceed
  let covered = o.covered_lines + o.covered_branches
  let coverable = o.num_statements + o.num_branches
  raise_if (ltb (covered * 10_000) (coverable * 9_001)) below_coverage_floor
  forbid (string_discrete o.junit_xml.path o.coverage_json.path) one_artifact_twice

-- What is left uncovered.
abbrev pub uncovered : EngineeringValidationPytestObservation → ℕ
uncovered o = (o.num_statements - o.covered_lines) + (o.num_branches - o.covered_branches)

-- Where a pytest observation validates, at most 999 of every 10,000 statements and branches are
-- uncovered, covered and uncovered add up, and there is something to cover.
pub validate_pytest_floor :
    (o : EngineeringValidationPytestObservation)
    → validate_pytest o ≡ ok tt
    → (uncovered o * 10_000 ≤ (o.num_statements + o.num_branches) * 999)
      × (o.covered_lines + o.covered_branches + uncovered o ≡ o.num_statements + o.num_branches)
      × (2 ≤ o.num_statements + o.num_branches)
unfolding validate_pytest
validate_pytest_floor o h =
    let lines : o.covered_lines ≤ o.num_statements = ground arith in
    let branches : o.covered_branches ≤ o.num_branches = ground arith in
    let floor : (o.num_statements + o.num_branches) * 9_001
        ≤ (o.covered_lines + o.covered_branches) * 10_000 =
      ground arith in
    let some_lines : 1 ≤ o.num_statements = ground arith in
    let some_branches : 1 ≤ o.num_branches = ground arith in
    (omega (arith, lines, branches, floor), omega (arith, lines, branches), omega arith)
