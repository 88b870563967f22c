-- ===== src/Laboratory/Tests.antt =====
-- Runs of the laboratory of src/fieldtrue/graded_laboratory.py, and concrete cases of its theorems.
use inbar.Prelude.{ℕ, ◌+◌, ◌*◌, ◌≤◌, String, List, [], ◌∷◌, ◌≡◌, refl, Result, ok, err}
use inbar.Domain.{ℤ, pos, negsuc}
use inbar.Laboratory.{
  GradedFaultConfig, Mechanism, actuator_loss, sensor_bias, gain_drift, actuator_deadband,
  Randomness, bad_severity, graded_run, graded_forward_telemetry,
}
use inbar.Laboratory.Exact.{observed, graded_run-forward}

class_name : Mechanism → String
class_name actuator_loss = "a"
class_name sensor_bias = "b"
class_name gain_drift = "c"
class_name actuator_deadband = "d"

abbrev randomness : Randomness
randomness = record {
  class_key = class_name;
  noise = λ seed step. seed + 7 * step;
  nuisance = λ seed. seed;
}

-- The plant of `GRADED_CONFIG` without its mismatch.
abbrev exact_config : GradedFaultConfig
exact_config = record {
  gain = pos 90;
  drive = pos 50;
  bias = pos 10;
  steps = 3;
  actuation_lag_ppm = 0;
  noise_amplitude = 0;
  noise_ppm = 0;
  nuisance_amplitude = 0;
}

abbrev graded_config : GradedFaultConfig
graded_config = record {
  gain = pos 90;
  drive = pos 50;
  bias = pos 10;
  steps = 3;
  actuation_lag_ppm = 300_000;
  noise_amplitude = 4;
  noise_ppm = 40_000;
  nuisance_amplitude = 8;
}

abbrev action : List ℤ
action = pos 50 ∷ negsuc 4 ∷ []

forward_loss :
    graded_forward_telemetry randomness graded_config (pos 100) "a" (pos 100) action
    ≡ ok (pos 102 ∷ pos 100 ∷ pos 100 ∷ [])
unfolding graded_forward_telemetry inbar.Prelude.string_discrete class_name
forward_loss = refl

too_severe :
    graded_forward_telemetry randomness graded_config (pos 100) "a" (pos 101) action
    ≡ err bad_severity
unfolding graded_forward_telemetry inbar.Prelude.string_discrete class_name
too_severe = refl

graded_run-forward_example :
    observed (graded_run randomness exact_config (pos 100) 3 "d" (pos 70) action)
    ≡ graded_forward_telemetry randomness exact_config (pos 100) "d" (pos 70) action
graded_run-forward_example =
    graded_run-forward randomness exact_config (pos 100) 3 "d" (pos 70) action
      (record { no_lag = refl; no_noise = refl; no_proportional_noise = refl; no_nuisance = refl })
