-- ===== src/Laboratory.antt =====
-- The severity-graded laboratory of src/fieldtrue/graded_laboratory.py: the plant, the forward model and
-- the separability of mechanisms.
mod Tests
pub mod Separability
pub mod Exact
use inbar.Prelude.{
  same_text, ℕ, zero, suc, ◌+◌, ◌-◌, ◌*◌, ◌/◌, ◌%◌, String, Bool, true, false, not, ◌||◌, ◌==◌, ltb,
  leb, if◌then◌else◌, string_discrete, codes, List, [], ◌∷◌, ◌++◌, Option, none, some, length,
  Result, ok, err, ◌>>=◌, ◌>>◌, raise_if,
}
use inbar.Domain.{ℤ, pos, negsuc}
use inbar.Integer.{
  pos_part, neg_part, difference_of, ◌+ℤ◌, ◌-ℤ◌, ◌*ℤ◌, floor_div, less_ℤ, magnitude,
}
use inbar.Sorting.{sort, codes_less}

pub record GradedFaultConfig : Type 0 where
  pub gain : ℤ
  pub drive : ℤ
  pub bias : ℤ
  pub steps : ℕ
  pub actuation_lag_ppm : ℕ
  pub noise_amplitude : ℕ
  pub noise_ppm : ℕ
  pub nuisance_amplitude : ℕ

-- The classes of `GRADED_ONTOLOGY`, by name.
pub data Mechanism : Type 0 where
  actuator_loss sensor_bias gain_drift actuator_deadband : Mechanism

pub record MechanismParams : Type 0 where
  pub gain : ℤ
  pub drive : ℤ
  pub bias : ℤ
  pub deadband : ℕ

-- The keys of the classes (causal_laboratory.py derives them by SHA-256), and the number in the first
-- four bytes of the SHA-256 of a noise label and of a nuisance label.
pub record Randomness : Type 0 where
  pub class_key : Mechanism → String
  pub noise : ℕ → ℕ → ℕ
  pub nuisance : ℕ → ℕ

pub data GradedLaboratoryError : Type 0 where
  bad_severity too_few_candidates no_actions unequal_lengths : GradedLaboratoryError

abbrev pub unknown_mechanism_key : String
unknown_mechanism_key = "unknown"

-- `{c.key: c.name for c in classes}.get(key)`: a later class wins.
unfoldable pub class_of : Randomness → String → Option Mechanism
class_of r key =
    if same_text (r.class_key actuator_deadband) key
    then some actuator_deadband
    else (if same_text (r.class_key gain_drift) key
        then some gain_drift
        else (if same_text (r.class_key sensor_bias) key
            then some sensor_bias
            else (if same_text (r.class_key actuator_loss) key then some actuator_loss else none)))

-- The parameters of a mechanism at a severity of at most 100.
unfoldable pub params_of : GradedFaultConfig → ℕ → Option Mechanism → MechanismParams
unfolding ◌+ℤ◌ ◌-ℤ◌ ◌*ℤ◌ floor_div
params_of c severity none = record { gain = c.gain; drive = c.drive; bias = c.bias; deadband = 0 }
params_of c severity (some actuator_loss) = record {
  gain = c.gain;
  drive = c.drive -ℤ floor_div (c.drive *ℤ pos 90 *ℤ pos severity) 10_000;
  bias = c.bias;
  deadband = 0;
}
params_of c severity (some sensor_bias) = record {
  gain = c.gain;
  drive = c.drive;
  bias = c.bias +ℤ pos (1000 * severity / 100);
  deadband = 0;
}
params_of c severity (some gain_drift) = record {
  gain = c.gain +ℤ pos (40 * severity / 100);
  drive = c.drive;
  bias = c.bias;
  deadband = 0;
}
params_of c severity (some actuator_deadband) = record {
  gain = c.gain;
  drive = c.drive;
  bias = c.bias;
  deadband = 60 * severity / 100;
}

-- `_graded_transform`
unfoldable pub graded_transform :
    Randomness → String → GradedFaultConfig → ℤ → Result GradedLaboratoryError MechanismParams
unfolding class_of params_of
graded_transform r key config severity = do
  raise_if (less_ℤ severity (pos 0) || less_ℤ (pos 100) severity) bad_severity
  ok (params_of config (pos_part severity) (class_of r key))

unfoldable pub effective_command : ℤ → ℕ → ℤ
effective_command u deadband = if ltb (magnitude u) deadband then pos 0 else u

-- A draw from [-amplitude, amplitude]
abbrev pub symmetric : ℕ → ℕ → ℤ
symmetric drawn amplitude =
    if amplitude == 0 then pos 0 else difference_of (drawn % (2 * amplitude + 1)) amplitude

abbrev pub amplitude_at : GradedFaultConfig → ℤ → ℕ
amplitude_at config state = config.noise_amplitude + magnitude state * config.noise_ppm / 1_000_000

-- `_disturbance`
unfoldable pub disturbance : Randomness → ℕ → ℕ → ℤ → GradedFaultConfig → ℤ
disturbance r seed step state config = symmetric (r.noise seed step) (amplitude_at config state)

-- `_nuisance_offset`
unfoldable pub nuisance_offset : Randomness → ℕ → ℕ → ℤ
nuisance_offset r seed amplitude = symmetric (r.nuisance seed) amplitude

-- `action[step] if step < len(action) else 0`, and what is left of the action.
abbrev pub commanded : List ℤ → ℤ
commanded [] = pos 0
commanded (u ∷ us) = u

abbrev pub later_commands : List ℤ → List ℤ
later_commands [] = []
later_commands (u ∷ us) = us

-- `(gain * x) // 100 + (drive * u) // 100 + bias`
unfoldable pub next_state : MechanismParams → ℤ → ℤ → ℤ
unfolding ◌+ℤ◌ ◌*ℤ◌ floor_div
next_state params x u =
    floor_div (params.gain *ℤ x) 100 +ℤ floor_div (params.drive *ℤ u) 100 +ℤ params.bias

-- `(lag * previous + (1_000_000 - lag) * u) // 1_000_000`, for a lag of at most 1_000_000
unfoldable pub delivered : ℕ → ℤ → ℤ → ℤ
unfolding ◌+ℤ◌ ◌*ℤ◌ floor_div
delivered lag previous u = floor_div (pos lag *ℤ previous +ℤ pos (1_000_000 - lag) *ℤ u) 1_000_000

-- The loop of `graded_run`, from a step on, for the steps that are left.
unfoldable pub run_steps :
    Randomness → GradedFaultConfig → ℕ → MechanismParams → ℕ → ℕ → ℤ → ℤ → List ℤ → ℤ × List ℤ
unfolding effective_command delivered next_state disturbance ◌+ℤ◌
run_steps r config seed params zero step x previous action = (x, [])
run_steps r config seed params (suc left) step x previous action =
    let u = effective_command (commanded action) params.deadband in
    let x' = next_state params x (delivered config.actuation_lag_ppm previous u) in
    let (settled, telemetry) =
      run_steps r config seed params left (suc step) x' u (later_commands action) in
    (settled, (x' +ℤ disturbance r seed step x' config) ∷ telemetry)

unfoldable pub graded_run :
    Randomness
    → GradedFaultConfig
    → ℤ
    → ℕ
    → String
    → ℤ
    → List ℤ
    → Result GradedLaboratoryError (ℤ × List ℤ)
unfolding graded_transform nuisance_offset run_steps ◌+ℤ◌
graded_run r config initial_state seed key severity action = do
  params ← graded_transform r key config severity
  ok (
      run_steps r config seed params config.steps 0
        (initial_state +ℤ nuisance_offset r seed config.nuisance_amplitude) (pos 0) action)

unfoldable pub forward_steps : MechanismParams → ℕ → ℤ → List ℤ → List ℤ
unfolding effective_command next_state
forward_steps params zero x action = []
forward_steps params (suc left) x action =
    let x' = next_state params x (effective_command (commanded action) params.deadband) in
    x' ∷ forward_steps params left x' (later_commands action)

unfoldable pub graded_forward_telemetry :
    Randomness → GradedFaultConfig → ℤ → String → ℤ → List ℤ → Result GradedLaboratoryError (List ℤ)
unfolding graded_transform forward_steps
graded_forward_telemetry r config initial_state key severity action = do
  params ← graded_transform r key config severity
  ok (forward_steps params config.steps initial_state action)
