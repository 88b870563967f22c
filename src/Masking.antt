-- ===== src/Masking.antt =====
-- src/fieldtrue/masking.py: the compensators and the measurement of one cell.
mod Tests
pub mod Commands
pub mod Recompute
pub mod Counted
pub mod Totals
pub mod Exact
use inbar.Prelude.{
  ℕ, zero, suc, ◌+◌, ◌*◌, ◌/◌, String, Bool, true, false, not, ◌&&◌, ltb, leb, if◌then◌else◌, List,
  [], ◌∷◌, ◌++◌, Option, Result, ok, err, ◌>>=◌, ◌>>◌, raise_if,
}
use inbar.Domain.{ℤ, pos, negsuc}
use inbar.Integer.{◌+ℤ◌, ◌-ℤ◌, ◌*ℤ◌, floor_div, less_ℤ, pos_part, sum_ℤ}
use inbar.Laboratory.{
  GradedFaultConfig, Randomness, GradedLaboratoryError, unequal_lengths, unknown_mechanism_key,
  commanded, graded_run, graded_forward_telemetry,
}
use inbar.Laboratory.Separability.{mechanism_separability_permille, resolvable}

abbrev pub safe_command_floor : ℤ
safe_command_floor = pos 0

abbrev pub safe_command_ceiling : ℤ
safe_command_ceiling = pos 100

-- `max(SAFE_COMMAND_FLOOR, min(SAFE_COMMAND_CEILING, commanded))`
unfoldable pub clipped : ℤ → ℤ
clipped commanded =
    let capped =
      if less_ℤ commanded safe_command_ceiling then commanded else safe_command_ceiling in
    if less_ℤ safe_command_floor capped then capped else safe_command_floor

-- `(command,) * steps`
unfoldable pub repeated : ℕ → ℤ → List ℤ
repeated zero command = []
repeated (suc n) command = command ∷ repeated n command

-- `trace[-1]`, of a trace with an entry for each of at least one step
abbrev pub last : List ℤ → ℤ
last [] = pos 0
last (x ∷ []) = x
last (x ∷ y ∷ ys) = last (y ∷ ys)

module _ (r : Randomness) (config : GradedFaultConfig) (initial_state : ℤ) where
  unfoldable pub nominal_final_state : List ℤ → Result GradedLaboratoryError ℤ
  unfolding graded_forward_telemetry
  nominal_final_state action = do
    nominal ← graded_forward_telemetry r config initial_state unknown_mechanism_key (pos 0) action
    ok (last nominal)

  -- How far the observed state falls short of the nominal one.
  unfoldable pub shortfall : List ℤ → ℤ → Result GradedLaboratoryError ℤ
  unfolding nominal_final_state repeated ◌-ℤ◌
  shortfall observed baseline = do
    nominal ← nominal_final_state (repeated config.steps baseline)
    ok (nominal -ℤ last observed)

  unfoldable pub compensator_action : List ℤ → ℤ → ℤ → Result GradedLaboratoryError (List ℤ)
  unfolding shortfall clipped repeated ◌+ℤ◌ ◌*ℤ◌ floor_div
  compensator_action observed baseline gain = do
    short ← shortfall observed baseline
    ok (repeated config.steps (clipped (baseline +ℤ floor_div (gain *ℤ short) 100)))

  -- Its gain is not used.
  unfoldable pub bang_bang_action : List ℤ → ℤ → ℤ → Result GradedLaboratoryError (List ℤ)
  unfolding shortfall clipped repeated
  bang_bang_action observed baseline gain = do
    short ← shortfall observed baseline
    ok (
        repeated config.steps
          (clipped (if less_ℤ short (pos 20) then baseline else safe_command_ceiling)))

  unfoldable pub half_gain_action : List ℤ → ℤ → ℤ → Result GradedLaboratoryError (List ℤ)
  unfolding compensator_action floor_div
  half_gain_action observed baseline gain = compensator_action observed baseline (floor_div gain 2)

  -- `zip` with `strict=True` raises where one trace is longer than the other.
  unfoldable pub differences : List ℤ → List ℤ → Result GradedLaboratoryError (List ℤ)
  differences [] [] = ok []
  differences [] (o ∷ os) = err unequal_lengths
  differences (n ∷ ns) [] = err unequal_lengths
  differences (n ∷ ns) (o ∷ os) = do rest ← differences ns os; ok ((n -ℤ o) ∷ rest)

  unfoldable pub nominal_differences : List ℤ → ℤ → Result GradedLaboratoryError (List ℤ)
  unfolding graded_forward_telemetry differences repeated
  nominal_differences observed baseline = do
    nominal ←
        graded_forward_telemetry r config initial_state unknown_mechanism_key (pos 0)
          (repeated config.steps baseline)
    differences nominal observed

  unfoldable pub integrating_action : List ℤ → ℤ → ℤ → Result GradedLaboratoryError (List ℤ)
  unfolding nominal_differences sum_ℤ clipped repeated ◌+ℤ◌ ◌*ℤ◌ floor_div
  integrating_action observed baseline gain = do
    each ← nominal_differences observed baseline
    let accumulated = sum_ℤ each
    ok (
        repeated config.steps
          (clipped (baseline +ℤ floor_div (gain *ℤ accumulated) (100 * config.steps))))

-- `COMPENSATOR_FAMILIES`
pub data Family : Type 0 where
  proportional bang_bang half_gain integrating : Family

unfoldable pub family_action :
    Family
    → Randomness
    → GradedFaultConfig
    → ℤ
    → List ℤ
    → ℤ
    → ℤ
    → Result GradedLaboratoryError (List ℤ)
unfolding compensator_action bang_bang_action half_gain_action integrating_action
family_action proportional = compensator_action
family_action bang_bang = bang_bang_action
family_action half_gain = half_gain_action
family_action integrating = integrating_action

pub record MaskingCell : Type 0 where
  pub mechanism_key : String
  pub severity : ℤ
  pub seed : ℕ
  pub commanded_correction : ℤ
  pub separability_pre_permille : ℕ
  pub separability_post_permille : ℕ

abbrev pub resolvable_pre : MaskingCell → Bool
resolvable_pre c = resolvable c.separability_pre_permille

abbrev pub resolvable_post : MaskingCell → Bool
resolvable_post c = resolvable c.separability_post_permille

unfoldable pub masking_event : MaskingCell → Bool
masking_event c = resolvable_pre c && not (resolvable_post c)

abbrev pub masking_index_permille : MaskingCell → ℤ
masking_index_permille c = pos c.separability_pre_permille -ℤ pos c.separability_post_permille

-- For given candidate keys; the bounds of a cell's fields hold by the severity check and the clipping.
unfoldable pub measure_cell :
    Randomness
    → GradedFaultConfig
    → ℤ
    → String
    → ℤ
    → ℕ
    → List String
    → ℤ
    → ℤ
    → Result GradedLaboratoryError MaskingCell
unfolding graded_run compensator_action mechanism_separability_permille repeated
measure_cell r config initial_state key severity seed candidate_keys baseline gain = do
  let baseline_action = repeated config.steps baseline
  (settled, observed) ← graded_run r config initial_state seed key severity baseline_action
  correction ← compensator_action r config initial_state observed baseline gain
  pre ←
      mechanism_separability_permille r config initial_state severity baseline_action key
        candidate_keys
  post ←
      mechanism_separability_permille r config initial_state severity correction key candidate_keys
  ok (record {
    mechanism_key = key;
    severity = severity;
    seed = seed;
    commanded_correction = commanded correction;
    separability_pre_permille = pre;
    separability_post_permille = post;
  })
