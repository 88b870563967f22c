-- ===== src/Masking/Tests.antt =====
-- Runs of the compensators of src/fieldtrue/masking.py, and a concrete case of their theorem.
use inbar.Prelude.{
  All, length, Bool, true, false, is_identifier, is_hex, same_text, ℕ, ◌+◌, ◌*◌, String, List, [],
  ◌∷◌, ◌≡◌, refl, Result, ok,
}
use inbar.Domain.{ℤ, pos, negsuc}
use inbar.Laboratory.{
  GradedFaultConfig, Mechanism, actuator_loss, sensor_bias, gain_drift, actuator_deadband,
  Randomness,
}
use inbar.Masking.Recompute.{
  MaskingResult, recompute_masking_result, summary_of, sum_of, cells_where,
}
use inbar.Masking.Exact.{recompute_masking_result-IsSummary, IsSummary}
use inbar.Masking.{MaskingCell, resolvable_pre, masking_event, integrating, family_action}
use inbar.Masking.Commands.{IsSafePlan, family_action-IsSafePlan}

class_name : Mechanism → String
class_name actuator_loss = "a"
class_name sensor_bias = "b"
class_name gain_drift = "c"
class_name actuator_deadband = "d"

abbrev randomness : Randomness
randomness = record {
  class_key = class_name;
  noise = λ seed step. seed + 7 * step;
  nuisance = λ seed. seed;
}

abbrev config : GradedFaultConfig
config = record {
  gain = pos 90;
  drive = pos 50;
  bias = pos 10;
  steps = 3;
  actuation_lag_ppm = 300_000;
  noise_amplitude = 4;
  noise_ppm = 40_000;
  nuisance_amplitude = 8;
}

abbrev trace : List ℤ
trace = pos 60 ∷ pos 40 ∷ negsuc 19 ∷ []

-- Every step's shortfall counts.
integrated :
    family_action integrating randomness config (pos 100) trace (pos 50) (pos 40)
    ≡ ok (pos 97 ∷ pos 97 ∷ pos 97 ∷ [])
unfolding family_action inbar.Prelude.string_discrete class_name
integrated = refl

family_action-IsSafePlan_example : IsSafePlan 3 (pos 97 ∷ pos 97 ∷ pos 97 ∷ [])
family_action-IsSafePlan_example =
    family_action-IsSafePlan randomness config (pos 100) trace (pos 50) integrating (pos 40)
      (pos 97 ∷ pos 97 ∷ pos 97 ∷ []) integrated

abbrev cell : String → ℕ → ℕ → MaskingCell
cell key before after = record {
  mechanism_key = key;
  severity = pos 50;
  seed = 1;
  commanded_correction = pos 60;
  separability_pre_permille = before;
  separability_post_permille = after;
}

abbrev measured : List MaskingCell
measured = cell "b" 1200 900 ∷ cell "a" 400 100 ∷ cell "b" 1500 1300 ∷ cell "b" 1100 1000 ∷ []

abbrev plan_hash : String
plan_hash = "0123456789abcdef0123456789abcdef0123456789abcdef0123456789abcdef"

abbrev hash_of_config : GradedFaultConfig → String
hash_of_config c = plan_hash

-- The median of 300, 200 and 100, one masked of three that could be.
summary_of_b :
    summary_of "b" (cell "b" 1200 900 ∷ cell "b" 1500 1300 ∷ cell "b" 1100 1000 ∷ []) ≡ record {
      mechanism_key = "b";
      cells_total = 3;
      cells_resolvable_pre = 3;
      cells_excluded_unresolvable_pre = 0;
      masking_events = 1;
      median_masking_index_permille = pos 200;
    }
unfolding summary_of inbar.Sorting.insert inbar.Integer.◌-ℤ◌
summary_of_b = refl

identifier_fits : is_identifier "masking-1" ≡ true
unfolding is_identifier
identifier_fits = refl

hash_fits : is_hex 64 plan_hash ≡ true
unfolding is_hex
hash_fits = refl

named_b : same_text "b" "" ≡ false
unfolding inbar.Prelude.string_discrete
named_b = refl

named_a : same_text "a" "" ≡ false
unfolding inbar.Prelude.string_discrete
named_a = refl

recompute_masking_result-IsSummary_example :
    (r : MaskingResult) × (recompute_masking_result hash_of_config "masking-1" measured plan_hash
        config
        (pos 40)
      ≡ ok r)
    × (r.cells_total ≡ length measured)
    × (r.cells_resolvable_pre ≡ length (cells_where resolvable_pre measured))
    × (r.masking_events ≡ length (cells_where masking_event measured))
    × All (IsSummary measured) r.per_mechanism
    × (sum_of (λ s. s.cells_total) r.per_mechanism ≡ length measured)
recompute_masking_result-IsSummary_example =
    recompute_masking_result-IsSummary hash_of_config "masking-1" (cell "b" 1200 900)
      (cell "a" 400 100 ∷ cell "b" 1500 1300 ∷ cell "b" 1100 1000 ∷ []) plan_hash config (pos 40)
      identifier_fits hash_fits hash_fits (named_b, (named_a, (named_b, (named_b, tt))))
