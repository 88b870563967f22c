-- ===== src/Laboratory/Separability.antt =====
-- The separability index of src/fieldtrue/graded_laboratory.py.
use inbar.Prelude.{
  same_text, ℕ, ◌+◌, ◌*◌, ◌/◌, String, Bool, ltb, leb, if◌then◌else◌, codes, List, [], ◌∷◌, Option,
  none, some, length, Result, ok, ◌>>=◌, ◌>>◌, raise_if,
}
use inbar.Domain.{ℤ}
use inbar.Integer.{◌-ℤ◌, magnitude}
use inbar.Sorting.{sort, codes_less}
use inbar.Laboratory.{
  GradedFaultConfig, Randomness, GradedLaboratoryError, too_few_candidates, no_actions,
  unknown_mechanism_key, amplitude_at, graded_forward_telemetry,
}

-- `sum(abs(a - b) for a, b in zip(left, right))`; both have one entry a step.
unfoldable pub distance : List ℤ → List ℤ → ℕ
unfolding ◌-ℤ◌
distance [] ys = 0
distance (x ∷ xs) [] = 0
distance (x ∷ xs) (y ∷ ys) = magnitude (x -ℤ y) + distance xs ys

unfoldable pub floor_along : GradedFaultConfig → List ℤ → ℕ
floor_along config [] = 0
floor_along config (x ∷ xs) =
    let a = amplitude_at config x in a * (a + 1) / (2 * a + 1) + floor_along config xs

abbrev pub at_least_one : ℕ → ℕ
at_least_one n = if ltb 1 n then n else 1

abbrev key_less : String → String → Bool
key_less a b = codes_less (codes a) (codes b)

abbrev pub minimum : Option ℕ → ℕ → ℕ
minimum none n = n
minimum (some m) n = if ltb n m then n else m

abbrev maximum : ℕ → ℕ → ℕ
maximum m n = if ltb m n then n else m

module _ (r : Randomness) (config : GradedFaultConfig) (initial_state : ℤ) (severity : ℤ) where
  unfoldable pub pairwise_signature_distance :
      List ℤ → String → String → Result GradedLaboratoryError ℕ
  unfolding graded_forward_telemetry distance
  pairwise_signature_distance action left_key right_key = do
    left ← graded_forward_telemetry r config initial_state left_key severity action
    right ← graded_forward_telemetry r config initial_state right_key severity action
    ok (distance left right)

  unfoldable pub expected_disturbance_l1 : List ℤ → Result GradedLaboratoryError ℕ
  unfolding graded_forward_telemetry floor_along
  expected_disturbance_l1 action = do
    nominal ← graded_forward_telemetry r config initial_state unknown_mechanism_key severity action
    ok (at_least_one (floor_along config nominal))

  unfoldable pub best_for_pair :
      String → String → ℕ → List (List ℤ) → Result GradedLaboratoryError ℕ
  unfolding pairwise_signature_distance expected_disturbance_l1
  best_for_pair left right best [] = ok best
  best_for_pair left right best (action ∷ actions) = do
    apart ← pairwise_signature_distance action left right
    floor ← expected_disturbance_l1 action
    best_for_pair left right (maximum best (apart * 1000 / floor)) actions

  worst_with :
      List (List ℤ) → String → Option ℕ → List String → Result GradedLaboratoryError (Option ℕ)
  unfolding best_for_pair
  worst_with actions left worst [] = ok worst
  worst_with actions left worst (right ∷ others) = do
    best ← best_for_pair left right 0 actions
    worst_with actions left (some (minimum worst best)) others

  worst_pair : List (List ℤ) → Option ℕ → List String → Result GradedLaboratoryError (Option ℕ)
  unfolding worst_with
  worst_pair actions worst [] = ok worst
  worst_pair actions worst (left ∷ others) = do
    next ← worst_with actions left worst others
    worst_pair actions next others

  -- At least one pair is there when the index is read.
  abbrev found_or_zero : Option ℕ → ℕ
  found_or_zero none = 0
  found_or_zero (some n) = n

  unfoldable pub separability_index_permille :
      List (List ℤ) → List String → Result GradedLaboratoryError ℕ
  unfolding worst_pair
  separability_index_permille actions candidate_keys = do
    raise_if (ltb (length candidate_keys) 2) too_few_candidates
    raise_if (ltb (length actions) 1) no_actions
    worst ← worst_pair actions none (sort key_less [] candidate_keys)
    ok (found_or_zero worst)

  unfoldable pub others_of : String → List String → List String
  others_of injected [] = []
  others_of injected (k ∷ keys) =
      let rest = others_of injected keys in if same_text k injected then rest else k ∷ rest

  unfoldable pub nearest :
      String → List ℤ → ℕ → Option ℕ → List String → Result GradedLaboratoryError (Option ℕ)
  unfolding pairwise_signature_distance
  nearest injected action floor found [] = ok found
  nearest injected action floor found (other ∷ others) = do
    apart ← pairwise_signature_distance action injected other
    nearest injected action floor (some (minimum found (apart * 1000 / floor))) others

  unfoldable pub mechanism_separability_permille :
      List ℤ → String → List String → Result GradedLaboratoryError ℕ
  unfolding others_of expected_disturbance_l1 nearest
  mechanism_separability_permille action injected_key candidate_keys = do
    let others = others_of injected_key (sort key_less [] candidate_keys)
    raise_if (ltb (length others) 1) too_few_candidates
    floor ← expected_disturbance_l1 action
    found ← nearest injected_key action floor none others
    ok (found_or_zero found)

abbrev pub resolvable : ℕ → Bool
resolvable index_permille = leb 1000 index_permille
