-- ===== src/Splits/Freeze.antt =====
-- `freeze_group_split` of src/fieldtrue/splits.py.
use inbar.Prelude.{
  ℕ, ◌+◌, String, Bool, not, ◌||◌, ◌==◌, ltb, if◌then◌else◌, List, [], ◌∷◌, ◌++◌, map, length,
  all_distinct, Result, ok, ◌>>◌, ◌>>=◌, raise_if,
}
use inbar.Sorting.{sort, codes_less}
use inbar.Splits.{
  SplitUnit, SplitName, train, validation, test, SplitAssignment, SplitCounts, SplitLock, Digests,
  SplitError, bad_fractions, duplicate_incidents, infeasible, unit_id,
}
use inbar.Splits.Components.{components}
use inbar.Splits.Lock.{text_less, unit_less, validate_lock_model, validate_split_lock}

-- What the split uses of Python's floats.
pub record SplitFloats (Float : Type 0) : Type 0 where
  pub is_positive : Float → Bool
  -- `abs(a + b + c - 1.0) <= 1e-9`
  pub sums_to_one : Float → Float → Float → Bool
  -- `n * x` and `n / x`
  pub scaled : ℕ → Float → Float
  pub ratio : ℕ → Float → Float
  pub less : Float → Float → Bool
  pub equal : Float → Float → Bool

pub record Fractions (Float : Type 0) : Type 0 where
  pub train_part : Float
  pub validation_part : Float
  pub test_part : Float

abbrev pub count_of_split : SplitName → SplitCounts → ℕ
count_of_split train counts = counts.train_count
count_of_split validation counts = counts.validation_count
count_of_split test counts = counts.test_count

abbrev pub add_count : SplitName → ℕ → SplitCounts → SplitCounts
add_count train n c = record {
  train_count = c.train_count + n;
  validation_count = c.validation_count;
  test_count = c.test_count;
}
add_count validation n c = record {
  train_count = c.train_count;
  validation_count = c.validation_count + n;
  test_count = c.test_count;
}
add_count test n c = record {
  train_count = c.train_count;
  validation_count = c.validation_count;
  test_count = c.test_count + n;
}

abbrev position : SplitName → ℕ
position train = 0
position validation = 1
position test = 2

abbrev part_of : {Float : Type 0} → SplitName → Fractions Float → Float
part_of train fractions = fractions.train_part
part_of validation fractions = fractions.validation_part
part_of test fractions = fractions.test_part

module _ {Float : Type 0} (floats : SplitFloats Float) (digests : Digests) where
  module _ (total : ℕ) (fractions : Fractions Float) (counts : SplitCounts) where
    filled : SplitName → Float
    filled split =
        floats.ratio (count_of_split split counts) (floats.scaled total (part_of split fractions))

    -- By the share filled, then the count, then the position.
    is_before : SplitName → SplitName → Bool
    unfolding filled
    is_before a b =
        if floats.equal (filled a) (filled b)
        then (if count_of_split a counts == count_of_split b counts
            then ltb (position a) (position b)
            else ltb (count_of_split a counts) (count_of_split b counts))
        else floats.less (filled a) (filled b)

    lower : SplitName → SplitName → SplitName
    unfolding is_before
    lower a b = if is_before b a then b else a

    -- `min(split_names, key=...)`
    unfoldable pub next_split : SplitName
    unfolding lower
    next_split = lower (lower train validation) test

  abbrev assign : SplitName → String → SplitUnit → SplitAssignment
  assign split component_id unit = record {
    incident_id = unit.incident_id;
    split = split;
    component_id = component_id;
  }

  pub record Assigned : Type 0 where
    pub assignments : List SplitAssignment
    pub counts : SplitCounts

  -- The loop over the ordered components.
  unfoldable pub assign_components :
      ℕ → Fractions Float → Assigned → List (List SplitUnit) → Assigned
  unfolding next_split
  assign_components total fractions assigned [] = assigned
  assign_components total fractions assigned (component ∷ others) =
      let split = next_split total fractions assigned.counts in
      let component_id = digests.component_id (sort text_less [] (map unit_id component)) in
      assign_components total fractions
        (record {
          assignments =
              assigned.assignments ++ map (assign split component_id) (sort unit_less [] component);
          counts = add_count split (length component) assigned.counts;
        })
        others

  abbrev component_less : String → List SplitUnit → List SplitUnit → Bool
  component_less seed a b =
      codes_less (digests.component_key seed (sort text_less [] (map unit_id a)))
        (digests.component_key seed (sort text_less [] (map unit_id b)))

  abbrev assignment_less : SplitAssignment → SplitAssignment → Bool
  assignment_less a b = text_less a.incident_id b.incident_id

  abbrev none_assigned : Assigned
  none_assigned = record {
    assignments = [];
    counts = record { train_count = 0; validation_count = 0; test_count = 0 };
  }

  abbrev pub make_lock : List SplitUnit → String → List String → Assigned → SplitLock
  make_lock units seed dimensions assigned = record {
    seed = seed;
    holdout_dimensions = dimensions;
    corpus_hash = digests.corpus_hash (sort unit_less [] units);
    assignments = sort assignment_less [] assigned.assignments;
    split_counts = assigned.counts;
  }

  abbrev pub bad_parts : Fractions Float → Bool
  bad_parts fractions =
      not (floats.is_positive fractions.train_part)
      || not (floats.is_positive fractions.validation_part)
      || not (floats.is_positive fractions.test_part)
      || not (floats.sums_to_one fractions.train_part fractions.validation_part fractions.test_part)

  unfoldable pub locked :
      List SplitUnit → String → List String → Fractions Float → List (List SplitUnit) → SplitLock
  unfolding assign_components
  locked units seed dimensions fractions found = make_lock units seed dimensions (
      assign_components (length units) fractions none_assigned
        (sort (component_less seed) [] found))

  unfoldable pub freeze_group_split :
      List SplitUnit → String → List String → Fractions Float → Result SplitError SplitLock
  unfolding components locked validate_lock_model validate_split_lock
  freeze_group_split units seed dimensions fractions = do
    raise_if (bad_parts fractions) bad_fractions
    raise_if (not (all_distinct (map unit_id units))) duplicate_incidents
    found ← components units dimensions
    raise_if (ltb (length found) 3) infeasible
    let lock = locked units seed dimensions fractions found
    validate_lock_model lock
    validate_split_lock digests lock units
    ok lock
