-- ===== src/Splits/Tests.antt =====
-- A run of the group split of src/fieldtrue/splits.py, and concrete cases of its theorems.
use mathlib.Core.List.{mem-cons_self, mem-cons_of_mem}
use inbar.Prelude.{
  ℕ, ◌*◌, String, List, [], ◌∷◌, Bool, true, false, ◌≡◌, ◌==◌, ltb, length, refl, codes, Option,
  some, Result, ok, err, All, arith,
}
use inbar.Splits.{
  SplitUnit, SplitName, train, validation, test, SplitAssignment, SplitLock, Digests, infeasible,
  value_of,
}
use inbar.Splits.Components.{components, alone}
use inbar.Splits.Lock.{validate_split_lock}
use inbar.Splits.Freeze.{SplitFloats, Fractions, freeze_group_split}
use inbar.Splits.UnionFind.{find, union}
use inbar.Splits.Forest.{IsForest, Forest, find-lem}
use inbar.Splits.Union.{union-Joined}
use inbar.Splits.Together.{SharesBy, components-SharesBy, alone-Forest}
use inbar.Splits.Separate.{freeze_group_split-All}

-- Fractions of five stand for floats.
abbrev floats : SplitFloats ℕ
floats = record {
  is_positive = ltb 0;
  sums_to_one = λ a b c. true;
  scaled = λ n x. n * x;
  ratio = λ n x. n;
  less = ltb;
  equal = λ x y. x == y;
}

first_of : List String → String
first_of [] = ""
first_of (s ∷ ss) = s

abbrev digests : Digests
digests = record {
  corpus_hash = λ _. "corpus";
  component_id = first_of;
  component_key = λ seed ids. codes (first_of ids);
}

abbrev unit : String → String → String → SplitUnit
unit i hardware fault = record {
  incident_id = i;
  hardware_family = "rover";
  hardware_id = hardware;
  mission_id = "m";
  fault_family = fault;
  evidence_hash = "e";
  truth_hash = "t";
}

abbrev u1 : SplitUnit
u1 = unit "i1" "h1" "f1"

abbrev u2 : SplitUnit
u2 = unit "i2" "h2" "f1"

abbrev u3 : SplitUnit
u3 = unit "i3" "h2" "f2"

abbrev u4 : SplitUnit
u4 = unit "i4" "h4" "f4"

abbrev u5 : SplitUnit
u5 = unit "i5" "h5" "f5"

abbrev units : List SplitUnit
units = u1 ∷ u4 ∷ u2 ∷ u5 ∷ u3 ∷ []

abbrev dimensions : List String
dimensions = "hardware_id" ∷ "fault_family" ∷ []

abbrev parts : List (List SplitUnit)
parts = (u1 ∷ u2 ∷ u3 ∷ []) ∷ (u4 ∷ []) ∷ (u5 ∷ []) ∷ []

-- The first and the third unit share nothing, but each shares with the second.
three_components : components units dimensions ≡ ok parts
unfolding components inbar.Prelude.all_distinct inbar.Prelude.string_discrete
    inbar.Prelude.is_subset
three_components = refl

components-SharesBy_example : All (SharesBy parts units) dimensions
components-SharesBy_example = components-SharesBy units dimensions parts three_components

abbrev assigned : String → SplitName → String → SplitAssignment
assigned i split component = record { incident_id = i; split = split; component_id = component }

abbrev lock : SplitLock
lock = record {
  seed = "seed";
  holdout_dimensions = dimensions;
  corpus_hash = "corpus";
  assignments =
      assigned "i1" train "i1"
      ∷ assigned "i2" train "i1"
      ∷ assigned "i3" train "i1"
      ∷ assigned "i4" validation "i4"
      ∷ assigned "i5" test "i5"
      ∷ [];
  split_counts = record { train_count = 3; validation_count = 1; test_count = 1 };
}

abbrev fractions : Fractions ℕ
fractions = record { train_part = 3; validation_part = 1; test_part = 1 }

frozen : freeze_group_split floats digests units "seed" dimensions fractions ≡ ok lock
unfolding freeze_group_split inbar.Prelude.all_distinct inbar.Prelude.string_discrete
    inbar.Prelude.is_subset inbar.Sorting.sort inbar.Sorting.insert inbar.Sorting.codes_less
    first_of
frozen = refl

lock_validates : validate_split_lock digests lock units ≡ ok tt
unfolding validate_split_lock inbar.Prelude.all_distinct inbar.Prelude.string_discrete
    inbar.Prelude.is_subset inbar.Sorting.sort inbar.Sorting.insert inbar.Sorting.codes_less
    first_of
lock_validates = refl

too_few :
    freeze_group_split floats digests (u1 ∷ u2 ∷ u4 ∷ []) "seed" dimensions fractions
    ≡ err infeasible
unfolding freeze_group_split inbar.Prelude.all_distinct inbar.Prelude.string_discrete
    inbar.Prelude.is_subset inbar.Sorting.sort inbar.Sorting.insert inbar.Sorting.codes_less
    first_of
too_few = refl

freeze_group_split-All_example : All (λ d. value_of d u2 ≡ value_of d u3 → train ≡ train) dimensions
unfolding inbar.Splits.Lock.unit_of inbar.Prelude.string_discrete
freeze_group_split-All_example =
    freeze_group_split-All floats digests units "seed" dimensions fractions lock
      (assigned "i2" train "i1") (assigned "i3" train "i1") u2 u3 frozen
      (mem-cons_of_mem _ mem-cons_self) (mem-cons_of_mem _ (mem-cons_of_mem _ mem-cons_self)) refl
      refl

abbrev linked : Forest 1 (union 1 alone "a" "b")
linked = (union-Joined 0 1 alone alone-Forest "a" "b" (omega arith)).after

find-lem_example :
    ((find 2 (union 1 alone "a" "b") "b").0 ≡ linked.root "b")
    × IsForest 1 linked.root linked.rank (find 2 (union 1 alone "a" "b") "b").1
find-lem_example =
    find-lem 1 linked.root linked.rank 2 (union 1 alone "a" "b") "b" linked.is_forest (omega arith)
