-- ===== src/Splits/Components.antt =====
-- `_components` of src/fieldtrue/splits.py: the units that must stay together.
use inbar.Prelude.{
  same_text, ℕ, suc, ◌*◌, String, Bool, true, false, not, ◌||◌, if◌then◌else◌, List, [], ◌∷◌, ◌++◌,
  Option, none, some, length, all_distinct, is_subset, Result, ok, ◌>>◌, ◌>>=◌, raise_if,
}
use inbar.Splits.{SplitUnit, SplitError, empty_corpus, bad_dimensions, value_of}
use inbar.Splits.UnionFind.{Parents, find, union}

abbrev pub allowed_dimensions : List String
allowed_dimensions = "hardware_family" ∷ "hardware_id" ∷ "mission_id" ∷ "fault_family" ∷ []

-- The first holder of each value.
abbrev pub Seen : Type 0
Seen = List (String × String)

unfoldable pub holder : String → Seen → Option String
holder value [] = none
holder value ((v, i) ∷ seen) =
    let rest = holder value seen in if same_text v value then some i else rest

-- The loop over the units for one dimension.
unfoldable pub join_dimension : ℕ → String → Parents → Seen → List SplitUnit → Parents
unfolding union holder value_of
join_dimension fuel dimension parents seen [] = parents
join_dimension fuel dimension parents seen (unit ∷ units) =
    elim (holder (value_of dimension unit) seen) [
      | some previous ↦
          join_dimension fuel dimension (union fuel parents previous unit.incident_id) seen units
      | none ↦
          join_dimension fuel dimension (union fuel parents unit.incident_id unit.incident_id)
            ((value_of dimension unit, unit.incident_id) ∷ seen) units
    ]

unfoldable pub join_dimensions : ℕ → Parents → List SplitUnit → List String → Parents
unfolding join_dimension
join_dimensions fuel parents units [] = parents
join_dimensions fuel parents units (dimension ∷ dimensions) =
    join_dimensions fuel (join_dimension fuel dimension parents [] units) units dimensions

pub record Group : Type 0 where
  pub root : String
  pub members : List SplitUnit

-- `grouped[root].append(unit)`
unfoldable pub add_to_group : String → SplitUnit → List Group → List Group
add_to_group root unit [] = record { root = root; members = unit ∷ [] } ∷ []
add_to_group root unit (g ∷ groups) =
    let rest = add_to_group root unit groups in
    if same_text g.root root
    then record { root = g.root; members = g.members ++ unit ∷ [] } ∷ groups
    else g ∷ rest

unfoldable pub group_units : ℕ → Parents → List Group → List SplitUnit → List Group
unfolding find add_to_group
group_units fuel parents groups [] = groups
group_units fuel parents groups (unit ∷ units) =
    let (root, shortened) = find fuel parents unit.incident_id in
    group_units fuel shortened (add_to_group root unit groups) units

abbrev pub is_empty : {A : Type 0} → List A → Bool
is_empty [] = true
is_empty (x ∷ xs) = false

-- Every identifier is its own parent at first.
abbrev pub alone : Parents
alone identifier = identifier

-- No way to a root is longer than the unions that were made.
abbrev pub rounds : List SplitUnit → List String → ℕ
rounds units dimensions = suc (length dimensions * length units)

abbrev pub members_of : List Group → List (List SplitUnit)
members_of [] = []
members_of (g ∷ groups) = g.members ∷ members_of groups

unfoldable pub components : List SplitUnit → List String → Result SplitError (List (List SplitUnit))
unfolding join_dimensions group_units
components units dimensions = do
  raise_if (is_empty units) empty_corpus
  raise_if
      (is_empty dimensions
        || not (all_distinct dimensions)
        || not (is_subset dimensions allowed_dimensions))
      bad_dimensions
  let fuel = rounds units dimensions
  let parents = join_dimensions fuel alone units dimensions
  ok (members_of (group_units fuel parents [] units))

-- `leakage_component_count`
unfoldable pub leakage_component_count : List SplitUnit → List String → Result SplitError ℕ
unfolding components
leakage_component_count units dimensions = do found ← components units dimensions; ok (length found)
