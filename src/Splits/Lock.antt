-- ===== src/Splits/Lock.antt =====
-- `SplitLock` and `validate_split_lock` of src/fieldtrue/splits.py.
use inbar.Prelude.{
  same_text, ℕ, ◌+◌, String, Bool, true, false, not, ◌&&◌, ◌||◌, ◌==◌, ltb, if◌then◌else◌, List, [],
  ◌∷◌, map, Option, none, some, length, all_distinct, is_subset, is_in, codes, Result, ok, err,
  ◌>>◌, ◌>>=◌, raise_if, Check,
}
use inbar.Sorting.{sort, codes_less}
use inbar.Splits.{
  SplitUnit, SplitName, train, validation, test, SplitAssignment, SplitCounts, SplitLock, Digests,
  SplitError, malformed_lock, duplicate_assignments, duplicate_dimensions, unsupported_dimensions,
  empty_split, wrong_counts, wrong_corpus, not_covered, infeasible, across_splits, wrong_component,
  leak, value_of, unit_id, same_split,
}
use inbar.Splits.Components.{allowed_dimensions, components}

abbrev pub assigned_id : SplitAssignment → String
assigned_id a = a.incident_id

-- `Counter(assignment.split for assignment in assignments)[split]`
unfoldable pub split_count : SplitName → List SplitAssignment → ℕ
split_count split [] = 0
split_count split (a ∷ assignments) =
    (if same_split a.split split then 1 else 0) + split_count split assignments

abbrev pub is_count : SplitCounts → List SplitAssignment → Bool
is_count counts assignments =
    (counts.train_count == split_count train assignments)
    && (counts.validation_count == split_count validation assignments)
    && (counts.test_count == split_count test assignments)

abbrev pub has_empty_split : List SplitAssignment → Bool
has_empty_split assignments =
    (split_count train assignments == 0)
    || (split_count validation assignments == 0)
    || (split_count test assignments == 0)

-- `lock_is_structurally_complete`, behind the lengths of the seed and the dimensions.
unfoldable pub validate_lock_model : SplitLock → Check SplitError
unfolding split_count
validate_lock_model lock = do
  raise_if ((length (codes lock.seed) == 0) || (length lock.holdout_dimensions == 0)) malformed_lock
  raise_if (not (all_distinct (map assigned_id lock.assignments))) duplicate_assignments
  raise_if (not (all_distinct lock.holdout_dimensions)) duplicate_dimensions
  raise_if (not (is_subset lock.holdout_dimensions allowed_dimensions)) unsupported_dimensions
  raise_if (has_empty_split lock.assignments) empty_split
  raise_if (not (is_count lock.split_counts lock.assignments)) wrong_counts
  ok tt

abbrev pub text_less : String → String → Bool
text_less a b = codes_less (codes a) (codes b)

abbrev pub unit_less : SplitUnit → SplitUnit → Bool
unit_less a b = text_less a.incident_id b.incident_id

-- `assignment_by_id[incident]`, the identifiers being distinct.
unfoldable pub assignment_of : String → List SplitAssignment → Option SplitAssignment
assignment_of i [] = none
assignment_of i (a ∷ assignments) =
    let rest = assignment_of i assignments in if same_text a.incident_id i then some a else rest

-- `unit_by_id[incident]`: a later unit replaces an earlier one.
unfoldable pub unit_of : String → List SplitUnit → Option SplitUnit
unit_of i [] = none
unit_of i (u ∷ units) = elim (unit_of i units) [
  | some later ↦ some later
  | none ↦ if same_text u.incident_id i then some u else none
]

-- The assignments of a component's incidents.
unfoldable pub assignments_of :
    List SplitAssignment → List String → Result SplitError (List SplitAssignment)
unfolding assignment_of
assignments_of assignments [] = ok []
assignments_of assignments (i ∷ is) = elim (assignment_of i assignments) [
  | none ↦ err not_covered
  | some a ↦ do others ← assignments_of assignments is; ok (a ∷ others)
]

abbrev all_in : SplitName → List SplitAssignment → Bool
all_in split [] = true
all_in split (a ∷ others) = same_split a.split split && all_in split others

-- `len({assignment.split for ...}) == 1`
abbrev pub in_one_split : List SplitAssignment → Bool
in_one_split [] = false
in_one_split (a ∷ others) = all_in a.split others

abbrev pub all_named : String → List SplitAssignment → Bool
all_named component_id [] = true
all_named component_id (a ∷ others) =
    same_text a.component_id component_id && all_named component_id others

unfoldable pub check_components :
    Digests → List SplitAssignment → List (List SplitUnit) → Check SplitError
unfolding assignments_of
check_components digests assignments [] = ok tt
check_components digests assignments (component ∷ others) = do
  let incidents = sort text_less [] (map unit_id component)
  assigned ← assignments_of assignments incidents
  raise_if (not (in_one_split assigned)) across_splits
  raise_if (not (all_named (digests.component_id incidents) assigned)) wrong_component
  check_components digests assignments others

-- `values_by_split[dimension][split]`
unfoldable pub values_in : String → SplitName → List SplitUnit → List SplitAssignment → List String
unfolding unit_of value_of
values_in dimension split units [] = []
values_in dimension split units (a ∷ assignments) =
    let rest = values_in dimension split units assignments in
    elim (unit_of a.incident_id units) [
      | none ↦ rest
      | some unit ↦ if same_split a.split split then value_of dimension unit ∷ rest else rest
    ]

unfoldable pub overlap : List String → List String → Bool
overlap [] ys = false
overlap (x ∷ xs) ys = is_in x ys || overlap xs ys

-- The pairs of splits, for one dimension.
abbrev pub leaks : List SplitUnit → List SplitAssignment → String → Bool
leaks units assignments dimension =
    overlap (values_in dimension train units assignments)
      (values_in dimension validation units assignments)
    || overlap (values_in dimension train units assignments)
        (values_in dimension test units assignments)
    || overlap (values_in dimension validation units assignments)
        (values_in dimension test units assignments)

unfoldable pub check_dimensions :
    List SplitUnit → List SplitAssignment → List String → Check SplitError
unfolding values_in overlap
check_dimensions units assignments [] = ok tt
check_dimensions units assignments (dimension ∷ dimensions) = do
  raise_if (leaks units assignments dimension) leak
  check_dimensions units assignments dimensions

unfoldable pub validate_split_lock : Digests → SplitLock → List SplitUnit → Check SplitError
unfolding components check_components split_count check_dimensions
validate_split_lock digests lock units = do
  raise_if (not (same_text (digests.corpus_hash (sort unit_less [] units)) lock.corpus_hash))
      wrong_corpus
  raise_if
      (not (
        is_subset (map assigned_id lock.assignments) (map unit_id units)
        && is_subset (map unit_id units) (map assigned_id lock.assignments)))
      not_covered
  found ← components units lock.holdout_dimensions
  raise_if (ltb (length found) 3) infeasible
  check_components digests lock.assignments found
  raise_if (not (is_count lock.split_counts lock.assignments)) wrong_counts
  raise_if (has_empty_split lock.assignments) empty_split
  check_dimensions units lock.assignments lock.holdout_dimensions
