-- ===== src/Tree/Enumerate.antt =====
-- `enumerate_predicates` of src/fieldtrue/shortcut_v2_tree.py.
use inbar.Prelude.{
  String, List, [], ◌∷◌, ◌++◌, Bool, true, false, not, ◌&&◌, ◌||◌, ◌==◌, codes, length, Option,
  none, some, if◌then◌else◌, is_in, is_hex, Result, ok, err, ◌>>=◌, ◌>>◌, raise_if, Check,
}
use inbar.Domain.{ℤ, pos, negsuc}
use inbar.Sorting.{sort, codes_less}
use inbar.Tree.{
  FeatureType, boolean, numeric, categorical, FeatureValue, missing_value, boolean_value,
  numeric_value, categorical_value, FeatureVector, FeatureDefinition, is_missing, equals_boolean,
  equals_categorical, less_than_or_equal_numeric, TreePredicate, Hashes, ShortcutTreeError,
  malformed, too_many_predicates, no_rows, different_union, absent_feature, wrong_type,
}
use inbar.Tree.Decimal.{
  SignedFraction, signed_less, parse_canonical_decimal, canonical_decimal, mean,
}
use inbar.Tree.Predicates.{
  max_predicates_per_node, same_type, feature_value_type, validate_rows,
  validate_feature_definitions, feature, has_union, feature_definitions,
}

abbrev same_integer : ℤ → ℤ → Bool
same_integer (pos m) (pos n) = m == n
same_integer (negsuc m) (negsuc n) = m == n
same_integer _ _ = false

-- Fractions are reduced.
abbrev same_fraction : SignedFraction → SignedFraction → Bool
same_fraction a b = same_integer a.numerator b.numerator && (a.denominator == b.denominator)

has_fraction : SignedFraction → List SignedFraction → Bool
has_fraction f [] = false
has_fraction f (g ∷ gs) = same_fraction f g || has_fraction f gs

-- `{parse_canonical_decimal(value.value) for value in values if ...}`
numeric_values :
    List FeatureValue → List SignedFraction → Result ShortcutTreeError (List SignedFraction)
unfolding has_fraction
numeric_values [] found = ok found
numeric_values (numeric_value v ∷ values) found = do
  f ← parse_canonical_decimal v
  numeric_values values (if has_fraction f found then found else f ∷ found)
numeric_values (missing_value _ ∷ values) found = numeric_values values found
numeric_values (boolean_value _ ∷ values) found = numeric_values values found
numeric_values (categorical_value _ ∷ values) found = numeric_values values found

-- `{value.value for value in values if ...}`
categorical_values : List FeatureValue → List String → List String
categorical_values [] found = found
categorical_values (categorical_value v ∷ values) found =
    categorical_values values (if is_in v found then found else v ∷ found)
categorical_values (missing_value _ ∷ values) found = categorical_values values found
categorical_values (boolean_value _ ∷ values) found = categorical_values values found
categorical_values (numeric_value _ ∷ values) found = categorical_values values found

-- `append`: never beyond the ceiling.
unfoldable pub append :
    List TreePredicate → TreePredicate → Result ShortcutTreeError (List TreePredicate)
append candidates predicate = do
  raise_if (length candidates == max_predicates_per_node) too_many_predicates
  ok (candidates ++ predicate ∷ [])

unfoldable pub append_categorical :
    String → List String → List TreePredicate → Result ShortcutTreeError (List TreePredicate)
unfolding append
append_categorical key [] candidates = ok candidates
append_categorical key (item ∷ items) candidates = do
  more ← append candidates (record { feature_key = key; operator = equals_categorical item })
  append_categorical key items more

-- `for left, right in pairwise(numeric)`
unfoldable pub append_midpoints :
    String
    → SignedFraction
    → List SignedFraction
    → List TreePredicate
    → Result ShortcutTreeError (List TreePredicate)
unfolding append
append_midpoints key left [] candidates = ok candidates
append_midpoints key left (right ∷ rights) candidates = do
  operand ← canonical_decimal (mean left right)
  more ←
      append candidates
        (record { feature_key = key; operator = less_than_or_equal_numeric operand })
  append_midpoints key right rights more

unfoldable pub append_numeric :
    String
    → List SignedFraction
    → List TreePredicate
    → Result ShortcutTreeError (List TreePredicate)
unfolding append_midpoints
append_numeric key [] candidates = ok candidates
append_numeric key (left ∷ rights) candidates = append_midpoints key left rights candidates

-- The values of a feature in the rows.
node_values : FeatureDefinition → List FeatureVector → Result ShortcutTreeError (List FeatureValue)
node_values definition [] = ok []
node_values definition (row ∷ rows) = elim (feature definition.feature_key row.entries) [
  | none ↦ err absent_feature
  | some value ↦ do
    raise_if (not (same_type (feature_value_type value) definition.feature_type)) wrong_type
    values ← node_values definition rows
    ok (value ∷ values)
]

abbrev text_less : String → String → Bool
text_less a b = codes_less (codes a) (codes b)

-- The predicates of the values of one feature, behind its question for missing values.
unfoldable pub append_by_type :
    String
    → FeatureType
    → List FeatureValue
    → List TreePredicate
    → Result ShortcutTreeError (List TreePredicate)
unfolding append append_categorical append_numeric numeric_values categorical_values
append_by_type key boolean values candidates = do
  more ← append candidates (record { feature_key = key; operator = equals_boolean false })
  append more (record { feature_key = key; operator = equals_boolean true })
append_by_type key categorical values candidates =
    append_categorical key (sort text_less [] (categorical_values values [])) candidates
append_by_type key numeric values candidates = do
  distinct ← numeric_values values []
  append_numeric key (sort signed_less [] distinct) candidates

-- The loop over the feature definitions.
unfoldable pub append_features :
    List FeatureVector
    → List FeatureDefinition
    → List TreePredicate
    → Result ShortcutTreeError (List TreePredicate)
unfolding append append_by_type node_values
append_features rows [] candidates = ok candidates
append_features rows (definition ∷ definitions) candidates = do
  values ← node_values definition rows
  with_missing ←
      append candidates (record { feature_key = definition.feature_key; operator = is_missing })
  more ← append_by_type definition.feature_key definition.feature_type values with_missing
  append_features rows definitions more

unfoldable pub check_union : List FeatureVector → List FeatureDefinition → Check ShortcutTreeError
check_union [] definitions = ok tt
check_union (row ∷ rows) definitions = do
  raise_if (not (has_union row.entries definitions)) different_union
  check_union rows definitions

abbrev pub row_less : FeatureVector → FeatureVector → Bool
row_less r s = codes_less (codes r.incident_id) (codes s.incident_id)

abbrev has_no_rows : List FeatureVector → Bool
has_no_rows [] = true
has_no_rows (row ∷ rows) = false

-- By `predicate_bytes`
abbrev pub bytes_less : Hashes → TreePredicate → TreePredicate → Bool
bytes_less hashes p q = codes_less (hashes.predicate_bytes p) (hashes.predicate_bytes q)

-- `_strict_revalidate` of the supplied definitions
unfoldable pub validate_definition_keys : List FeatureDefinition → Check ShortcutTreeError
unfolding is_hex
validate_definition_keys [] = ok tt
validate_definition_keys (definition ∷ definitions) = do
  raise_if (not (is_hex 64 definition.feature_key)) malformed
  validate_definition_keys definitions

-- The definitions supplied, or those that the rows share.
unfoldable pub used_definitions :
    List FeatureVector
    → Option (List FeatureDefinition)
    → Result ShortcutTreeError (List FeatureDefinition)
unfolding feature_definitions validate_definition_keys
used_definitions rows (some definitions) = do validate_definition_keys definitions; ok definitions
used_definitions rows none = feature_definitions rows

unfoldable pub enumerate_predicates :
    Hashes
    → List FeatureVector
    → Option (List FeatureDefinition)
    → Result ShortcutTreeError (List TreePredicate)
unfolding append_features check_union used_definitions
enumerate_predicates hashes rows supplied = do
  validate_rows rows
  let ordered_rows = sort row_less [] rows
  raise_if (has_no_rows ordered_rows) no_rows
  definitions ← used_definitions ordered_rows supplied
  validate_feature_definitions definitions
  check_union ordered_rows definitions
  candidates ← append_features ordered_rows definitions []
  ok (sort (bytes_less hashes) [] candidates)
