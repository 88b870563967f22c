-- ===== src/Tree/Predicates.antt =====
-- Rows and predicates of src/fieldtrue/shortcut_v2_tree.py: their checks, what a predicate says of a
-- value, and the predicates that a node may split by.
use inbar.Prelude.{
  ℕ, String, List, [], ◌∷◌, map, Bool, true, false, not, ◌&&◌, ltb, codes, length, Option, none,
  some, if◌then◌else◌, string_discrete, all_distinct, is_hex, is_identifier, Result, ok, err, ◌>>=◌,
  ◌>>◌, raise_if, Check,
}
use inbar.Sorting.{codes_less}
use inbar.Tree.{
  FeatureType, boolean, numeric, categorical, FeatureValue, missing_value, boolean_value,
  numeric_value, categorical_value, FeatureEntry, FeatureVector, FeatureDefinition, is_missing,
  equals_boolean, equals_categorical, less_than_or_equal_numeric, TreePredicate, ShortcutTreeError,
  malformed, unordered_keys, duplicate_keys, too_many_features, no_rows, different_union,
  wrong_type,
}
use inbar.Tree.Decimal.{signed_at_most, parse_canonical_decimal}

abbrev pub max_features : ℕ
max_features = 4096

abbrev pub max_predicates_per_node : ℕ
max_predicates_per_node = 100_000

abbrev pub same_type : FeatureType → FeatureType → Bool
same_type boolean boolean = true
same_type numeric numeric = true
same_type categorical categorical = true
same_type _ _ = false

unfoldable pub feature_value_type : FeatureValue → FeatureType
feature_value_type (missing_value t) = t
feature_value_type (boolean_value _) = boolean
feature_value_type (numeric_value _) = numeric
feature_value_type (categorical_value _) = categorical

abbrev pub same_text : String → String → Bool
same_text s t = elim (string_discrete s t) [ yes _ ↦ true | no _ ↦ false ]

-- `keys == sorted(keys)`: no key is below the one before it.
unfoldable pub in_order : List String → Bool
in_order [] = true
in_order (k ∷ []) = true
in_order (k ∷ l ∷ keys) = not (codes_less (codes l) (codes k)) && in_order (l ∷ keys)

-- Any text here has an encoding in UTF-8.
unfoldable pub validate_value : FeatureValue → Check ShortcutTreeError
validate_value (numeric_value v) = do _ ← parse_canonical_decimal v; ok tt
validate_value _ = ok tt

unfoldable pub validate_entries : List FeatureEntry → Check ShortcutTreeError
unfolding is_hex
validate_entries [] = ok tt
validate_entries (entry ∷ entries) = do
  raise_if (not (is_hex 64 entry.feature_key)) malformed
  validate_value entry.value
  validate_entries entries

abbrev pub entry_key : FeatureEntry → String
entry_key entry = entry.feature_key

-- `_strict_revalidate` of a row
unfoldable pub validate_row : FeatureVector → Check ShortcutTreeError
unfolding is_identifier
validate_row row = do
  raise_if (not (is_identifier row.incident_id)) malformed
  validate_entries row.entries
  raise_if (not (in_order (map entry_key row.entries))) unordered_keys
  raise_if (not (all_distinct (map entry_key row.entries))) duplicate_keys
  ok tt

unfoldable pub validate_rows : List FeatureVector → Check ShortcutTreeError
validate_rows [] = ok tt
validate_rows (row ∷ rows) = do validate_row row; validate_rows rows

abbrev pub definition_key : FeatureDefinition → String
definition_key definition = definition.feature_key

-- `_validate_feature_definitions`
unfoldable pub validate_feature_definitions : List FeatureDefinition → Check ShortcutTreeError
validate_feature_definitions definitions = do
  raise_if (not (in_order (map definition_key definitions))) unordered_keys
  raise_if (not (all_distinct (map definition_key definitions))) duplicate_keys
  raise_if (ltb max_features (length definitions)) too_many_features
  ok tt

-- `_feature_map(row)[key]`: a later entry replaces an earlier one.
unfoldable pub feature : String → List FeatureEntry → Option FeatureValue
feature key [] = none
feature key (entry ∷ entries) = elim (feature key entries) [
  | some value ↦ some value
  | none ↦ if same_text entry.feature_key key then some entry.value else none
]

-- Whether the keys and types of a row are those of the definitions, in their order.
unfoldable pub has_union : List FeatureEntry → List FeatureDefinition → Bool
unfolding feature_value_type
has_union [] [] = true
has_union [] (definition ∷ definitions) = false
has_union (entry ∷ entries) [] = false
has_union (entry ∷ entries) (definition ∷ definitions) =
    same_text entry.feature_key definition.feature_key
    && same_type (feature_value_type entry.value) definition.feature_type
    && has_union entries definitions

abbrev definition_of : FeatureEntry → FeatureDefinition
definition_of entry = record {
  feature_key = entry.feature_key;
  feature_type = feature_value_type entry.value;
}

check_others : List FeatureDefinition → List FeatureVector → Check ShortcutTreeError
check_others definitions [] = ok tt
check_others definitions (row ∷ rows) = do
  raise_if (ltb max_features (length row.entries)) too_many_features
  raise_if (not (has_union row.entries definitions)) different_union
  check_others definitions rows

-- `_feature_definitions`: what all rows share.
unfoldable pub feature_definitions :
    List FeatureVector → Result ShortcutTreeError (List FeatureDefinition)
unfolding check_others
feature_definitions [] = err no_rows
feature_definitions (first ∷ rows) = do
  raise_if (ltb max_features (length first.entries)) too_many_features
  let definitions = map definition_of first.entries
  check_others definitions rows
  ok definitions

unfoldable pub predicate_supports_type : TreePredicate → FeatureType → Bool
predicate_supports_type predicate type = elim predicate.operator [
  | is_missing ↦ true
  | equals_boolean _ ↦ same_type type boolean
  | equals_categorical _ ↦ same_type type categorical
  | less_than_or_equal_numeric _ ↦ same_type type numeric
]

abbrev same_bool : Bool → Bool → Bool
same_bool true b = b
same_bool false b = not b

at_most_operand : List ℕ → List ℕ → Result ShortcutTreeError Bool
at_most_operand value operand = do
  v ← parse_canonical_decimal value
  o ← parse_canonical_decimal operand
  ok (signed_at_most v o)

matches_boolean : Bool → FeatureValue → Result ShortcutTreeError Bool
matches_boolean operand (boolean_value value) = ok (same_bool value operand)
matches_boolean operand _ = err wrong_type

matches_categorical : String → FeatureValue → Result ShortcutTreeError Bool
matches_categorical operand (categorical_value value) = ok (same_text value operand)
matches_categorical operand _ = err wrong_type

matches_numeric : List ℕ → FeatureValue → Result ShortcutTreeError Bool
unfolding at_most_operand
matches_numeric operand (numeric_value value) = at_most_operand value operand
matches_numeric operand _ = err wrong_type

abbrev pub is_missing_value : FeatureValue → Bool
is_missing_value (missing_value _) = true
is_missing_value _ = false

-- `_predicate_matches`: a missing value matches only the question whether it is missing.
unfoldable pub predicate_matches : TreePredicate → FeatureValue → Result ShortcutTreeError Bool
unfolding matches_boolean matches_categorical matches_numeric
predicate_matches predicate value = elim predicate.operator [
  | is_missing ↦ ok (is_missing_value value)
  | equals_boolean operand ↦
      if is_missing_value value then ok false else matches_boolean operand value
  | equals_categorical operand ↦
      if is_missing_value value then ok false else matches_categorical operand value
  | less_than_or_equal_numeric operand ↦
      if is_missing_value value then ok false else matches_numeric operand value
]
