-- ===== src/Tree/Tests.antt =====
-- Runs of the tree learner of src/fieldtrue/shortcut_v2_tree.py, and concrete cases of its theorems.
use inbar.Prelude.{
  ℕ, String, List, [], ◌∷◌, ◌++◌, Bool, true, false, ◌≡◌, refl, codes, Option, none, some, Result,
  ok, err, ◌>>=◌, not, All, length, ◌<◌, ◌↔◌,
}
use inbar.Tree.{
  FeatureType, boolean, numeric, categorical, FeatureValue, missing_value, boolean_value,
  numeric_value, categorical_value, FeatureEntry, FeatureVector, FeatureDefinition, Operator,
  is_missing, equals_boolean, equals_categorical, less_than_or_equal_numeric, TreePredicate, Hashes,
  ShortcutTreeError, DepthTwoExactGiniTree, TreePrediction, ClassCount, TreeLeaf, leaf, node,
}
use inbar.Tree.Decimal.{
  parse_canonical_decimal, canonical_decimal, exact_midpoint, render_unbounded_decimal_digits,
  parse_unbounded_decimal_digits, read_digits,
}
use inbar.Tree.Fit.{fit_depth_two_exact_gini, Targets, TrainingExample, Candidate, best_split}
use inbar.Tree.Route.{IsRouted, fit_depth_two_exact_gini-IsRouted}
use inbar.Tree.Best.{IsBestOf, best_split-IsBestOf}
use inbar.Tree.Gini.{exact_gini, exact_gini_bounds}
use inbar.Tree.Digits.{parse-render}
use inbar.Rational.{Fraction}
use inbar.Tree.Predict.{validate_tree_prediction, predict_depth_two_tree, descend_root}

abbrev key_a : String
key_a = "aaaaaaaaaaaaaaaaaaaaaaaaaaaaaaaaaaaaaaaaaaaaaaaaaaaaaaaaaaaaaaaa"

abbrev key_b : String
key_b = "bbbbbbbbbbbbbbbbbbbbbbbbbbbbbbbbbbbbbbbbbbbbbbbbbbbbbbbbbbbbbbbb"

abbrev operator_bytes : Operator → List ℕ
operator_bytes (equals_boolean true) = 1 ∷ 1 ∷ []
operator_bytes (equals_boolean false) = 1 ∷ 0 ∷ []
operator_bytes (equals_categorical v) = 2 ∷ codes v
operator_bytes is_missing = 3 ∷ []
operator_bytes (less_than_or_equal_numeric v) = 4 ∷ v

abbrev hashes : Hashes
hashes = record {
  incident_root = λ _. key_a;
  feature_definition_root = λ _. key_b;
  predicate_bytes = λ p. codes p.feature_key ++ operator_bytes p.operator;
  tree_json = λ t. codes t.feature_root_sha256;
  prediction_json = λ p. codes p.incident_id;
}

abbrev row : String → FeatureValue → FeatureValue → FeatureVector
row i a b = record {
  incident_id = i;
  entries =
      record { feature_key = key_a; value = a } ∷ record { feature_key = key_b; value = b } ∷ [];
}

abbrev rows : List FeatureVector
rows =
    row "i2" (boolean_value true) (numeric_value (codes "1.5"))
    ∷ row "i1" (boolean_value true) (numeric_value (codes "-2"))
    ∷ row "i3" (boolean_value false) (numeric_value (codes "3"))
    ∷ row "i4" (boolean_value false) (numeric_value (codes "0.25"))
    ∷ []

abbrev targets : Targets
targets = ("i1", key_a) ∷ ("i2", key_a) ∷ ("i3", "unknown") ∷ ("i4", key_b) ∷ []

abbrev leaf_of : List String → List ClassCount → Fraction → Option String → TreeLeaf
leaf_of ids counts impurity key = record {
  state = record {
    depth = 1;
    train_incident_ids = ids;
    train_incident_ids_sha256 = key_a;
    class_counts = counts;
    impurity = impurity;
  };
  prediction_key = key;
}

abbrev count : String → ℕ → ClassCount
count key n = record { prediction_key = key; count = n }

abbrev ratio : ℕ → ℕ → Fraction
ratio n d = record { numerator = n; denominator = d }

-- The first of the best splits by bytes: by the Boolean feature.
abbrev tree : DepthTwoExactGiniTree
tree = record {
  feature_definitions =
      record { feature_key = key_a; feature_type = boolean }
      ∷ record { feature_key = key_b; feature_type = numeric }
      ∷ [];
  feature_root_sha256 = key_b;
  train_incident_ids = "i1" ∷ "i2" ∷ "i3" ∷ "i4" ∷ [];
  train_incident_ids_sha256 = key_a;
  root = node (record {
    state = record {
      depth = 0;
      train_incident_ids = "i1" ∷ "i2" ∷ "i3" ∷ "i4" ∷ [];
      train_incident_ids_sha256 = key_a;
      class_counts = count key_a 2 ∷ count key_b 1 ∷ count "unknown" 1 ∷ [];
      impurity = ratio 5 8;
    };
    predicate = record { feature_key = key_a; operator = equals_boolean false };
    split_impurity = ratio 1 4;
    false_child = leaf (leaf_of ("i1" ∷ "i2" ∷ []) (count key_a 2 ∷ []) (ratio 0 1) (some key_a));
    true_child =
        leaf (leaf_of ("i3" ∷ "i4" ∷ []) (count key_b 1 ∷ count "unknown" 1 ∷ []) (ratio 1 2) none);
  });
}

fit_rows : fit_depth_two_exact_gini hashes rows targets ≡ ok tree
unfolding inbar.Rational.gcd_rounds inbar.Rational.gcd inbar.Rational.fraction inbar.Rational.add
    inbar.Rational.subtract inbar.Rational.multiply inbar.Sorting.codes_less inbar.Sorting.insert
    inbar.Sorting.sort inbar.Tree.Counts.count_one inbar.Tree.Counts.counter
    inbar.Tree.Counts.class_count_tuple inbar.Tree.Gini.any_zero inbar.Tree.Gini.sum_squares
    inbar.Tree.Gini.exact_gini inbar.Tree.Gini.weighted_gini inbar.Tree.Decimal.signed_fraction
    inbar.Tree.Decimal.take inbar.Tree.Decimal.drop inbar.Tree.Decimal.read_digits
    inbar.Tree.Decimal.parse_chunks inbar.Tree.Decimal.parse_unbounded_decimal_digits
    inbar.Tree.Decimal.padded inbar.Tree.Decimal.str_loop inbar.Tree.Decimal.str
    inbar.Tree.Decimal.render_chunks inbar.Tree.Decimal.render_unbounded_decimal_digits
    inbar.Tree.Decimal.parse_canonical_decimal inbar.Tree.Decimal.divide_out
    inbar.Tree.Decimal.place_dot inbar.Tree.Decimal.canonical_decimal inbar.Tree.Decimal.mean
    inbar.Tree.Decimal.exact_midpoint inbar.Tree.Predicates.feature_value_type
    inbar.Tree.Predicates.in_order inbar.Tree.Predicates.validate_value
    inbar.Tree.Predicates.validate_entries inbar.Tree.Predicates.validate_row
    inbar.Tree.Predicates.validate_rows inbar.Tree.Predicates.validate_feature_definitions
    inbar.Tree.Predicates.feature inbar.Tree.Predicates.has_union
    inbar.Tree.Predicates.feature_definitions inbar.Tree.Predicates.predicate_supports_type
    inbar.Tree.Predicates.predicate_matches inbar.Tree.Enumerate.append
    inbar.Tree.Enumerate.append_categorical inbar.Tree.Enumerate.append_midpoints
    inbar.Tree.Enumerate.append_numeric inbar.Tree.Enumerate.append_by_type
    inbar.Tree.Enumerate.append_features inbar.Tree.Enumerate.check_union
    inbar.Tree.Enumerate.validate_definition_keys inbar.Tree.Enumerate.used_definitions
    inbar.Tree.Enumerate.enumerate_predicates inbar.Tree.Validate.is_prediction_key
    inbar.Tree.Validate.count_of inbar.Tree.Validate.validate_counts
    inbar.Tree.Validate.validate_rational inbar.Tree.Validate.all_identifiers
    inbar.Tree.Validate.validate_fields inbar.Tree.Validate.statistics_are_derived
    inbar.Tree.Validate.validate_state inbar.Tree.Validate.largest inbar.Tree.Validate.winners
    inbar.Tree.Validate.modal_key inbar.Tree.Validate.validate_leaf inbar.Tree.Validate.count_more
    inbar.Tree.Validate.update_counts inbar.Tree.Validate.counts_within
    inbar.Tree.Validate.same_counts inbar.Tree.Validate.have_common inbar.Tree.Nodes.expected_split
    inbar.Tree.Nodes.validate_split inbar.Tree.Nodes.validate_predicate
    inbar.Tree.Nodes.validate_node inbar.Tree.Nodes.validate_element inbar.Tree.Nodes.validate_child
    inbar.Tree.Nodes.validate_root inbar.Tree.Nodes.type_of inbar.Tree.Nodes.check_predicate
    inbar.Tree.Nodes.check_child inbar.Tree.Nodes.check_predicates
    inbar.Tree.Nodes.tree_is_bound_and_depth_limited inbar.Tree.Nodes.validate_tree
    inbar.Tree.Fit.element_statistics inbar.Tree.Fit.make_leaf inbar.Tree.Fit.goes_true
    inbar.Tree.Fit.divide inbar.Tree.Fit.score_of inbar.Tree.Fit.consider inbar.Tree.Fit.best_split
    inbar.Tree.Fit.split_node inbar.Tree.Fit.fit_element inbar.Tree.Fit.fit_leaf
    inbar.Tree.Fit.fit_child inbar.Tree.Fit.fit_root inbar.Tree.Fit.target_of inbar.Tree.Fit.label
    inbar.Tree.Fit.check_training inbar.Tree.Fit.fit_depth_two_exact_gini
    inbar.Tree.Fit.validate_fitted_tree inbar.Tree.Predict.validate_hypotheses
    inbar.Tree.Predict.hypothesis_of inbar.Tree.Predict.descend inbar.Tree.Predict.descend_child
    inbar.Tree.Predict.descend_root inbar.Tree.Predict.prediction_state_is_consistent
    inbar.Tree.Predict.validate_prediction inbar.Tree.Predict.select
    inbar.Tree.Predict.predict_depth_two_tree inbar.Tree.Predict.validate_tree_prediction
    inbar.Prelude.is_hex inbar.Prelude.is_identifier inbar.Prelude.all_codes inbar.Prelude.between
    inbar.Prelude.is_whole inbar.Prelude.is_subset inbar.Prelude.all_distinct
    inbar.Prelude.string_discrete
fit_rows = refl

fit_depth_two_exact_gini-IsRouted_example : All (IsRouted descend_root 0 tree.root) rows
fit_depth_two_exact_gini-IsRouted_example =
    fit_depth_two_exact_gini-IsRouted hashes rows targets tree fit_rows

midpoint : exact_midpoint (codes "-0.5") (codes "2") ≡ ok (codes "0.75")
unfolding exact_midpoint parse_canonical_decimal inbar.Tree.Decimal.read_digits
    inbar.Rational.fraction inbar.Rational.gcd canonical_decimal inbar.Tree.Decimal.mean
midpoint = refl

digits : render_unbounded_decimal_digits 12345678901234567890 ≡ codes "12345678901234567890"
unfolding render_unbounded_decimal_digits
digits = refl

digits_back : parse_unbounded_decimal_digits (codes "12345678901234567890") ≡ 12345678901234567890
unfolding parse_unbounded_decimal_digits inbar.Tree.Decimal.read_digits
digits_back = refl

parse-render_example :
    parse_unbounded_decimal_digits (render_unbounded_decimal_digits 1000000000000000007)
    ≡ 1000000000000000007
parse-render_example = parse-render 1000000000000000007

abbrev three : List ClassCount
three = count key_a 2 ∷ count key_b 1 ∷ count "unknown" 1 ∷ []

gini_of_three : exact_gini three ≡ ok (ratio 5 8)
unfolding exact_gini inbar.Tree.Gini.any_zero inbar.Rational.subtract inbar.Rational.gcd
    inbar.Tree.Gini.sum_squares inbar.Rational.add inbar.Rational.multiply
gini_of_three = refl

exact_gini_bounds_example : (5 < 8) × (((ratio 5 8).numerator ≡ 0) ↔ (length three ≡ 1))
exact_gini_bounds_example = exact_gini_bounds three (ratio 5 8) gini_of_three

abbrev example : String → FeatureValue → String → TrainingExample
example i a target = record { row = row i a (missing_value numeric); target = target }

abbrev examples : List TrainingExample
examples =
    example "i1" (boolean_value true) key_a
    ∷ example "i2" (boolean_value true) key_a
    ∷ example "i3" (boolean_value false) key_b
    ∷ example "i4" (boolean_value false) key_b
    ∷ []

abbrev asked : Operator → TreePredicate
asked operator = record { feature_key = key_a; operator = operator }

abbrev candidates : List TreePredicate
candidates = asked (equals_boolean false) ∷ asked (equals_boolean true) ∷ asked is_missing ∷ []

abbrev chosen : Candidate hashes
chosen = record {
  score = ratio 0 1;
  predicate = asked (equals_boolean false);
  parts = record {
    false_examples =
        example "i1" (boolean_value true) key_a ∷ example "i2" (boolean_value true) key_a ∷ [];
    true_examples =
        example "i3" (boolean_value false) key_b ∷ example "i4" (boolean_value false) key_b ∷ [];
  };
}

choose_candidates : best_split hashes examples candidates none ≡ ok (some chosen)
unfolding best_split inbar.Tree.Predicates.feature inbar.Prelude.string_discrete
    inbar.Tree.Predicates.predicate_matches inbar.Tree.Counts.count_one exact_gini
    inbar.Tree.Gini.any_zero inbar.Rational.multiply inbar.Rational.add inbar.Rational.gcd
    inbar.Rational.subtract inbar.Tree.Gini.sum_squares inbar.Sorting.codes_less
choose_candidates = refl

best_split-IsBestOf_example : IsBestOf hashes examples candidates (some chosen)
best_split-IsBestOf_example =
    best_split-IsBestOf hashes examples candidates (some chosen) choose_candidates

abbrev missing_row : FeatureVector
missing_row = row "i9" (missing_value boolean) (missing_value numeric)

abbrev missing_prediction : TreePrediction
missing_prediction = record {
  incident_id = "i9";
  proposed_prediction_key = some key_a;
  selected_prediction_key = some key_a;
  selected_hypothesis_id = some "h1";
  abstention_reason = none;
  predicates_evaluated = asked (equals_boolean false) ∷ [];
  feature_keys_read = key_a ∷ [];
  leaf_depth = 1;
}

predict_missing :
    predict_depth_two_tree hashes tree missing_row ((key_a, "h1") ∷ []) ≡ ok missing_prediction
unfolding inbar.Rational.gcd_rounds inbar.Rational.gcd inbar.Rational.fraction inbar.Rational.add
    inbar.Rational.subtract inbar.Rational.multiply inbar.Sorting.codes_less inbar.Sorting.insert
    inbar.Sorting.sort inbar.Tree.Counts.count_one inbar.Tree.Counts.counter
    inbar.Tree.Counts.class_count_tuple inbar.Tree.Gini.any_zero inbar.Tree.Gini.sum_squares
    inbar.Tree.Gini.exact_gini inbar.Tree.Gini.weighted_gini inbar.Tree.Decimal.signed_fraction
    inbar.Tree.Decimal.take inbar.Tree.Decimal.drop inbar.Tree.Decimal.read_digits
    inbar.Tree.Decimal.parse_chunks inbar.Tree.Decimal.parse_unbounded_decimal_digits
    inbar.Tree.Decimal.padded inbar.Tree.Decimal.str_loop inbar.Tree.Decimal.str
    inbar.Tree.Decimal.render_chunks inbar.Tree.Decimal.render_unbounded_decimal_digits
    inbar.Tree.Decimal.parse_canonical_decimal inbar.Tree.Decimal.divide_out
    inbar.Tree.Decimal.place_dot inbar.Tree.Decimal.canonical_decimal inbar.Tree.Decimal.mean
    inbar.Tree.Decimal.exact_midpoint inbar.Tree.Predicates.feature_value_type
    inbar.Tree.Predicates.in_order inbar.Tree.Predicates.validate_value
    inbar.Tree.Predicates.validate_entries inbar.Tree.Predicates.validate_row
    inbar.Tree.Predicates.validate_rows inbar.Tree.Predicates.validate_feature_definitions
    inbar.Tree.Predicates.feature inbar.Tree.Predicates.has_union
    inbar.Tree.Predicates.feature_definitions inbar.Tree.Predicates.predicate_supports_type
    inbar.Tree.Predicates.predicate_matches inbar.Tree.Enumerate.append
    inbar.Tree.Enumerate.append_categorical inbar.Tree.Enumerate.append_midpoints
    inbar.Tree.Enumerate.append_numeric inbar.Tree.Enumerate.append_by_type
    inbar.Tree.Enumerate.append_features inbar.Tree.Enumerate.check_union
    inbar.Tree.Enumerate.validate_definition_keys inbar.Tree.Enumerate.used_definitions
    inbar.Tree.Enumerate.enumerate_predicates inbar.Tree.Validate.is_prediction_key
    inbar.Tree.Validate.count_of inbar.Tree.Validate.validate_counts
    inbar.Tree.Validate.validate_rational inbar.Tree.Validate.all_identifiers
    inbar.Tree.Validate.validate_fields inbar.Tree.Validate.statistics_are_derived
    inbar.Tree.Validate.validate_state inbar.Tree.Validate.largest inbar.Tree.Validate.winners
    inbar.Tree.Validate.modal_key inbar.Tree.Validate.validate_leaf inbar.Tree.Validate.count_more
    inbar.Tree.Validate.update_counts inbar.Tree.Validate.counts_within
    inbar.Tree.Validate.same_counts inbar.Tree.Validate.have_common inbar.Tree.Nodes.expected_split
    inbar.Tree.Nodes.validate_split inbar.Tree.Nodes.validate_predicate
    inbar.Tree.Nodes.validate_node inbar.Tree.Nodes.validate_element inbar.Tree.Nodes.validate_child
    inbar.Tree.Nodes.validate_root inbar.Tree.Nodes.type_of inbar.Tree.Nodes.check_predicate
    inbar.Tree.Nodes.check_child inbar.Tree.Nodes.check_predicates
    inbar.Tree.Nodes.tree_is_bound_and_depth_limited inbar.Tree.Nodes.validate_tree
    inbar.Tree.Fit.element_statistics inbar.Tree.Fit.make_leaf inbar.Tree.Fit.goes_true
    inbar.Tree.Fit.divide inbar.Tree.Fit.score_of inbar.Tree.Fit.consider inbar.Tree.Fit.best_split
    inbar.Tree.Fit.split_node inbar.Tree.Fit.fit_element inbar.Tree.Fit.fit_leaf
    inbar.Tree.Fit.fit_child inbar.Tree.Fit.fit_root inbar.Tree.Fit.target_of inbar.Tree.Fit.label
    inbar.Tree.Fit.check_training inbar.Tree.Fit.fit_depth_two_exact_gini
    inbar.Tree.Fit.validate_fitted_tree inbar.Tree.Predict.validate_hypotheses
    inbar.Tree.Predict.hypothesis_of inbar.Tree.Predict.descend inbar.Tree.Predict.descend_child
    inbar.Tree.Predict.descend_root inbar.Tree.Predict.prediction_state_is_consistent
    inbar.Tree.Predict.validate_prediction inbar.Tree.Predict.select
    inbar.Tree.Predict.predict_depth_two_tree inbar.Tree.Predict.validate_tree_prediction
    inbar.Prelude.is_hex inbar.Prelude.is_identifier inbar.Prelude.all_codes inbar.Prelude.between
    inbar.Prelude.is_whole inbar.Prelude.is_subset inbar.Prelude.all_distinct
    inbar.Prelude.string_discrete
predict_missing = refl
