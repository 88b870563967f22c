-- ===== src/Tree/Fit.antt =====
-- `fit_depth_two_exact_gini` of src/fieldtrue/shortcut_v2_tree.py: the leaves, the best split of a
-- node, the tree, and its validation by recomputation.
use inbar.Prelude.{
  ℕ, String, List, [], ◌∷◌, map, Bool, true, false, not, ◌&&◌, ◌||◌, ◌==◌, leb, codes, length,
  Option, none, some, if◌then◌else◌, string_discrete, is_subset, all_distinct, Result, ok, err,
  ◌>>=◌, ◌>>◌, raise_if, Check,
}
use inbar.Sorting.{sort, codes_less}
use inbar.Rational.{Fraction, less, equal}
use inbar.Tree.{
  FeatureVector, FeatureDefinition, TreePredicate, TreeElementState, TreeLeaf, TreeNode, Element,
  leaf, node, DepthOneChild, TreeRoot, DepthTwoExactGiniTree, Hashes, ShortcutTreeError, no_rows,
  duplicate_incidents, targets_differ, not_prediction_key, absent_feature,
  differs_from_recomputation,
}
use inbar.Tree.Counts.{counter, class_count_tuple}
use inbar.Tree.Gini.{exact_gini, weighted_gini}
use inbar.Tree.Predicates.{validate_rows, feature, predicate_matches, feature_definitions}
use inbar.Tree.Enumerate.{enumerate_predicates, row_less}
use inbar.Tree.Validate.{
  minimum_child_incidents, maximum_depth, is_prediction_key, modal_key, validate_leaf,
}
use inbar.Tree.Nodes.{leaf_state, element_state, validate_node, validate_tree}

-- `_TrainingExample`; its features are those of its row.
pub record TrainingExample : Type 0 where
  pub row : FeatureVector
  pub target : String

abbrev pub example_id : TrainingExample → String
example_id e = e.row.incident_id

abbrev pub example_target : TrainingExample → String
example_target e = e.target

abbrev pub example_row : TrainingExample → FeatureVector
example_row e = e.row

abbrev pub text_less : String → String → Bool
text_less a b = codes_less (codes a) (codes b)

module _ (hashes : Hashes) where
  -- `_element_statistics`, as the state of an element at a depth
  unfoldable pub element_statistics :
      List TrainingExample → ℕ → Result ShortcutTreeError TreeElementState
  unfolding counter class_count_tuple exact_gini
  element_statistics examples depth = do
    let identifiers = sort text_less [] (map example_id examples)
    let counts = counter [] (map example_target examples)
    impurity ← exact_gini counts
    ok (record {
      depth = depth;
      train_incident_ids = identifiers;
      train_incident_ids_sha256 = hashes.incident_root identifiers;
      class_counts = class_count_tuple counts;
      impurity = impurity;
    })

  -- `_leaf`
  unfoldable pub make_leaf : List TrainingExample → ℕ → Result ShortcutTreeError TreeLeaf
  unfolding element_statistics modal_key validate_leaf
  make_leaf examples depth = do
    state ← element_statistics examples depth
    let made : TreeLeaf = record { state = state; prediction_key = modal_key state.class_counts }
    validate_leaf hashes made
    ok made

  -- `_predicate_matches(predicate, example.features[predicate.feature_key])`
  unfoldable pub goes_true : TreePredicate → TrainingExample → Result ShortcutTreeError Bool
  goes_true predicate example = elim (feature predicate.feature_key example.row.entries) [
    | none ↦ err absent_feature
    | some value ↦ predicate_matches predicate value
  ]

  pub record Parts : Type 0 where
    pub false_examples : List TrainingExample
    pub true_examples : List TrainingExample

  abbrev pub to_part : Bool → TrainingExample → Parts → Parts
  to_part matches example parts =
      if matches
      then record {
        false_examples = parts.false_examples;
        true_examples = example ∷ parts.true_examples;
      }
      else record {
        false_examples = example ∷ parts.false_examples;
        true_examples = parts.true_examples;
      }

  -- The loop over the examples of a node.
  unfoldable pub divide : TreePredicate → List TrainingExample → Result ShortcutTreeError Parts
  unfolding goes_true
  divide predicate [] = ok (record { false_examples = []; true_examples = [] })
  divide predicate (example ∷ examples) = do
    matches ← goes_true predicate example
    parts ← divide predicate examples
    ok (to_part matches example parts)

  pub record Candidate : Type 0 where
    pub score : Fraction
    pub predicate : TreePredicate
    pub parts : Parts

  -- `candidate[:2] < best[:2]`
  abbrev pub precedes : Candidate → Candidate → Bool
  precedes c d =
      less c.score d.score
      || equal c.score d.score
        && codes_less (hashes.predicate_bytes c.predicate) (hashes.predicate_bytes d.predicate)

  abbrev pub better : Candidate → Option Candidate → Option Candidate
  better c none = some c
  better c (some best) = if precedes c best then some c else some best

  abbrev targets : List TrainingExample → List String
  targets examples = map example_target examples

  abbrev pub is_admissible : Parts → Bool
  is_admissible parts =
      leb minimum_child_incidents (length parts.false_examples)
      && leb minimum_child_incidents (length parts.true_examples)

  unfoldable pub score_of : Parts → Result ShortcutTreeError Fraction
  unfolding weighted_gini counter
  score_of parts =
      weighted_gini (counter [] (targets parts.false_examples))
        (counter [] (targets parts.true_examples))

  -- One round of the loop over the candidates.
  unfoldable pub consider :
      List TrainingExample
      → TreePredicate
      → Option Candidate
      → Result ShortcutTreeError (Option Candidate)
  unfolding divide score_of
  consider examples predicate best = do
    parts ← divide predicate examples
    elim (is_admissible parts) [
      | false ↦ ok best
      | true ↦ do
        score ← score_of parts
        ok (better (record { score = score; predicate = predicate; parts = parts }) best)
    ]

  unfoldable pub best_split :
      List TrainingExample
      → List TreePredicate
      → Option Candidate
      → Result ShortcutTreeError (Option Candidate)
  unfolding consider
  best_split examples [] best = ok best
  best_split examples (predicate ∷ predicates) best = do
    next ← consider examples predicate best
    best_split examples predicates next

  -- `best is None or best[0] >= impurity`, else the best
  abbrev pub improving : Option Candidate → Fraction → Option Candidate
  improving none impurity = none
  improving (some best) impurity = if less best.score impurity then some best else none

  module _ (definitions : List FeatureDefinition) where
    module _ {Child : Type 0} (state_of : Child → TreeElementState)
        (fit_child : List TrainingExample → Result ShortcutTreeError Child) (depth : ℕ) where
      -- The node of the best split, its children fitted one level below.
      unfoldable pub split_node :
          TreeElementState → Candidate → Result ShortcutTreeError (Element Child)
      unfolding validate_node
      split_node state best = do
        false_child ← fit_child best.parts.false_examples
        true_child ← fit_child best.parts.true_examples
        let made : TreeNode Child = record {
          state = state;
          predicate = best.predicate;
          split_impurity = best.score;
          false_child = false_child;
          true_child = true_child;
        }
        validate_node hashes state_of depth made
        ok (node made)

      -- `_fit_element`, above the maximum depth
      unfoldable pub fit_element : List TrainingExample → Result ShortcutTreeError (Element Child)
      unfolding element_statistics enumerate_predicates best_split make_leaf split_node
      fit_element examples = do
        state ← element_statistics examples depth
        candidates ← enumerate_predicates hashes (map example_row examples) (some definitions)
        best ← best_split examples candidates none
        elim (improving best state.impurity) [
          | none ↦ do made ← make_leaf examples depth; ok (leaf made)
          | some split ↦ split_node state split
        ]

    unfoldable pub fit_leaf : List TrainingExample → Result ShortcutTreeError TreeLeaf
    unfolding make_leaf
    fit_leaf examples = make_leaf examples maximum_depth

    unfoldable pub fit_child : List TrainingExample → Result ShortcutTreeError DepthOneChild
    unfolding fit_leaf fit_element
    fit_child = fit_element leaf_state fit_leaf 1

    unfoldable pub fit_root : List TrainingExample → Result ShortcutTreeError TreeRoot
    unfolding fit_child fit_element
    fit_root = fit_element element_state fit_child 0

-- A mapping of incidents to targets, its keys distinct.
abbrev pub Targets : Type 0
Targets = List (String × String)

unfoldable pub target_of : String → Targets → Option String
target_of i [] = none
target_of i ((j, t) ∷ rest) =
    let later = target_of i rest in elim (string_discrete j i) [ yes _ ↦ some t | no _ ↦ later ]

abbrev target_key : String × String → String
target_key (i, t) = i

-- The rows with their targets.
unfoldable pub label :
    Targets → List FeatureVector → Result ShortcutTreeError (List TrainingExample)
unfolding target_of is_prediction_key
label targets [] = ok []
label targets (row ∷ rows) = elim (target_of row.incident_id targets) [
  | none ↦ err targets_differ
  | some target ↦ do
    raise_if (not (is_prediction_key target)) not_prediction_key
    examples ← label targets rows
    ok (record { row = row; target = target } ∷ examples)
]

abbrev pub row_id : FeatureVector → String
row_id row = row.incident_id

abbrev has_none : List FeatureVector → Bool
has_none [] = true
has_none (row ∷ rows) = false

-- The incidents of the rows are there, distinct, and exactly those with a target.
unfoldable pub check_training : List FeatureVector → Targets → Check ShortcutTreeError
check_training ordered_rows targets = do
  let identifiers = map row_id ordered_rows
  raise_if (has_none ordered_rows) no_rows
  raise_if (not (all_distinct identifiers)) duplicate_incidents
  raise_if
      (not (
        is_subset (map target_key targets) identifiers
        && is_subset identifiers (map target_key targets)))
      targets_differ
  ok tt

abbrev pub fitted_tree :
    Hashes → List FeatureDefinition → List String → TreeRoot → DepthTwoExactGiniTree
fitted_tree hashes definitions identifiers root = record {
  feature_definitions = definitions;
  feature_root_sha256 = hashes.feature_definition_root definitions;
  train_incident_ids = identifiers;
  train_incident_ids_sha256 = hashes.incident_root identifiers;
  root = root;
}

unfoldable pub fit_depth_two_exact_gini :
    Hashes → List FeatureVector → Targets → Result ShortcutTreeError DepthTwoExactGiniTree
unfolding validate_rows check_training feature_definitions label fit_root validate_tree
fit_depth_two_exact_gini hashes rows targets = do
  validate_rows rows
  let ordered_rows = sort row_less [] rows
  check_training ordered_rows targets
  definitions ← feature_definitions ordered_rows
  examples ← label targets ordered_rows
  root ← fit_root hashes definitions examples
  let tree = fitted_tree hashes definitions (map row_id ordered_rows) root
  validate_tree hashes tree
  ok tree

same_bytes : List ℕ → List ℕ → Bool
same_bytes [] [] = true
same_bytes (b ∷ bs) (c ∷ cs) = b == c && same_bytes bs cs
same_bytes _ _ = false

unfoldable pub validate_fitted_tree :
    Hashes → DepthTwoExactGiniTree → List FeatureVector → Targets → Check ShortcutTreeError
unfolding validate_tree fit_depth_two_exact_gini same_bytes
validate_fitted_tree hashes supplied rows targets = do
  validate_tree hashes supplied
  recomputed ← fit_depth_two_exact_gini hashes rows targets
  raise_if (not (same_bytes (hashes.tree_json supplied) (hashes.tree_json recomputed)))
      differs_from_recomputation
  ok tt
