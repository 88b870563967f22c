-- ===== src/Tree/Nodes.antt =====
-- `_validate_node`, the validators of nodes and trees, and `_walk_tree` of
-- src/fieldtrue/shortcut_v2_tree.py.
use inbar.Prelude.{
  ℕ, ◌+◌, String, List, [], ◌∷◌, ◌++◌, map, Bool, true, false, not, ◌&&◌, ◌||◌, ◌==◌, ltb, length,
  Option, none, some, if◌then◌else◌, is_subset, all_distinct, is_hex, ok, err, ◌>>=◌, ◌>>◌,
  raise_if, Check,
}
use inbar.Rational.{Fraction, fraction, add, multiply, less, equal}
use inbar.Tree.{
  FeatureDefinition, FeatureType, is_missing, equals_boolean, equals_categorical,
  less_than_or_equal_numeric, TreePredicate, TreeElementState, TreeLeaf, TreeNode, Element, leaf,
  node, DepthOneChild, TreeRoot, DepthTwoExactGiniTree, Hashes, ShortcutTreeError, malformed,
  unordered_incidents, duplicate_incidents, wrong_root, unordered_keys, duplicate_keys,
  too_many_features, wrong_depth, child_too_small, not_a_partition, counts_do_not_aggregate,
  wrong_split_impurity, no_improvement, wrong_feature_root, unbound_root, absent_feature,
  wrong_operator,
}
use inbar.Tree.Decimal.{parse_canonical_decimal}
use inbar.Tree.Predicates.{
  in_order, same_text, max_features, definition_key, predicate_supports_type,
}
use inbar.Tree.Enumerate.{validate_definition_keys}
use inbar.Tree.Validate.{
  minimum_child_incidents, all_identifiers, validate_rational, validate_state, validate_leaf,
  update_counts, same_counts, have_common,
}

abbrev size : TreeElementState → ℕ
size state = length state.train_incident_ids

-- `(len(false) * false.impurity + len(true) * true.impurity) / len(node)`
unfoldable pub expected_split : TreeElementState → TreeElementState → TreeElementState → Fraction
expected_split parent false_state true_state =
    multiply
      (add (multiply (fraction (size false_state) 1) false_state.impurity)
        (multiply (fraction (size true_state) 1) true_state.impurity))
      (fraction 1 (size parent))

-- `_validate_node`, of the states of a node and of its children
unfoldable pub validate_split :
    ℕ → TreeElementState → Fraction → TreeElementState → TreeElementState → Check ShortcutTreeError
unfolding expected_split
validate_split child_depth parent split_impurity false_state true_state = do
  raise_if (not (false_state.depth == child_depth) || not (true_state.depth == child_depth))
      wrong_depth
  raise_if
      (ltb (size false_state) minimum_child_incidents
        || ltb (size true_state) minimum_child_incidents)
      child_too_small
  let false_ids = false_state.train_incident_ids
  let true_ids = true_state.train_incident_ids
  raise_if
      (have_common false_ids true_ids
        || not (
            is_subset (false_ids ++ true_ids) parent.train_incident_ids
            && is_subset parent.train_incident_ids (false_ids ++ true_ids)))
      not_a_partition
  let counts = update_counts (update_counts [] false_state.class_counts) true_state.class_counts
  raise_if (not (same_counts counts parent.class_counts)) counts_do_not_aggregate
  raise_if (not (equal split_impurity (expected_split parent false_state true_state)))
      wrong_split_impurity
  raise_if (not (less split_impurity parent.impurity)) no_improvement
  ok tt

-- The fields of a predicate.
unfoldable pub validate_predicate : TreePredicate → Check ShortcutTreeError
validate_predicate predicate = do
  raise_if (not (is_hex 64 predicate.feature_key)) malformed
  elim predicate.operator [
    | is_missing ↦ ok tt
    | equals_boolean _ ↦ ok tt
    | equals_categorical _ ↦ ok tt
    | less_than_or_equal_numeric operand ↦ do _ ← parse_canonical_decimal operand; ok tt
  ]

abbrev pub leaf_state : TreeLeaf → TreeElementState
leaf_state l = l.state

abbrev pub element_state : {Child : Type 0} → Element Child → TreeElementState
element_state (leaf l) = l.state
element_state (node n) = n.state

module _ {Child : Type 0} (hashes : Hashes) (state_of : Child → TreeElementState) where
  -- `node_is_exact`, behind the checks of the fields
  unfoldable pub validate_node : ℕ → TreeNode Child → Check ShortcutTreeError
  unfolding validate_predicate validate_split
  validate_node depth n = do
    validate_state hashes n.state
    raise_if (not (n.state.depth == depth)) malformed
    validate_predicate n.predicate
    validate_rational n.split_impurity
    validate_split (depth + 1) n.state n.split_impurity (state_of n.false_child)
        (state_of n.true_child)

  -- A node is built from children that have passed their own checks.
  unfoldable pub validate_element :
      (Child → Check ShortcutTreeError) → ℕ → Element Child → Check ShortcutTreeError
  unfolding validate_node
  validate_element validate_child depth (leaf l) = validate_leaf hashes l
  validate_element validate_child depth (node n) = do
    validate_child n.false_child
    validate_child n.true_child
    validate_node depth n

unfoldable pub validate_child : Hashes → DepthOneChild → Check ShortcutTreeError
unfolding validate_element
validate_child hashes = validate_element hashes leaf_state (validate_leaf hashes) 1

unfoldable pub validate_root : Hashes → TreeRoot → Check ShortcutTreeError
unfolding validate_element validate_child
validate_root hashes = validate_element hashes element_state (validate_child hashes) 0

-- `{item.feature_key: item.feature_type}.get(key)`, where keys are distinct.
unfoldable pub type_of : String → List FeatureDefinition → Option FeatureType
type_of key [] = none
type_of key (definition ∷ definitions) =
    let rest = type_of key definitions in
    if same_text definition.feature_key key then some definition.feature_type else rest

unfoldable pub check_predicate : List FeatureDefinition → TreePredicate → Check ShortcutTreeError
unfolding type_of
check_predicate definitions predicate = elim (type_of predicate.feature_key definitions) [
  | none ↦ err absent_feature
  | some type ↦ raise_if (not (predicate_supports_type predicate type)) wrong_operator
]

unfoldable pub check_child : List FeatureDefinition → DepthOneChild → Check ShortcutTreeError
unfolding check_predicate
check_child definitions (leaf l) = ok tt
check_child definitions (node n) = check_predicate definitions n.predicate

-- The loop over `_walk_tree(self.root)`: leaves have nothing to check.
unfoldable pub check_predicates : List FeatureDefinition → TreeRoot → Check ShortcutTreeError
unfolding check_child
check_predicates definitions (leaf l) = ok tt
check_predicates definitions (node n) = do
  check_predicate definitions n.predicate
  check_child definitions n.false_child
  check_child definitions n.true_child

same_list : List String → List String → Bool
same_list [] [] = true
same_list (x ∷ xs) (y ∷ ys) = same_text x y && same_list xs ys
same_list _ _ = false

-- `tree_is_bound_and_depth_limited`
unfoldable pub tree_is_bound_and_depth_limited :
    Hashes → DepthTwoExactGiniTree → Check ShortcutTreeError
unfolding check_predicates same_list
tree_is_bound_and_depth_limited hashes tree = do
  let keys = map definition_key tree.feature_definitions
  raise_if (not (in_order keys)) unordered_keys
  raise_if (not (all_distinct keys)) duplicate_keys
  raise_if (ltb max_features (length keys)) too_many_features
  raise_if
      (not (
        same_text tree.feature_root_sha256
          (hashes.feature_definition_root tree.feature_definitions)))
      wrong_feature_root
  raise_if (not (in_order tree.train_incident_ids)) unordered_incidents
  raise_if (not (all_distinct tree.train_incident_ids)) duplicate_incidents
  raise_if
      (not
        (same_text tree.train_incident_ids_sha256 (hashes.incident_root tree.train_incident_ids)))
      wrong_root
  let root_state = element_state tree.root
  raise_if
      (not
        (root_state.depth == 0 && same_list root_state.train_incident_ids tree.train_incident_ids))
      unbound_root
  check_predicates tree.feature_definitions tree.root

abbrev has_no_incidents : List String → Bool
has_no_incidents [] = true
has_no_incidents (x ∷ xs) = false

-- `_strict_revalidate` of a tree: its elements from the leaves up, its fields, and their binding.
unfoldable pub validate_tree : Hashes → DepthTwoExactGiniTree → Check ShortcutTreeError
unfolding validate_root validate_definition_keys tree_is_bound_and_depth_limited
validate_tree hashes tree = do
  validate_definition_keys tree.feature_definitions
  raise_if
      (not (is_hex 64 tree.feature_root_sha256)
        || has_no_incidents tree.train_incident_ids
        || not (all_identifiers tree.train_incident_ids)
        || not (is_hex 64 tree.train_incident_ids_sha256))
      malformed
  validate_root hashes tree.root
  tree_is_bound_and_depth_limited hashes tree
