-- ===== src/Tree/Predict.antt =====
-- `predict_depth_two_tree` of src/fieldtrue/shortcut_v2_tree.py, and the check of a prediction.
use inbar.Prelude.{
  ℕ, String, List, [], ◌∷◌, map, Bool, true, false, not, ◌&&◌, ◌||◌, ◌==◌, ltb, codes, length,
  Option, none, some, if◌then◌else◌, string_discrete, all_distinct, is_identifier, Result, ok, err,
  ◌>>=◌, ◌>>◌, raise_if, Check,
}
use inbar.Tree.{
  FeatureVector, FeatureEntry, TreePredicate, TreeLeaf, Element, leaf, node, DepthOneChild,
  TreeRoot, DepthTwoExactGiniTree, TreePrediction, AbstentionReason, class_tie, key_unavailable,
  Hashes, ShortcutTreeError, malformed, different_union, absent_feature, not_prediction_key,
  empty_hypothesis, not_one_to_one, inconsistent_prediction, differs_from_recomputation,
}
use inbar.Tree.Predicates.{validate_row, has_union, feature, predicate_matches, same_text}
use inbar.Tree.Validate.{maximum_depth, is_prediction_key, same_key}
use inbar.Tree.Nodes.{validate_tree, validate_predicate}

-- The hypotheses of a case by prediction key, the keys distinct.
abbrev pub Hypotheses : Type 0
Hypotheses = List (String × String)

unfoldable pub validate_hypotheses : Hypotheses → Check ShortcutTreeError
unfolding is_prediction_key
validate_hypotheses [] = ok tt
validate_hypotheses ((key, hypothesis) ∷ rest) = do
  raise_if (not (is_prediction_key key)) not_prediction_key
  raise_if (length (codes hypothesis) == 0) empty_hypothesis
  validate_hypotheses rest

unfoldable pub hypothesis_of : String → Hypotheses → Option String
hypothesis_of key [] = none
hypothesis_of key ((k, h) ∷ rest) =
    let later = hypothesis_of key rest in
    elim (string_discrete k key) [ yes _ ↦ some h | no _ ↦ later ]

abbrev pub hypothesis_id : String × String → String
hypothesis_id (key, hypothesis) = hypothesis

-- The leaf that a row reaches, and the predicates asked on the way.
pub record Descent : Type 0 where
  pub reached : TreeLeaf
  pub trace : List TreePredicate

unfoldable pub descend :
    {Child : Type 0}
    → (Child → Result ShortcutTreeError Descent)
    → List FeatureEntry
    → Element Child
    → Result ShortcutTreeError Descent
descend below entries (leaf l) = ok (record { reached = l; trace = [] })
descend below entries (node n) = elim (feature n.predicate.feature_key entries) [
  | none ↦ err absent_feature
  | some value ↦ do
    matches ← predicate_matches n.predicate value
    descent ← below (if matches then n.true_child else n.false_child)
    ok (record { reached = descent.reached; trace = n.predicate ∷ descent.trace })
]

abbrev pub at_leaf : TreeLeaf → Result ShortcutTreeError Descent
at_leaf l = ok (record { reached = l; trace = [] })

unfoldable pub descend_child : List FeatureEntry → DepthOneChild → Result ShortcutTreeError Descent
unfolding descend
descend_child entries = descend at_leaf entries

-- `while isinstance(element, (DepthOneTreeNode, TreeRootNode))`
unfoldable pub descend_root : List FeatureEntry → TreeRoot → Result ShortcutTreeError Descent
unfolding descend descend_child
descend_root entries = descend (descend_child entries) entries

same_reason : Option AbstentionReason → Option AbstentionReason → Bool
same_reason none none = true
same_reason (some class_tie) (some class_tie) = true
same_reason (some key_unavailable) (some key_unavailable) = true
same_reason _ _ = false

abbrev is_none : Option String → Bool
is_none none = true
is_none (some s) = false

abbrev pub key_read : TreePredicate → String
key_read predicate = predicate.feature_key

same_reads : List String → List TreePredicate → Bool
same_reads [] [] = true
same_reads (key ∷ keys) (p ∷ ps) = same_text key p.feature_key && same_reads keys ps
same_reads _ _ = false

-- The selection, for each reason to abstain and for none.
abbrev pub is_consistent : TreePrediction → Bool
is_consistent p = elim p.abstention_reason [
  | some reason ↦ elim reason [
    | class_tie ↦
        is_none p.proposed_prediction_key
        && is_none p.selected_prediction_key
        && is_none p.selected_hypothesis_id
    | key_unavailable ↦
        not (is_none p.proposed_prediction_key)
        && is_none p.selected_prediction_key
        && is_none p.selected_hypothesis_id
  ]
  | none ↦
      not (is_none p.proposed_prediction_key)
      && same_key p.selected_prediction_key p.proposed_prediction_key
      && not (is_none p.selected_hypothesis_id)
]

-- `prediction_state_is_consistent`
unfoldable pub prediction_state_is_consistent : TreePrediction → Check ShortcutTreeError
unfolding same_reads
prediction_state_is_consistent p = do
  raise_if (not (length p.predicates_evaluated == p.leaf_depth)) inconsistent_prediction
  raise_if (not (same_reads p.feature_keys_read p.predicates_evaluated)) inconsistent_prediction
  raise_if (not (is_consistent p)) inconsistent_prediction
  ok tt

validate_predicates : List TreePredicate → Check ShortcutTreeError
unfolding validate_predicate
validate_predicates [] = ok tt
validate_predicates (p ∷ ps) = do validate_predicate p; validate_predicates ps

is_key_or_none : Option String → Bool
unfolding is_prediction_key
is_key_or_none none = true
is_key_or_none (some key) = is_prediction_key key

is_identifier_or_none : Option String → Bool
unfolding is_identifier
is_identifier_or_none none = true
is_identifier_or_none (some i) = is_identifier i

-- The fields of `TreePrediction`, then their consistency.
unfoldable pub validate_prediction : TreePrediction → Check ShortcutTreeError
unfolding validate_predicates is_key_or_none is_identifier_or_none prediction_state_is_consistent
validate_prediction p = do
  raise_if
      (not (
        is_identifier p.incident_id
        && is_key_or_none p.proposed_prediction_key
        && is_key_or_none p.selected_prediction_key
        && is_identifier_or_none p.selected_hypothesis_id))
      malformed
  validate_predicates p.predicates_evaluated
  raise_if
      (ltb maximum_depth (length p.predicates_evaluated)
        || ltb maximum_depth (length p.feature_keys_read)
        || ltb maximum_depth p.leaf_depth)
      malformed
  prediction_state_is_consistent p

-- What is selected: nothing in a tie or without a local hypothesis, else the key proposed.
pub record Selection : Type 0 where
  pub selected : Option String
  pub hypothesis : Option String
  pub reason : Option AbstentionReason

unfoldable pub select : Option String → Hypotheses → Selection
unfolding hypothesis_of
select none hypotheses = record { selected = none; hypothesis = none; reason = some class_tie }
select (some key) hypotheses = elim (hypothesis_of key hypotheses) [
  | none ↦ record { selected = none; hypothesis = none; reason = some key_unavailable }
  | some h ↦ record { selected = some key; hypothesis = some h; reason = none }
]

abbrev pub prediction_of : FeatureVector → Descent → Selection → TreePrediction
prediction_of row descent selection = record {
  incident_id = row.incident_id;
  proposed_prediction_key = descent.reached.prediction_key;
  selected_prediction_key = selection.selected;
  selected_hypothesis_id = selection.hypothesis;
  abstention_reason = selection.reason;
  predicates_evaluated = descent.trace;
  feature_keys_read = map key_read descent.trace;
  leaf_depth = descent.reached.state.depth;
}

unfoldable pub predict_depth_two_tree :
    Hashes
    → DepthTwoExactGiniTree
    → FeatureVector
    → Hypotheses
    → Result ShortcutTreeError TreePrediction
unfolding validate_tree validate_row has_union validate_hypotheses descend_root select
    validate_prediction
predict_depth_two_tree hashes tree row hypotheses = do
  validate_tree hashes tree
  validate_row row
  raise_if (not (has_union row.entries tree.feature_definitions)) different_union
  validate_hypotheses hypotheses
  raise_if (not (all_distinct (map hypothesis_id hypotheses))) not_one_to_one
  descent ← descend_root row.entries tree.root
  let made = prediction_of row descent (select descent.reached.prediction_key hypotheses)
  validate_prediction made
  ok made

unfoldable pub same_bytes : List ℕ → List ℕ → Bool
same_bytes [] [] = true
same_bytes (b ∷ bs) (c ∷ cs) = b == c && same_bytes bs cs
same_bytes _ _ = false

unfoldable pub validate_tree_prediction :
    Hashes
    → TreePrediction
    → DepthTwoExactGiniTree
    → FeatureVector
    → Hypotheses
    → Check ShortcutTreeError
unfolding validate_prediction predict_depth_two_tree same_bytes
validate_tree_prediction hashes supplied tree row hypotheses = do
  validate_prediction supplied
  recomputed ← predict_depth_two_tree hashes tree row hypotheses
  raise_if (not (same_bytes (hashes.prediction_json supplied) (hashes.prediction_json recomputed)))
      differs_from_recomputation
  ok tt
