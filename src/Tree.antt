-- ===== src/Tree.antt =====
-- The data of src/fieldtrue/shortcut_v2_tree.py: feature rows, predicates, the tree and its predictions.
mod Tests
pub mod Counts
pub mod Gini
pub mod Decimal
pub mod Predicates
pub mod Enumerate
pub mod Validate
pub mod Nodes
pub mod Fit
pub mod Predict
pub mod Order
pub mod Best
pub mod Route
pub mod Digits
use inbar.Prelude.{ℕ, String, Option, List, Bool}
use inbar.Rational.{Fraction}

pub data FeatureType : Type 0 where
  boolean numeric categorical : FeatureType

-- The values of a numeric feature are canonical decimals, texts given by their code points.
pub data FeatureValue : Type 0 where
  missing_value : FeatureType → FeatureValue
  boolean_value : Bool → FeatureValue
  numeric_value : List ℕ → FeatureValue
  categorical_value : String → FeatureValue

pub record FeatureEntry : Type 0 where
  pub feature_key : String
  pub value : FeatureValue

pub record FeatureVector : Type 0 where
  pub incident_id : String
  pub entries : List FeatureEntry

pub record FeatureDefinition : Type 0 where
  pub feature_key : String
  pub feature_type : FeatureType

-- The operand of a predicate, which its operator determines.
pub data Operator : Type 0 where
  is_missing : Operator
  equals_boolean : Bool → Operator
  equals_categorical : String → Operator
  less_than_or_equal_numeric : List ℕ → Operator

pub record TreePredicate : Type 0 where
  pub feature_key : String
  pub operator : Operator

pub record ClassCount : Type 0 where
  pub prediction_key : String
  pub count : ℕ

-- `_TreeElementState`
pub record TreeElementState : Type 0 where
  pub depth : ℕ
  pub train_incident_ids : List String
  pub train_incident_ids_sha256 : String
  pub class_counts : List ClassCount
  pub impurity : Fraction

-- A leaf without a prediction key abstains for a class tie.
pub record TreeLeaf : Type 0 where
  pub state : TreeElementState
  pub prediction_key : Option String

-- `DepthOneTreeNode` has leaves as children, `TreeRootNode` has `DepthOneChild`.
pub record TreeNode (Child : Type 0) : Type 0 where
  pub state : TreeElementState
  pub predicate : TreePredicate
  pub split_impurity : Fraction
  pub false_child : Child
  pub true_child : Child

pub data Element (Child : Type 0) : Type 0 where
  leaf : TreeLeaf → Element Child
  node : TreeNode Child → Element Child

abbrev pub DepthOneChild : Type 0
DepthOneChild = Element TreeLeaf

abbrev pub TreeRoot : Type 0
TreeRoot = Element DepthOneChild

pub record DepthTwoExactGiniTree : Type 0 where
  pub feature_definitions : List FeatureDefinition
  pub feature_root_sha256 : String
  pub train_incident_ids : List String
  pub train_incident_ids_sha256 : String
  pub root : TreeRoot

pub data AbstentionReason : Type 0 where
  class_tie key_unavailable : AbstentionReason

pub record TreePrediction : Type 0 where
  pub incident_id : String
  pub proposed_prediction_key : Option String
  pub selected_prediction_key : Option String
  pub selected_hypothesis_id : Option String
  pub abstention_reason : Option AbstentionReason
  pub predicates_evaluated : List TreePredicate
  pub feature_keys_read : List String
  pub leaf_depth : ℕ

-- What is computed outside the module: SHA-256 of the canonical JSON of a list of incident
-- identifiers and of feature definitions, and the canonical JSON bytes of a predicate,
-- a tree and a prediction.
pub record Hashes : Type 0 where
  pub incident_root : List String → String
  pub feature_definition_root : List FeatureDefinition → String
  pub predicate_bytes : TreePredicate → List ℕ
  pub tree_json : DepthTwoExactGiniTree → List ℕ
  pub prediction_json : TreePrediction → List ℕ

pub data ShortcutTreeError : Type 0 where
  not_canonical_decimal zero_not_canonical trailing_zero not_finite not_ordered : ShortcutTreeError
  unordered_keys duplicate_keys too_many_features too_many_predicates : ShortcutTreeError
  malformed inconsistent_prediction : ShortcutTreeError
  empty_counts empty_child no_rows different_union absent_feature wrong_type : ShortcutTreeError
  duplicate_incidents targets_differ not_prediction_key : ShortcutTreeError
  unordered_incidents wrong_root counts_do_not_cover wrong_impurity wrong_leaf : ShortcutTreeError
  wrong_depth child_too_small not_a_partition counts_do_not_aggregate : ShortcutTreeError
  wrong_split_impurity no_improvement wrong_feature_root unbound_root : ShortcutTreeError
  wrong_operator differs_from_recomputation empty_hypothesis not_one_to_one : ShortcutTreeError
