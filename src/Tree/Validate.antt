-- ===== src/Tree/Validate.antt =====
-- What the elements of a tree are checked for when they are built or read back:
-- `_TreeElementState`, `TreeLeaf`, `_validate_node` and `DepthTwoExactGiniTree` of
-- src/fieldtrue/shortcut_v2_tree.py.
use inbar.Prelude.{
  ℕ, ◌+◌, String, List, [], ◌∷◌, map, Bool, true, false, not, ◌&&◌, ◌||◌, ◌==◌, ltb, length, Option,
  none, some, if◌then◌else◌, is_in, all_distinct, is_hex, is_identifier, ok, ◌>>=◌, ◌>>◌, raise_if,
  Check,
}
use inbar.Rational.{Fraction, equal, gcd}
use inbar.Tree.{
  ClassCount, TreeElementState, TreeLeaf, Hashes, ShortcutTreeError, malformed, unordered_incidents,
  duplicate_incidents, wrong_root, unordered_keys, duplicate_keys, counts_do_not_cover,
  wrong_impurity, wrong_leaf,
}
use inbar.Tree.Counts.{total}
use inbar.Tree.Gini.{exact_gini}
use inbar.Tree.Predicates.{in_order, same_text}

abbrev pub maximum_depth : ℕ
maximum_depth = 2

abbrev pub minimum_child_incidents : ℕ
minimum_child_incidents = 2

-- `^(?:unknown|[0-9a-f]{64})$`
unfoldable pub is_prediction_key : String → Bool
unfolding is_hex
is_prediction_key key = same_text key "unknown" || is_hex 64 key

-- `_counts_from_models(...)[key]`, where keys are distinct.
unfoldable pub count_of : String → List ClassCount → Option ℕ
count_of key [] = none
count_of key (c ∷ cs) =
    let rest = count_of key cs in if same_text c.prediction_key key then some c.count else rest

abbrev pub count_key : ClassCount → String
count_key c = c.prediction_key

-- The fields of `ClassCount`.
unfoldable pub validate_counts : List ClassCount → Check ShortcutTreeError
unfolding is_prediction_key
validate_counts [] = ok tt
validate_counts (c ∷ cs) = do
  raise_if (not (is_prediction_key c.prediction_key) || c.count == 0) malformed
  validate_counts cs

unfoldable pub validate_rational : Fraction → Check ShortcutTreeError
unfolding gcd
validate_rational f =
    raise_if (f.denominator == 0 || not (gcd f.numerator f.denominator == 1)) malformed

unfoldable pub all_identifiers : List String → Bool
unfolding is_identifier
all_identifiers [] = true
all_identifiers (i ∷ is) = is_identifier i && all_identifiers is

abbrev is_empty {ℓ} : {A : Type ℓ} → List A → Bool
is_empty [] = true
is_empty (x ∷ xs) = false

-- The fields of `_TreeElementState`.
unfoldable pub validate_fields : TreeElementState → Check ShortcutTreeError
unfolding all_identifiers
validate_fields state = do
  raise_if (ltb maximum_depth state.depth) malformed
  raise_if (is_empty state.train_incident_ids || not (all_identifiers state.train_incident_ids))
      malformed
  raise_if (not (is_hex 64 state.train_incident_ids_sha256) || is_empty state.class_counts)
      malformed
  validate_counts state.class_counts
  validate_rational state.impurity

-- `statistics_are_derived`
unfoldable pub statistics_are_derived : Hashes → TreeElementState → Check ShortcutTreeError
statistics_are_derived hashes state = do
  raise_if (not (in_order state.train_incident_ids)) unordered_incidents
  raise_if (not (all_distinct state.train_incident_ids)) duplicate_incidents
  raise_if
      (not
        (same_text state.train_incident_ids_sha256 (hashes.incident_root state.train_incident_ids)))
      wrong_root
  raise_if (not (in_order (map count_key state.class_counts))) unordered_keys
  raise_if (not (all_distinct (map count_key state.class_counts))) duplicate_keys
  raise_if (not (total state.class_counts == length state.train_incident_ids)) counts_do_not_cover
  impurity ← exact_gini state.class_counts
  raise_if (not (equal state.impurity impurity)) wrong_impurity
  ok tt

unfoldable pub validate_state : Hashes → TreeElementState → Check ShortcutTreeError
unfolding validate_fields statistics_are_derived
validate_state hashes state = do validate_fields state; statistics_are_derived hashes state

-- `max(counts.values())`
unfoldable pub largest : List ClassCount → ℕ
largest [] = 0
largest (c ∷ cs) = let rest = largest cs in if ltb rest c.count then c.count else rest

-- `[key for key, count in counts.items() if count == maximum]`
unfoldable pub winners : ℕ → List ClassCount → List String
winners maximum [] = []
winners maximum (c ∷ cs) =
    let rest = winners maximum cs in if c.count == maximum then c.prediction_key ∷ rest else rest

abbrev pub only : List String → Option String
only (key ∷ []) = some key
only _ = none

-- The unique modal class, if there is one.
unfoldable pub modal_key : List ClassCount → Option String
unfolding largest winners
modal_key counts = only (winners (largest counts) counts)

abbrev pub same_key : Option String → Option String → Bool
same_key none none = true
same_key (some k) (some l) = same_text k l
same_key _ _ = false

-- `TreeLeaf`, its abstention reason being a class tie exactly if it has no prediction key.
unfoldable pub validate_leaf : Hashes → TreeLeaf → Check ShortcutTreeError
unfolding validate_state modal_key
validate_leaf hashes l = do
  validate_state hashes l.state
  raise_if (not (same_key l.prediction_key (modal_key l.state.class_counts))) wrong_leaf
  ok tt

-- `child_counts.update(counts)`
unfoldable pub count_more : ClassCount → List ClassCount → List ClassCount
count_more d [] = d ∷ []
count_more d (c ∷ cs) =
    let rest = count_more d cs in
    if same_text c.prediction_key d.prediction_key
    then record { prediction_key = c.prediction_key; count = c.count + d.count } ∷ cs
    else c ∷ rest

unfoldable pub update_counts : List ClassCount → List ClassCount → List ClassCount
unfolding count_more
update_counts counts [] = counts
update_counts counts (d ∷ ds) = update_counts (count_more d counts) ds

abbrev same_number : Option ℕ → Option ℕ → Bool
same_number none none = true
same_number (some m) (some n) = m == n
same_number _ _ = false

unfoldable pub counts_within : List ClassCount → List ClassCount → Bool
unfolding count_of
counts_within [] ds = true
counts_within (c ∷ cs) ds =
    same_number (count_of c.prediction_key ds) (some c.count) && counts_within cs ds

-- `dict == dict`
unfoldable pub same_counts : List ClassCount → List ClassCount → Bool
unfolding counts_within
same_counts cs ds = counts_within cs ds && counts_within ds cs

unfoldable pub have_common : List String → List String → Bool
have_common [] ys = false
have_common (x ∷ xs) ys = is_in x ys || have_common xs ys
