-- ===== src/Splits/Union.antt =====
-- What one union and the unions of a dimension do, for the components of src/fieldtrue/splits.py.
use inbar.Prelude.{
  same_text, same_text-apart, same_text-eq, same_text-ne, same_text_refl, ℕ, suc, ◌+◌, ◌*◌, ◌≤◌,
  ◌<◌, String, List, [], ◌∷◌, Option, none, some, length, ◌≡◌, ◌≢◌, refl, sym, ap, ◌∙◌, arith,
  Bool-cases, Option-cases, inl, inr, All,
}
use inbar.Splits.{SplitUnit, value_of}
use inbar.Splits.UnionFind.{Parents, find, union}
use inbar.Splits.Components.{Seen, holder, join_dimension, join_dimensions}
use inbar.Splits.Forest.{IsForest, find-lem, Forest, Keeps, joined_root, joined_rank, join-IsForest}

later-IsForest :
    (n : ℕ) (root : String → String) (rank : String → ℕ) (parents : Parents)
    → IsForest n root rank parents
    → IsForest (suc n) root rank parents
later-IsForest n root rank parents f = record {
  root_of_parent = f.root_of_parent;
  root_stays = f.root_stays;
  root_of_root = f.root_of_root;
  bounded = λ x. let b = f.bounded x in omega arith;
  rises = f.rises;
  below = f.below;
}

-- A union keeps the trees together and joins those of its two identifiers; ways to the root grow by at
-- most one step.
pub record Joined {n : ℕ} {parents : Parents} (f : Forest n parents) (fuel : ℕ)
    (left right : String) : Type 0 where
  pub after : Forest (suc n) (union fuel parents left right)
  pub keeps : Keeps f after
  pub joins : after.root left ≡ after.root right

pub union-Joined :
    (n fuel : ℕ) (parents : Parents) (f : Forest n parents) (left right : String)
    → n < fuel
    → Joined f fuel left right
unfolding union
union-Joined n fuel parents f left right enough =
    let (is_left, once) = find-lem n f.root f.rank fuel parents left f.is_forest (omega arith) in
    let p = (find fuel parents left).1 in
    let (is_right, twice) = find-lem n f.root f.rank fuel p right once (omega arith) in
    let q = (find fuel p right).1 in
    elim (Bool-cases (same_text (find fuel parents left).0 (find fuel p right).0)) [
      | inl e ↦ record {
        after = record {
          root = f.root;
          rank = f.rank;
          is_forest = rw e (later-IsForest n f.root f.rank q twice);
        };
        keeps = λ x y same. same;
        joins = sym is_left ∙ (same_text-eq _ _ e ∙ is_right);
      }
      | inr e ↦
          let apart : f.root left ≢ f.root right =
            let no = same_text-ne _ _ e in rw (is_left, is_right) at no in
          let not_right = same_text-apart (f.root left) (f.root right) apart in
          record {
            after = record {
              root = joined_root (f.root left) (f.root right) f.root;
              rank = joined_rank n (f.root left) f.rank;
              is_forest =
                  rw (e, is_left, is_right)
                    (join-IsForest n f.root f.rank q (f.root left) (f.root right) twice
                      (twice.root_stays left) (twice.root_stays right) apart);
            };
            keeps = λ x y same. rw same refl;
            joins = rw (not_right, same_text_refl (f.root right)) refl;
          }
    ]

-- `h` names the first holder of each value seen.
abbrev pub Extends : Seen → (String → String) → Type 0
Extends seen h = (value i : String) → holder value seen ≡ some i → h value ≡ i

-- After the loop for a dimension, each unit is in the tree of the first holder of its value.
pub record JoinedBy {n : ℕ} {parents : Parents} (f : Forest n parents) (dimension : String)
    (seen : Seen) (units : List SplitUnit) (result : Parents) : Type 0 where
  pub steps : ℕ
  pub at_most : steps ≤ length units + n
  pub after : Forest steps result
  pub keeps : Keeps f after
  pub first : String → String
  pub extends : Extends seen first
  pub joins : All (λ u. after.root u.incident_id ≡ after.root (first (value_of dimension u))) units

abbrev or_else : Option String → String
or_else none = ""
or_else (some i) = i

-- One more unit, joined with the holder of its value.
with_unit :
    {n fuel : ℕ} {parents result : Parents} (f : Forest n parents) (dimension : String)
    (seen : Seen) (unit : SplitUnit) (units : List SplitUnit) (previous : String)
    (j : Joined f fuel previous unit.incident_id)
    (rest : JoinedBy j.after dimension seen units result)
    → rest.first (value_of dimension unit) ≡ previous
    → JoinedBy f dimension seen (unit ∷ units) result
with_unit f dimension seen unit units previous j rest named = record {
  steps = rest.steps;
  at_most = let b = rest.at_most in omega arith;
  after = rest.after;
  keeps = λ x y same. rest.keeps x y (j.keeps x y same);
  first = rest.first;
  extends = rest.extends;
  joins = (
    sym (rest.keeps previous unit.incident_id j.joins) ∙ ap rest.after.root (sym named),
    rest.joins,
  );
}

fewer_seen :
    {n : ℕ} {parents result : Parents} (f : Forest n parents) (dimension value i : String)
    (seen : Seen) (units : List SplitUnit)
    → holder value seen ≡ none
    → JoinedBy f dimension ((value, i) ∷ seen) units result
    → JoinedBy f dimension seen units result
unfolding holder
fewer_seen f dimension value i seen units absent j = record {
  steps = j.steps;
  at_most = j.at_most;
  after = j.after;
  keeps = j.keeps;
  first = j.first;
  extends = λ v k found. j.extends v k (elim (Bool-cases (same_text value v)) [
    | inl e ↦ let same = same_text-eq value v e in cc (found, rw same at absent)
    | inr e ↦ rw e found
  ]);
  joins = j.joins;
}

pub join_dimension-JoinedBy :
    (n fuel : ℕ) (dimension : String) (parents : Parents) (f : Forest n parents) (seen : Seen)
    (units : List SplitUnit)
    → length units + n < fuel
    → JoinedBy f dimension seen units (join_dimension fuel dimension parents seen units)
unfolding join_dimension holder
join_dimension-JoinedBy n fuel dimension parents f seen [] enough = record {
  steps = n;
  at_most = omega arith;
  after = f;
  keeps = λ x y same. same;
  first = λ value. or_else (holder value seen);
  extends = λ value i found. ap or_else found;
  joins = tt;
}
join_dimension-JoinedBy n fuel dimension parents f seen (unit ∷ units) enough =
    elim (Option-cases (holder (value_of dimension unit) seen)) [
      | inr (previous, found) ↦
          let j = union-Joined n fuel parents f previous unit.incident_id (omega arith) in
          let rest =
            join_dimension-JoinedBy (suc n) fuel dimension
              (union fuel parents previous unit.incident_id) j.after seen units (omega arith) in
          rw (join_dimension, found)
            (with_unit f dimension seen unit units previous j rest
              (rest.extends (value_of dimension unit) previous found))
      | inl absent ↦
          let j = union-Joined n fuel parents f unit.incident_id unit.incident_id (omega arith) in
          let more = (value_of dimension unit, unit.incident_id) ∷ seen in
          let rest =
            join_dimension-JoinedBy (suc n) fuel dimension
              (union fuel parents unit.incident_id unit.incident_id) j.after more units
              (omega arith) in
          rw (join_dimension, absent)
            (fewer_seen f dimension (value_of dimension unit) unit.incident_id seen (unit ∷ units)
              absent
              (with_unit f dimension more unit units unit.incident_id j rest (
                rest.extends (value_of dimension unit) unit.incident_id
                  (rw (holder, same_text_refl (value_of dimension unit)) refl))))
    ]

more_rounds : (d u n fuel : ℕ) → suc d * u + n < fuel → u + n < fuel
more_rounds d u n fuel h = grind arith

rounds_left : (d u n steps fuel : ℕ) → suc d * u + n < fuel → steps ≤ u + n → d * u + steps < fuel
rounds_left d u n steps fuel h k = grind arith

rounds_used : (d u n steps last : ℕ) → steps ≤ u + n → last ≤ d * u + steps → last ≤ suc d * u + n
rounds_used d u n steps last h k = grind arith

-- All units with one value of a dimension are in one tree.
abbrev pub IsTogether :
    {n : ℕ} {parents : Parents} → Forest n parents → List SplitUnit → String → Type 0
IsTogether f units dimension =
    (first : String → String) × All
      (λ u. f.root u.incident_id ≡ f.root (first (value_of dimension u))) units

pub record JoinedByAll {n : ℕ} {parents : Parents} (f : Forest n parents) (units : List SplitUnit)
    (dimensions : List String) (result : Parents) : Type 0 where
  pub steps : ℕ
  pub at_most : steps ≤ length dimensions * length units + n
  pub after : Forest steps result
  pub keeps : Keeps f after
  pub joins : All (IsTogether after units) dimensions

Keeps-All :
    {n m : ℕ} {p q : Parents} (f : Forest n p) (g : Forest m q)
    → Keeps f g
    → (dimension : String) (first : String → String) (units : List SplitUnit)
    → All (λ u. f.root u.incident_id ≡ f.root (first (value_of dimension u))) units
    → All (λ u. g.root u.incident_id ≡ g.root (first (value_of dimension u))) units
Keeps-All f g keeps dimension first [] h = tt
Keeps-All f g keeps dimension first (u ∷ units) (e, h) =
    (keeps _ _ e, Keeps-All f g keeps dimension first units h)

pub join_dimensions-JoinedByAll :
    (n fuel : ℕ) (parents : Parents) (f : Forest n parents) (units : List SplitUnit)
    (dimensions : List String)
    → length dimensions * length units + n < fuel
    → JoinedByAll f units dimensions (join_dimensions fuel parents units dimensions)
unfolding join_dimensions
join_dimensions-JoinedByAll n fuel parents f units [] enough = record {
  steps = n;
  at_most = grind arith;
  after = f;
  keeps = λ x y same. same;
  joins = tt;
}
join_dimensions-JoinedByAll n fuel parents f units (dimension ∷ dimensions) enough =
    let one =
      join_dimension-JoinedBy n fuel dimension parents f [] units
        (more_rounds (length dimensions) (length units) n fuel enough) in
    let b = one.at_most in
    let rest =
      join_dimensions-JoinedByAll one.steps fuel (join_dimension fuel dimension parents [] units)
        one.after units dimensions
        (rounds_left (length dimensions) (length units) n one.steps fuel enough b) in
    record {
      steps = rest.steps;
      at_most =
          rounds_used (length dimensions) (length units) n one.steps rest.steps b rest.at_most;
      after = rest.after;
      keeps = λ x y same. rest.keeps x y (one.keeps x y same);
      joins = (
        (one.first, Keeps-All one.after rest.after rest.keeps dimension one.first units one.joins),
        rest.joins,
      );
    }
