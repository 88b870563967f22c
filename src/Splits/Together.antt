-- ===== src/Splits/Together.antt =====
-- Units that share a held-out value are in one component of src/fieldtrue/splits.py.
use mathlib.Core.List.{
  not-mem-nil, mem-cons_self, mem-cons_of_mem, mem-append_left, mem-append_right,
}
use inbar.Prelude.{
  same_text, same_text_refl, ℕ, ◌<◌, String, not, ◌||◌, List, [], ◌∷◌, Mem, ◌≡◌, refl, sym, ap, ◌∙◌,
  arith, all_distinct, is_subset, Bool-cases, inl, inr, All, ok, then-eq-ok, raise_if,
  if◌then◌else◌,
}
use inbar.Splits.{SplitUnit, empty_corpus, bad_dimensions, value_of}
use inbar.Splits.UnionFind.{Parents, find}
use inbar.Splits.Components.{
  Group, add_to_group, group_units, members_of, components, rounds, alone, is_empty,
  allowed_dimensions, join_dimensions,
}
use inbar.Splits.Forest.{IsForest, find-lem, Forest}
use inbar.Splits.Union.{IsTogether, join_dimensions-JoinedByAll}

-- The members of the group of a root.
group_of : String → List Group → List SplitUnit
group_of root [] = []
group_of root (g ∷ groups) =
    let rest = group_of root groups in if same_text g.root root then g.members else rest

added :
    (root : String) (unit : SplitUnit) (groups : List Group)
    → Mem unit (group_of root (add_to_group root unit groups))
unfolding group_of add_to_group
added root unit [] = rw (same_text_refl root) mem-cons_self
added root unit (g ∷ groups) = elim (Bool-cases (same_text g.root root)) [
  | inl e ↦ rw (e, e) (mem-append_right g.members mem-cons_self)
  | inr e ↦ rw (e, e) (added root unit groups)
]

still_there :
    (root other : String) (unit member : SplitUnit) (groups : List Group)
    → Mem member (group_of other groups)
    → Mem member (group_of other (add_to_group root unit groups))
unfolding group_of add_to_group
still_there root other unit member [] m = absurd (not-mem-nil m)
still_there root other unit member (g ∷ groups) m = elim (Bool-cases (same_text g.root root)) [
  | inl e ↦ elim (Bool-cases (same_text g.root other)) [
    | inl o ↦
        let m' : Mem member g.members = rw o at m in rw (e, o) (mem-append_left (unit ∷ []) m')
    | inr o ↦ let m' : Mem member (group_of other groups) = rw o at m in rw (e, o) m'
  ]
  | inr e ↦ elim (Bool-cases (same_text g.root other)) [
    | inl o ↦ let m' : Mem member g.members = rw o at m in rw (e, o) m'
    | inr o ↦
        let m' : Mem member (group_of other groups) = rw o at m in
        rw (e, o) (still_there root other unit member groups m')
  ]
]

module _ (n fuel : ℕ) (root : String → String) (rank : String → ℕ) where
  group_units-keeps :
      (parents : Parents) (other : String) (member : SplitUnit) (groups : List Group)
      (units : List SplitUnit)
      → Mem member (group_of other groups)
      → Mem member (group_of other (group_units fuel parents groups units))
  unfolding group_units
  group_units-keeps parents other member groups [] m = m
  group_units-keeps parents other member groups (unit ∷ units) m =
      group_units-keeps (find fuel parents unit.incident_id).1 other member
        (add_to_group (find fuel parents unit.incident_id).0 unit groups) units
        (still_there (find fuel parents unit.incident_id).0 other unit member groups m)

  group_units-each :
      (parents : Parents) (groups : List Group) (units : List SplitUnit)
      → IsForest n root rank parents
      → n < fuel
      → All
          (λ u. Mem u (group_of (root u.incident_id) (group_units fuel parents groups units)))
          units
  unfolding group_units
  group_units-each parents groups [] f enough = tt
  group_units-each parents groups (unit ∷ units) f enough =
      let (ends, kept) = find-lem n root rank fuel parents unit.incident_id f (omega arith) in
      let p = (find fuel parents unit.incident_id).1 in
      let found = (find fuel parents unit.incident_id).0 in
      let next = add_to_group found unit groups in
      let here : Mem unit (group_of (root unit.incident_id) next) =
        rw (← ends) (added found unit groups) in
      (
        group_units-keeps p (root unit.incident_id) unit next units here,
        group_units-each p next units kept enough,
      )

-- Both units are members of one of the components.
abbrev pub ShareComponent : List (List SplitUnit) → SplitUnit → SplitUnit → Type 0
ShareComponent found u v = (c : List SplitUnit) × Mem c found × Mem u c × Mem v c

group_of-Mem :
    (root : String) (unit : SplitUnit) (groups : List Group)
    → Mem unit (group_of root groups)
    → Mem (group_of root groups) (members_of groups)
unfolding group_of
group_of-Mem root unit [] m = absurd (not-mem-nil m)
group_of-Mem root unit (g ∷ groups) m = elim (Bool-cases (same_text g.root root)) [
  | inl e ↦ rw e mem-cons_self
  | inr e ↦ rw e (mem-cons_of_mem g.members (group_of-Mem root unit groups (rw e at m)))
]

All_zip :
    {A : Type 0} (P Q R : A → Type 0) (xs : List A)
    → ((x : A) → P x → Q x → R x)
    → All P xs
    → All Q xs
    → All R xs
All_zip P Q R [] f h k = tt
All_zip P Q R (x ∷ xs) f (p, h) (q, k) = (f x p q, All_zip P Q R xs f h k)

-- Any two units with the same value of the dimension share a component.
abbrev pub SharesBy : List (List SplitUnit) → List SplitUnit → String → Type 0
SharesBy found units dimension =
    All
      (λ u. All (λ v. value_of dimension u ≡ value_of dimension v → ShareComponent found u v) units)
      units

module _ {n : ℕ} {parents : Parents} (f : Forest n parents) (groups : List Group)
    (units : List SplitUnit)
    (each : All (λ u. Mem u (group_of (f.root u.incident_id) groups)) units) where
  -- What one unit has.
  abbrev IsPlaced : String → (String → String) → SplitUnit → Type 0
  IsPlaced dimension first u =
      Mem u (group_of (f.root u.incident_id) groups)
      × (f.root u.incident_id ≡ f.root (first (value_of dimension u)))

  shares :
      (dimension : String) (first : String → String) (u v : SplitUnit)
      → IsPlaced dimension first u
      → IsPlaced dimension first v
      → value_of dimension u ≡ value_of dimension v
      → ShareComponent (members_of groups) u v
  shares dimension first u v (mu, eu) (mv, ev) same =
      let one_root : f.root v.incident_id ≡ f.root u.incident_id =
        ev ∙ (ap (λ w. f.root (first w)) (sym same) ∙ sym eu) in
      (
        group_of (f.root u.incident_id) groups,
        group_of-Mem (f.root u.incident_id) u groups mu,
        mu,
        (rw one_root at mv),
      )

  All-square :
      {A : Type 0} (P : A → Type 0) (R : A → A → Type 0) (xs ys : List A)
      → ((x y : A) → P x → P y → R x y)
      → All P xs
      → All P ys
      → All (λ x. All (R x) ys) xs
  All-square P R [] ys h ps qs = tt
  All-square P R (x ∷ xs) ys h (p, ps) qs =
      (All_zip P P (R x) ys (λ y q _. h x y p q) qs qs, All-square P R xs ys h ps qs)

  all_share :
      (dimensions : List String)
      → All (IsTogether f units) dimensions
      → All (SharesBy (members_of groups) units) dimensions
  all_share [] h = tt
  all_share (dimension ∷ dimensions) ((first, same_tree), h) =
      let placed = All_zip _ _ (IsPlaced dimension first) units (λ u m e. (m, e)) each same_tree in
      (
        All-square (IsPlaced dimension first) _ units units (shares dimension first) placed placed,
        all_share dimensions h,
      )

pub alone-Forest : Forest 0 alone
alone-Forest = record {
  root = λ x. x;
  rank = λ x. 0;
  is_forest = record {
    root_of_parent = λ x. refl;
    root_stays = λ x. refl;
    root_of_root = λ x e. refl;
    bounded = λ x. omega arith;
    rises = λ x n. absurd (n refl);
    below = λ x n. absurd (n refl);
  };
}

-- If the components of a corpus are computed, then any two units that have the same value in one of the
-- held-out dimensions are members of one component.
pub components-SharesBy :
    (units : List SplitUnit) (dimensions : List String) (found : List (List SplitUnit))
    → components units dimensions ≡ ok found
    → All (SharesBy found units) dimensions
unfolding components
components-SharesBy units dimensions found h =
    let (_, h1) = then-eq-ok (raise_if (is_empty units) empty_corpus) h in
    let (_, h2) =
      then-eq-ok
        (raise_if
          (is_empty dimensions
            || not (all_distinct dimensions)
            || not (is_subset dimensions allowed_dimensions))
          bad_dimensions)
        h1 in
    let fuel = rounds units dimensions in
    let joined =
      join_dimensions-JoinedByAll 0 fuel alone alone-Forest units dimensions (omega arith) in
    let b = joined.at_most in
    let parents = join_dimensions fuel alone units dimensions in
    let each =
      group_units-each joined.steps fuel joined.after.root joined.after.rank parents [] units
        joined.after.is_forest (omega arith) in
    let same : members_of (group_units fuel parents [] units) ≡ found = cc h2 in
    rw (← same) (
      all_share joined.after (group_units fuel parents [] units) units each dimensions joined.joins)
