-- ===== src/Splits/Forest.antt =====
-- The union-find of src/fieldtrue/splits.py keeps a forest: a search ends at a root within the rounds
-- given, and a union joins two trees and separates none.
use inbar.Prelude.{
  same_text, same_text-eq, same_text-ne, same_text-apart, same_text_refl, ℕ, zero, suc, ◌+◌, ◌≤◌,
  ◌<◌, String, false, if◌then◌else◌, ◌≡◌, ◌≢◌, refl, sym, ap, ◌∙◌, arith, Bool-cases, inl, inr,
}
use inbar.Splits.UnionFind.{Parents, set_parent, find}

-- The parents are those of trees with the given roots, and ranks of at most `n` rise towards the root.
pub record IsForest (n : ℕ) (root : String → String) (rank : String → ℕ) (parents : Parents)
    : Type 0 where
  pub root_of_parent : (x : String) → root (parents x) ≡ root x
  pub root_stays : (x : String) → parents (root x) ≡ root x
  pub root_of_root : (x : String) → parents x ≡ x → root x ≡ x
  pub bounded : (x : String) → rank x ≤ n
  pub rises : (x : String) → parents x ≢ x → rank x < rank (parents x)
  pub below : (x : String) → root x ≢ x → rank x < rank (root x)

module _ (n : ℕ) (root : String → String) (rank : String → ℕ) where
  pub set_parent-IsForest :
      (parents : Parents) (x : String)
      → IsForest n root rank parents
      → root x ≢ x
      → IsForest n root rank (set_parent x (root x) parents)
  unfolding set_parent
  set_parent-IsForest parents x f moves = record {
    root_of_parent = λ y. elim (Bool-cases (same_text y x)) [
      | inl e ↦ rw (e, same_text-eq y x e) (f.root_of_root (root x) (f.root_stays x))
      | inr e ↦ rw e (f.root_of_parent y)
    ];
    root_stays = λ y. elim (Bool-cases (same_text (root y) x)) [
      | inl e ↦
          let twice = f.root_of_root (root y) (f.root_stays y) in
          let same = same_text-eq (root y) x e in absurd (moves (rw same at twice))
      | inr e ↦ rw e (f.root_stays y)
    ];
    root_of_root = λ y stays. elim (Bool-cases (same_text y x)) [
      | inl e ↦
          let same = same_text-eq y x e in
          let back : root x ≡ y = rw e at stays in rw (ap root same) back
      | inr e ↦ f.root_of_root y (rw e at stays)
    ];
    bounded = f.bounded;
    rises = λ y goes. elim (Bool-cases (same_text y x)) [
      | inl e ↦
          let same = same_text-eq y x e in
          let apart : root x ≢ y = rw e at goes in
          rw e (rw same (f.below x (λ back. apart (back ∙ sym same))))
      | inr e ↦ rw e (f.rises y (rw e at goes))
    ];
    below = f.below;
  }

  -- In a forest whose ranks are at most `n`, a search that is given more rounds than there are ranks above
  -- the identifier ends at the root of its tree, and shortens the way in the same forest.
  pub find-lem :
      (fuel : ℕ) (parents : Parents) (x : String)
      → IsForest n root rank parents
      → n < fuel + rank x
      → ((find fuel parents x).0 ≡ root x) × IsForest n root rank (find fuel parents x).1
  unfolding find
  find-lem zero parents x f enough = absurd (let b = f.bounded x in omega arith)
  find-lem (suc fuel) parents x f enough = elim (Bool-cases (same_text (parents x) x)) [
    | inl e ↦ rw e (sym (f.root_of_root x (same_text-eq (parents x) x e)), f)
    | inr e ↦
        let moves = same_text-ne (parents x) x e in
        let higher = f.rises x moves in
        let (ends, kept) = find-lem fuel parents (parents x) f (omega arith) in
        let same = ends ∙ f.root_of_parent x in
        let not_root : root x ≢ x =
          λ is_root. let stays = f.root_stays x in moves (rw is_root at stays) in
        rw (e, same) (refl, set_parent-IsForest (find fuel parents (parents x)).1 x kept not_root)
  ]

-- A forest with some roots and ranks.
pub record Forest (n : ℕ) (parents : Parents) : Type 0 where
  pub root : String → String
  pub rank : String → ℕ
  pub is_forest : IsForest n root rank parents

-- Identifiers of one tree stay in one tree.
abbrev pub Keeps : {n m : ℕ} {p q : Parents} → Forest n p → Forest m q → Type 0
Keeps f g = (x y : String) → f.root x ≡ f.root y → g.root x ≡ g.root y

abbrev pub joined_root : String → String → (String → String) → String → String
joined_root left right root x = if same_text (root x) right then left else root x

abbrev pub joined_rank : ℕ → String → (String → ℕ) → String → ℕ
joined_rank n left rank x = if same_text x left then suc n else rank x

-- The right root goes below the left one.
pub join-IsForest :
    (n : ℕ) (root : String → String) (rank : String → ℕ) (parents : Parents) (left right : String)
    → IsForest n root rank parents
    → parents left ≡ left
    → parents right ≡ right
    → left ≢ right
    → IsForest
        (suc n)
        (joined_root left right root)
        (joined_rank n left rank)
        (set_parent right left parents)
unfolding set_parent
join-IsForest n root rank parents left right f left_stays right_stays apart =
    let left_root = f.root_of_root left left_stays in
    let right_root = f.root_of_root right right_stays in
    let not_right : same_text left right ≡ false = same_text-apart left right apart in
    let at_most : (x : String) → rank x ≤ joined_rank n left rank x = λ x.
      elim (Bool-cases (same_text x left)) [
        | inl e ↦ rw e (let b = f.bounded x in omega arith)
        | inr e ↦ rw e (omega arith)
      ] in
    record {
      root_of_parent = λ x. elim (Bool-cases (same_text x right)) [
        | inl e ↦
            rw (e, left_root, not_right, same_text-eq x right e, right_root, same_text_refl right)
              refl
        | inr e ↦ rw (e, f.root_of_parent x) refl
      ];
      root_stays = λ x. elim (Bool-cases (same_text (root x) right)) [
        | inl e ↦ rw (e, not_right, left_stays) refl
        | inr e ↦ rw (e, e, f.root_stays x) refl
      ];
      root_of_root = λ x stays. elim (Bool-cases (same_text x right)) [
        | inl e ↦
            let moved : left ≡ x = rw e at stays in absurd (apart (moved ∙ same_text-eq x right e))
        | inr e ↦ let itself = f.root_of_root x (rw e at stays) in rw (itself, e) refl
      ];
      bounded = λ x. elim (Bool-cases (same_text x left)) [
        | inl e ↦ rw e (omega arith)
        | inr e ↦ rw e (let b = f.bounded x in omega arith)
      ];
      rises = λ x goes. elim (Bool-cases (same_text x right)) [
        | inl e ↦
            let same = same_text-eq x right e in
            let not_left = same_text-apart right left (λ back. apart (sym back)) in
            rw (e, same_text_refl left, same, not_left) (let b = f.bounded right in omega arith)
        | inr e ↦
            let moves : parents x ≢ x = rw e at goes in
            let not_left =
              same_text-apart x left
                (λ is_left. moves (ap parents is_left ∙ (left_stays ∙ sym is_left))) in
            let up = f.rises x moves in
            let top = at_most (parents x) in rw (e, not_left) (omega arith)
      ];
      below = λ x moved. elim (Bool-cases (same_text (root x) right)) [
        | inl e ↦
            let now : left ≢ x = rw e at moved in
            let not_left = same_text-apart x left (λ back. now (sym back)) in
            rw (e, same_text_refl left, not_left) (let b = f.bounded x in omega arith)
        | inr e ↦
            let was : root x ≢ x = rw e at moved in
            let not_left =
              same_text-apart x left
                (λ is_left. was (ap root is_left ∙ (left_root ∙ sym is_left))) in
            let up = f.below x was in let top = at_most (root x) in rw (e, not_left) (omega arith)
      ];
    }
