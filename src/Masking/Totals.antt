-- ===== src/Masking/Totals.antt =====
-- Sums over the mechanisms of src/fieldtrue/masking.py, against sums over the cells.
use inbar.Prelude.{
  ℕ, ◌+◌, String, List, [], ◌∷◌, ◌++◌, ◌≡◌, ◌≢◌, refl, sym, ap, ◌∙◌, arith, Bool, Bool-cases, inl,
  inr, All, same_text, same_text-ne, same_text_refl, same_text-apart,
}
use inbar.Sorting.{sort, insert}
use inbar.Masking.{MaskingCell}
use inbar.Masking.Recompute.{ByMechanism, add_cell, group_cells, keys_of, rows_of}

-- What is summed, for each key
unfoldable pub sum_over : (String → ℕ) → List String → ℕ
sum_over f [] = 0
sum_over f (k ∷ ks) = f k + sum_over f ks

sum_over-insert :
    (precedes : String → String → Bool) (f : String → ℕ) (x : String) (ys : List String)
    → sum_over f (insert precedes x ys) ≡ f x + sum_over f ys
unfolding sum_over insert
sum_over-insert precedes f x [] = refl
sum_over-insert precedes f x (y ∷ ys) = elim (Bool-cases (precedes x y)) [
  | inl e ↦ rw e refl
  | inr e ↦ rw e (omega (arith, sum_over-insert precedes f x ys))
]

-- Sorting the keys does not change a sum over them.
pub sum_over-sort :
    (precedes : String → String → Bool) (f : String → ℕ) (sorted xs : List String)
    → sum_over f (sort precedes sorted xs) ≡ sum_over f sorted + sum_over f xs
unfolding sum_over sort
sum_over-sort precedes f sorted [] = omega arith
sum_over-sort precedes f sorted (x ∷ xs) = omega (
  arith,
  sum_over-sort precedes f (insert precedes x sorted) xs,
  sum_over-insert precedes f x sorted,
)

abbrev Distinct : ByMechanism → Type 0
Distinct [] = Unit
Distinct ((key, rows) ∷ others) = All (λ k. k ≢ key) (keys_of others) × Distinct others

add_cell-All :
    (P : String → Type 0) (c : MaskingCell) (groups : ByMechanism)
    → P c.mechanism_key
    → All P (keys_of groups)
    → All P (keys_of (add_cell c groups))
unfolding add_cell
add_cell-All P c [] p h = (p, tt)
add_cell-All P c ((k, rows) ∷ others) p (q, h) = elim (Bool-cases (same_text k c.mechanism_key)) [
  | inl e ↦ rw e (q, h)
  | inr e ↦ rw e (q, add_cell-All P c others p h)
]

-- What the mechanisms of all cells satisfy, all keys satisfy.
pub group_cells-All :
    (P : String → Type 0) (groups : ByMechanism) (cells : List MaskingCell)
    → All P (keys_of groups)
    → All (λ c. P c.mechanism_key) cells
    → All P (keys_of (group_cells groups cells))
unfolding group_cells
group_cells-All P groups [] h k = h
group_cells-All P groups (c ∷ cs) h (p, k) =
    group_cells-All P (add_cell c groups) cs (add_cell-All P c groups p h) k

add_cell-Distinct :
    (c : MaskingCell) (groups : ByMechanism) → Distinct groups → Distinct (add_cell c groups)
unfolding add_cell
add_cell-Distinct c [] h = (tt, tt)
add_cell-Distinct c ((k, rows) ∷ others) (apart, h) =
    elim (Bool-cases (same_text k c.mechanism_key)) [
      | inl e ↦ rw e (apart, h)
      | inr e ↦
          let new : c.mechanism_key ≢ k = λ back. same_text-ne k c.mechanism_key e (sym back) in
          rw e (add_cell-All (λ l. l ≢ k) c others new apart, add_cell-Distinct c others h)
    ]

group_cells-Distinct :
    (groups : ByMechanism) (cells : List MaskingCell)
    → Distinct groups
    → Distinct (group_cells groups cells)
unfolding group_cells
group_cells-Distinct groups [] h = h
group_cells-Distinct groups (c ∷ cs) h =
    group_cells-Distinct (add_cell c groups) cs (add_cell-Distinct c groups h)

-- A measure of lists of cells that is the sum of those of its parts
module _ (measure : List MaskingCell → ℕ)
    (additive : (xs ys : List MaskingCell) → measure (xs ++ ys) ≡ measure xs + measure ys) where
  total : ByMechanism → ℕ
  total [] = 0
  total ((k, rows) ∷ others) = measure rows + total others

  total-add_cell :
      (c : MaskingCell) (groups : ByMechanism)
      → total (add_cell c groups) ≡ total groups + measure (c ∷ [])
  unfolding add_cell total
  total-add_cell c [] = omega arith
  total-add_cell c ((k, rows) ∷ others) = elim (Bool-cases (same_text k c.mechanism_key)) [
    | inl e ↦ rw e (omega (arith, additive rows (c ∷ [])))
    | inr e ↦ rw e (omega (arith, total-add_cell c others))
  ]

  total-group_cells :
      (groups : ByMechanism) (cells : List MaskingCell)
      → total (group_cells groups cells) ≡ total groups + measure cells
  unfolding group_cells
  total-group_cells groups [] = omega (arith, additive [] [])
  total-group_cells groups (c ∷ cs) = omega (
    arith,
    total-group_cells (add_cell c groups) cs,
    total-add_cell c groups,
    additive (c ∷ []) cs,
  )

  -- Another group does not matter to the keys that are not its own.
  sum_over-skip :
      (k : String) (rows : List MaskingCell) (others : ByMechanism) (keys : List String)
      → All (λ l. l ≢ k) keys
      → sum_over (λ l. measure (rows_of l ((k, rows) ∷ others))) keys
        ≡ sum_over (λ l. measure (rows_of l others)) keys
  unfolding sum_over rows_of
  sum_over-skip k rows others [] h = refl
  sum_over-skip k rows others (l ∷ ls) (apart, h) =
      rw (same_text-apart k l (λ e. apart (sym e)))
        (ap (λ (n : ℕ). measure (rows_of l others) + n) (sum_over-skip k rows others ls h))

  sum_over-keys_of :
      (groups : ByMechanism)
      → Distinct groups
      → sum_over (λ k. measure (rows_of k groups)) (keys_of groups) ≡ total groups
  unfolding sum_over rows_of total
  sum_over-keys_of [] h = refl
  sum_over-keys_of ((k, rows) ∷ others) (apart, h) = rw (same_text_refl k) (
      ap (λ (n : ℕ). measure rows + n)
        (sum_over-skip k rows others (keys_of others) apart ∙ sum_over-keys_of others h))

  -- Over the sorted keys of the grouped cells, the measures of the rows add up to that of the cells.
  pub sum_over-group_cells :
      (precedes : String → String → Bool) (cells : List MaskingCell)
      → sum_over
          (λ k. measure (rows_of k (group_cells [] cells)))
          (sort precedes [] (keys_of (group_cells [] cells)))
        ≡ measure cells
  unfolding sum_over total
  sum_over-group_cells precedes cells =
      let groups = group_cells [] cells in
      omega (
        arith,
        sum_over-sort precedes (λ k. measure (rows_of k groups)) [] (keys_of groups),
        sum_over-keys_of groups (group_cells-Distinct [] cells tt),
        total-group_cells [] cells,
      )
