-- ===== src/Tree/Gini.antt =====
-- Exact Gini impurity of src/fieldtrue/shortcut_v2_tree.py.
use native.Mathlib.Nat.{zero-add, zero-mul, sub_self}
use inbar.Prelude.{
  ℕ, ◌+◌, ◌-◌, ◌*◌, ◌≤◌, ◌<◌, List, [], ◌∷◌, Bool, true, false, ◌||◌, ◌==◌, ◌≡◌, ◌↔◌, sym, ◌∙◌,
  arith, Result, ok, ◌>>=◌, ◌>>◌, raise_if, length, dec_lt, ◌≢◌,
}
use inbar.Rational.{
  Fraction, fraction, fraction-IsValue, add, subtract, multiply, IsValue, add-IsValue,
  subtract-IsValue, multiply-IsValue, IsValue-of,
}
use inbar.Tree.{ClassCount, ShortcutTreeError, empty_counts, empty_child}
use inbar.Tree.Counts.{total, squares}

unfoldable pub any_zero : List ClassCount → Bool
any_zero [] = false
any_zero (c ∷ cs) = (c.count == 0) || any_zero cs

abbrev is_none_counted : List ClassCount → Bool
is_none_counted [] = true
is_none_counted (c ∷ cs) = false

-- `sum(Fraction(count, total) ** 2 for count in counts.values())`
unfoldable pub sum_squares : ℕ → List ClassCount → Fraction → Fraction
sum_squares n [] acc = acc
sum_squares n (c ∷ cs) acc =
    sum_squares n cs (add acc (multiply (fraction c.count n) (fraction c.count n)))

unfoldable pub exact_gini : List ClassCount → Result ShortcutTreeError Fraction
exact_gini counts = do
  raise_if (is_none_counted counts || any_zero counts) empty_counts
  ok (subtract (fraction 1 1) (sum_squares (total counts) counts (fraction 0 1)))

unfoldable pub weighted_gini : List ClassCount → List ClassCount → Result ShortcutTreeError Fraction
weighted_gini false_counts true_counts = do
  raise_if ((total false_counts == 0) || (total true_counts == 0)) empty_child
  g ← exact_gini false_counts
  h ← exact_gini true_counts
  ok (
      multiply
        (add (multiply (fraction (total false_counts) 1) g)
          (multiply (fraction (total true_counts) 1) h))
        (fraction 1 (total false_counts + total true_counts)))

sum_squares-IsValue :
    (n : ℕ) (cs : List ClassCount) (acc : Fraction) (done : ℕ)
    → 0 < n
    → IsValue acc done (n * n)
    → IsValue (sum_squares n cs acc) (done + squares cs) (n * n)
unfolding sum_squares
sum_squares-IsValue n [] acc done pos h = let same : done ≡ done + 0 = omega arith in rw (← same) h
sum_squares-IsValue n (c ∷ cs) acc done pos h =
    let one = fraction-IsValue c.count n pos in
    let square =
      multiply-IsValue (fraction c.count n) (fraction c.count n) c.count c.count n n one one pos
        pos in
    let wide : 0 < n * n = grind arith in
    let next =
      add-IsValue acc (multiply (fraction c.count n) (fraction c.count n)) done (c.count * c.count)
        (n * n) wide h square in
    let same : done + c.count * c.count + squares cs ≡ done + (c.count * c.count + squares cs) =
      omega arith in
    rw (← same) (sum_squares-IsValue n cs _ (done + c.count * c.count) pos next)

squares-le : (cs : List ClassCount) → squares cs ≤ total cs * total cs
squares-le [] = omega arith
squares-le (c ∷ cs) = grind (arith, squares-le cs)

total_pos : (cs : List ClassCount) (g : Fraction) → exact_gini cs ≡ ok g → 0 < total cs
unfolding exact_gini any_zero
total_pos [] g h = ground arith
total_pos (c ∷ cs) g h = let c_pos : 0 < c.count = ground arith in omega arith

-- The impurity of counts with sum `n` is (n² - the sum of their squares) / n².
pub exact_gini-IsValue :
    (cs : List ClassCount) (g : Fraction)
    → exact_gini cs ≡ ok g
    → IsValue g (total cs * total cs - squares cs) (total cs * total cs)
unfolding exact_gini any_zero
exact_gini-IsValue cs g h =
    let positive : 0 < total cs = total_pos cs g h in
    let wide : 0 < total cs * total cs = grind arith in
    let n = total cs in
    let same : subtract (fraction 1 1) (sum_squares n cs (fraction 0 1)) ≡ g = ground arith in
    let one =
      IsValue-of (fraction 1 1) 1 1 (n * n) (n * n) (fraction-IsValue 1 1 (omega arith))
        (omega arith) (omega arith) in
    let none_yet =
      IsValue-of (fraction 0 1) 0 1 0 (n * n) (fraction-IsValue 0 1 (omega arith)) (omega arith)
        (omega arith) in
    let sum = sum_squares-IsValue n cs (fraction 0 1) 0 positive none_yet in
    let sum' : IsValue (sum_squares n cs (fraction 0 1)) (squares cs) (n * n) =
      rw zero-add at sum in
    rw (← same) (
      subtract-IsValue (fraction 1 1) (sum_squares n cs (fraction 0 1)) (n * n) (squares cs) (n * n)
        wide (squares-le cs) one sum')

squares-lt :
    (cs : List ClassCount) → any_zero cs ≡ false → 2 ≤ length cs → squares cs < total cs * total cs
unfolding any_zero
squares-lt [] h k = absurd (omega arith)
squares-lt (c ∷ []) h k = absurd (omega arith)
squares-lt (c ∷ d ∷ cs) h k =
    let c_pos : 0 < c.count = ground arith in
    let d_pos : 0 < d.count = ground arith in grind (arith, squares-le (d ∷ cs))

squares_pos : (cs : List ClassCount) → 0 < total cs → 0 < squares cs
squares_pos [] h = absurd (omega arith)
squares_pos (c ∷ cs) h = elim (dec_lt 0 c.count) [
  | yes p ↦ grind arith
  | no n ↦ let rest = squares_pos cs (omega arith) in omega arith
]

one_class : (cs : List ClassCount) → 0 < total cs → length cs ≤ 1 → length cs ≡ 1
one_class [] h k = absurd (omega arith)
one_class (c ∷ cs) h k = omega arith

one_square : (cs : List ClassCount) → length cs ≡ 1 → squares cs ≡ total cs * total cs
one_square [] h = absurd (omega arith)
one_square (c ∷ []) h = grind arith
one_square (c ∷ d ∷ cs) h = absurd (omega arith)

product_pos : (a b : ℕ) → 0 < a → 0 < b → a * b ≢ 0
product_pos a b ha hb e = let pos : 0 < a * b = grind arith in omega arith

lt_of_scaled : (a b k m : ℕ) → a * k ≡ m * b → m < k → 0 < b → a < b
lt_of_scaled a b k m e less pos = elim (dec_lt a b) [
  | yes h ↦ h
  | no n ↦
      let le : b * k ≤ a * k = grind arith in
      let lt : m * b < k * b = grind arith in absurd (grind arith)
]

-- Impurity is a proper fraction, and it is zero exactly if there is one class: a pure node cannot be
-- improved, and no other is taken for pure.
pub exact_gini_bounds :
    (cs : List ClassCount) (g : Fraction)
    → exact_gini cs ≡ ok g
    → (g.numerator < g.denominator) × ((g.numerator ≡ 0) ↔ (length cs ≡ 1))
unfolding exact_gini
exact_gini_bounds cs g h =
    let (value, positive) = exact_gini-IsValue cs g h in
    let sum_positive = total_pos cs g h in
    let some_square = squares_pos cs sum_positive in
    let bounded = squares-le cs in
    let counted : any_zero cs ≡ false = ground arith in
    (
      lt_of_scaled g.numerator g.denominator (total cs * total cs)
          (total cs * total cs - squares cs) value (omega arith) positive,
      (
        λ pure. elim (dec_lt 1 (length cs)) [
          | yes many ↦
              let less = squares-lt cs counted (omega arith) in
              let left : (total cs * total cs - squares cs) * g.denominator ≡ 0 =
                sym value ∙ (rw pure (zero-mul _)) in
              absurd (
                product_pos (total cs * total cs - squares cs) g.denominator (omega arith) positive
                  left)
          | no few ↦ one_class cs sum_positive (omega arith)
        ],
        λ one.
            let all : squares cs ≡ total cs * total cs = one_square cs one in
            let left : g.numerator * (total cs * total cs) ≡ 0 =
              value ∙ (rw all (rw sub_self (zero-mul _))) in
            elim (dec_lt 0 g.numerator) [
              | yes more ↦
                  absurd (product_pos g.numerator (total cs * total cs) more (grind arith) left)
              | no same ↦ omega arith
            ],
      ),
    )
