-- ===== src/Tree/Counts.antt =====
-- `collections.Counter` over prediction keys, and the ordered class counts of
-- src/fieldtrue/shortcut_v2_tree.py.
use inbar.Prelude.{
  ℕ, ◌+◌, ◌*◌, String, List, [], ◌∷◌, Bool, ◌≡◌, refl, arith, codes, length, string_discrete,
  Bool-cases, inl, inr,
}
use inbar.Sorting.{sort, insert, codes_less}
use inbar.Tree.{ClassCount}

-- `counter[key] += 1`
unfoldable pub count_one : String → List ClassCount → List ClassCount
count_one key [] = record { prediction_key = key; count = 1 } ∷ []
count_one key (c ∷ cs) =
    let rest = count_one key cs in
    elim (string_discrete c.prediction_key key) [
      | yes _ ↦ record { prediction_key = c.prediction_key; count = c.count + 1 } ∷ cs
      | no _ ↦ c ∷ rest
    ]

-- `Counter(targets)`, in order of first occurrence
unfoldable pub counter : List ClassCount → List String → List ClassCount
counter counts [] = counts
counter counts (t ∷ ts) = counter (count_one t counts) ts

abbrev pub total : List ClassCount → ℕ
total [] = 0
total (c ∷ cs) = c.count + total cs

abbrev pub squares : List ClassCount → ℕ
squares [] = 0
squares (c ∷ cs) = c.count * c.count + squares cs

-- By the UTF-8 bytes of the keys, whose order is that of their code points.
abbrev pub key_less : ClassCount → ClassCount → Bool
key_less a b = codes_less (codes a.prediction_key) (codes b.prediction_key)

-- `_class_count_tuple`
unfoldable pub class_count_tuple : List ClassCount → List ClassCount
class_count_tuple counts = sort key_less [] counts

total-count_one : (key : String) (cs : List ClassCount) → total (count_one key cs) ≡ total cs + 1
unfolding count_one
total-count_one key [] = omega arith
total-count_one key (c ∷ cs) =
    elim (string_discrete c.prediction_key key)
      as (λ d.
        total (elim d [
          | yes _ ↦ record { prediction_key = c.prediction_key; count = c.count + 1 } ∷ cs
          | no _ ↦ c ∷ count_one key cs
        ])
        ≡ c.count + total cs + 1) [
          | yes e ↦ omega arith
          | no n ↦ omega (arith, total-count_one key cs)
        ]

-- The counts add up to the number of examples.
pub total-counter :
    (counts : List ClassCount) (ts : List String)
    → total (counter counts ts) ≡ total counts + length ts
unfolding counter
total-counter counts [] = omega arith
total-counter counts (t ∷ ts) =
    omega (arith, total-counter (count_one t counts) ts, total-count_one t counts)

total-insert :
    (c : ClassCount) (cs : List ClassCount) → total (insert key_less c cs) ≡ c.count + total cs
unfolding insert
total-insert c [] = refl
total-insert c (d ∷ cs) = elim (Bool-cases (key_less c d)) [
  | inl e ↦ rw e refl
  | inr e ↦ rw e (omega (arith, total-insert c cs))
]

total-sort :
    (sorted cs : List ClassCount) → total (sort key_less sorted cs) ≡ total sorted + total cs
unfolding sort
total-sort sorted [] = omega arith
total-sort sorted (c ∷ cs) =
    omega (arith, total-sort (insert key_less c sorted) cs, total-insert c sorted)

pub total-class_count_tuple : (cs : List ClassCount) → total (class_count_tuple cs) ≡ total cs
unfolding class_count_tuple
total-class_count_tuple cs = omega (arith, total-sort [] cs)
