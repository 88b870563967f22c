-- ===== src/Tree/Order.antt =====
-- The order in which src/fieldtrue/shortcut_v2_tree.py compares candidate splits: by score, then by
-- the bytes of the predicate.
use inbar.Prelude.{
  ℕ, ◌*◌, ◌≤◌, ◌<◌, true, false, ◌≡◌, arith, ltb→lt, lt→ltb, Bool-cases, inl, inr, dec_lt,
}
use inbar.Sorting.{codes_less-irreflexive, codes_less-transitive}
use inbar.Rational.{Fraction, less, equal}
use inbar.Tree.{Hashes}
use inbar.Tree.Fit.{Candidate, precedes}

scaled_lt : (a b k : ℕ) → 0 < k → a < b → a * k < b * k
scaled_lt a b k pos h = grind arith

scaled_le : (a b k : ℕ) → a ≤ b → a * k ≤ b * k
scaled_le a b k h = grind arith

-- Fractions a/x < b/y < c/z.
cross_lt : (a x b y c z : ℕ) → 0 < x → 0 < z → a * y < b * x → b * z < c * y → a * z < c * x
cross_lt a x b y c z px pz h k = elim (dec_lt (a * z) (c * x)) [
  | yes l ↦ l
  | no n ↦
      let one = scaled_lt (a * y) (b * x) z pz h in
      let two = scaled_lt (b * z) (c * y) x px k in
      let three : c * x * y ≤ a * z * y = scaled_le (c * x) (a * z) y (omega arith) in
      absurd (grind (arith, one, two, three))
]

less-transitive :
    (a b c : Fraction)
    → 0 < a.denominator
    → 0 < c.denominator
    → less a b ≡ true
    → less b c ≡ true
    → less a c ≡ true
less-transitive a b c pa pc h k = lt→ltb _ _ (
    cross_lt a.numerator a.denominator b.numerator b.denominator c.numerator c.denominator pa pc
      (ltb→lt _ _ h) (ltb→lt _ _ k))

equal-parts :
    (a b : Fraction)
    → equal a b ≡ true
    → (a.numerator ≡ b.numerator) × (a.denominator ≡ b.denominator)
equal-parts a b h = (ground arith, ground arith)

module _ (hashes : Hashes) where
  pub precedes-irreflexive : (c : Candidate hashes) → precedes hashes c c ≡ false
  precedes-irreflexive c =
      ground (arith, codes_less-irreflexive (hashes.predicate_bytes c.predicate))

  pub precedes-transitive :
      (a b c : Candidate hashes)
      → 0 < a.score.denominator
      → 0 < b.score.denominator
      → 0 < c.score.denominator
      → precedes hashes a b ≡ true
      → precedes hashes b c ≡ true
      → precedes hashes a c ≡ true
  precedes-transitive a b c pa pb pc h k = elim (Bool-cases (less a.score b.score)) [
    | inl ab ↦ elim (Bool-cases (less b.score c.score)) [
      | inl bc ↦ let ac = less-transitive a.score b.score c.score pa pc ab bc in ground arith
      | inr not_bc ↦
          let same : equal b.score c.score ≡ true = ground arith in
          let (n, d) = equal-parts b.score c.score same in
          let ac : less a.score c.score ≡ true = rw (n, d) at ab in ground arith
    ]
    | inr not_ab ↦
        let same : equal a.score b.score ≡ true = ground arith in
        let (n, d) = equal-parts a.score b.score same in
        elim (Bool-cases (less b.score c.score)) [
          | inl bc ↦ let ac : less a.score c.score ≡ true = rw (← n, ← d) at bc in ground arith
          | inr not_bc ↦
              let same' : equal b.score c.score ≡ true = ground arith in
              let (n', d') = equal-parts b.score c.score same' in
              let ac : equal a.score c.score ≡ true = rw (n, d, n', d') (ground arith) in
              let bytes =
                codes_less-transitive (hashes.predicate_bytes a.predicate)
                  (hashes.predicate_bytes b.predicate) (hashes.predicate_bytes c.predicate)
                  (ground arith) (ground arith) in
              ground arith
        ]
  ]
