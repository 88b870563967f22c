-- ===== src/Rational.antt =====
-- Python's `math.gcd` and the non-negative part of `fractions.Fraction`, which keeps its values reduced.
use native.Mathlib.Nat.{
  mul-sub, mul_comm, mod-lt, mul-div-mul_right, div-add-mod, dvd_refl, dvd-zero, dvd-mod_iff,
  div-mul_cancel, eq_of_mul-eq-mul_right, eq-zero_of_zero-dvd,
}
use Prim.Native.Nat.{◌∣◌}
use inbar.Prelude.{
  ℕ, zero, suc, ◌+◌, ◌-◌, ◌*◌, ◌/◌, ◌%◌, ◌≤◌, ◌<◌, Bool, true, false, ◌==◌, ◌&&◌, ltb, ◌≡◌, refl,
  sym, ap, ◌∙◌, arith, Bool-cases, inl, inr,
}

-- Euclid's algorithm; `b + 1` rounds are enough.
unfoldable pub gcd_rounds : ℕ → ℕ → ℕ → ℕ
gcd_rounds zero a b = a
gcd_rounds (suc n) a b = elim (b == 0) [ true ↦ a | false ↦ gcd_rounds n b (a % b) ]

unfoldable pub gcd : ℕ → ℕ → ℕ
unfolding gcd_rounds
gcd a b = gcd_rounds (b + 1) a b

-- More rounds change nothing.
gcd_rounds-enough : (m n a b : ℕ) → b < m → b < n → gcd_rounds m a b ≡ gcd_rounds n a b
unfolding gcd_rounds
gcd_rounds-enough zero n a b h k = absurd (omega arith)
gcd_rounds-enough (suc m) zero a b h k = absurd (omega arith)
gcd_rounds-enough (suc m) (suc n) a b h k = elim (Bool-cases (b == 0)) [
  | inl e ↦ rw (e, gcd_rounds) refl
  | inr e ↦
      let pos : 0 < b = ground arith in
      let less = mod-lt a pos in
      rw (e, gcd_rounds) (gcd_rounds-enough m n b (a % b) (omega arith) (omega arith))
]

mod_scaled : (a b k : ℕ) → 0 < k → (a * k) % (b * k) ≡ (a % b) * k
mod_scaled a b k pos =
    let scaled = mul-div-mul_right a b pos in
    let whole : b * k * (a / b) + a * k % (b * k) ≡ a * k =
      rw scaled at (div-add-mod (a * k) (b * k)) in
    let part = ap (λ (t : ℕ). t * k) (div-add-mod a b) in grind arith

gcd_rounds-scaled : (n a b k : ℕ) → 0 < k → gcd_rounds n (a * k) (b * k) ≡ gcd_rounds n a b * k
unfolding gcd_rounds
gcd_rounds-scaled zero a b k pos = refl
gcd_rounds-scaled (suc n) a b k pos = elim (Bool-cases (b == 0)) [
  | inl e ↦ let e' : (b * k == 0) ≡ true = grind arith in rw (e, e', gcd_rounds) refl
  | inr e ↦
      let e' : (b * k == 0) ≡ false = grind arith in
      rw (e, e', gcd_rounds) (rw (mod_scaled a b k pos) (gcd_rounds-scaled n b (a % b) k pos))
]

pub gcd_scaled : (a b k : ℕ) → 0 < k → gcd (a * k) (b * k) ≡ gcd a b * k
unfolding gcd
gcd_scaled a b k pos =
    gcd_rounds-scaled (b * k + 1) a b k pos
    ∙ ap (λ g. g * k) (gcd_rounds-enough (b * k + 1) (b + 1) a b (grind arith) (omega arith))

gcd_rounds_dvd : (n a b : ℕ) → b < n → (gcd_rounds n a b ∣ a) × (gcd_rounds n a b ∣ b)
unfolding gcd_rounds
gcd_rounds_dvd zero a b h = absurd (omega arith)
gcd_rounds_dvd (suc n) a b h = elim (Bool-cases (b == 0)) [
  | inl e ↦
      let none_left : b ≡ 0 = ground arith in
      rw (e, gcd_rounds) (dvd_refl a, rw none_left (dvd-zero a))
  | inr e ↦
      let pos : 0 < b = ground arith in
      let less = mod-lt a pos in
      let (left, right) = gcd_rounds_dvd n b (a % b) (omega arith) in
      rw (e, gcd_rounds) ((dvd-mod_iff (gcd_rounds n b (a % b)) left).0 right, left)
]

pub gcd_dvd : (a b : ℕ) → (gcd a b ∣ a) × (gcd a b ∣ b)
unfolding gcd
gcd_dvd a b = gcd_rounds_dvd (b + 1) a b (omega arith)

pub gcd_pos : (a b : ℕ) → 0 < b → 0 < gcd a b
unfolding gcd
gcd_pos a b pos =
    let (left, right) = gcd_rounds_dvd (b + 1) a b (omega arith) in
    elim (Bool-cases (gcd_rounds (b + 1) a b == 0)) [
      | inl e ↦
          let none_left : gcd_rounds (b + 1) a b ≡ 0 = ground arith in
          let b_zero = eq-zero_of_zero-dvd (rw none_left at right) in absurd (omega arith)
      | inr e ↦ ground arith
    ]

gcd_one : (a b g : ℕ) → 0 < g → gcd (a * g) (b * g) ≡ g → gcd a b ≡ 1
gcd_one a b g pos e =
    eq_of_mul-eq-mul_right g pos (gcd a b) 1 (sym (gcd_scaled a b g pos) ∙ (e ∙ omega arith))

-- A fraction in lowest terms; the denominator is positive.
pub record Fraction : Type 0 where
  pub numerator : ℕ
  pub denominator : ℕ

-- `Fraction(n, d)`
unfoldable pub fraction : ℕ → ℕ → Fraction
fraction n d = let g = gcd n d in record { numerator = n / g; denominator = d / g }

-- Reducing leaves nothing to reduce, and the value alone.
pub fraction_lem :
    (n d : ℕ)
    → 0 < d
    → (gcd (fraction n d).numerator (fraction n d).denominator ≡ 1)
      × ((fraction n d).numerator * d ≡ n * (fraction n d).denominator)
      × (0 < (fraction n d).denominator)
unfolding fraction
fraction_lem n d pos =
    let g = gcd n d in
    let g_pos = gcd_pos n d pos in
    let (left, right) = gcd_dvd n d in
    let top = div-mul_cancel g left in
    let bottom = div-mul_cancel g right in
    let back : gcd (n / g * g) (d / g * g) ≡ g =
      ap (λ t. gcd t (d / g * g)) top ∙ ap (gcd n) bottom in
    let nonzero : 0 < d / g * g = omega (arith, pos, bottom) in
    (
      gcd_one (n / g) (d / g) g g_pos back,
      grind (arith, ap (λ (t : ℕ). n / g * t) bottom, ap (λ (t : ℕ). t * (d / g)) top),
      grind arith,
    )

unfoldable pub add : Fraction → Fraction → Fraction
unfolding fraction
add a b =
    fraction (a.numerator * b.denominator + b.numerator * a.denominator)
      (a.denominator * b.denominator)

-- For `b` at most `a`
unfoldable pub subtract : Fraction → Fraction → Fraction
unfolding fraction
subtract a b =
    fraction (a.numerator * b.denominator - b.numerator * a.denominator)
      (a.denominator * b.denominator)

unfoldable pub multiply : Fraction → Fraction → Fraction
unfolding fraction
multiply a b = fraction (a.numerator * b.numerator) (a.denominator * b.denominator)

abbrev pub less : Fraction → Fraction → Bool
less a b = ltb (a.numerator * b.denominator) (b.numerator * a.denominator)

abbrev pub equal : Fraction → Fraction → Bool
equal a b = (a.numerator == b.numerator) && (a.denominator == b.denominator)

-- `a` has the value of `n` over `d`.
abbrev pub IsValue : Fraction → ℕ → ℕ → Type 0
IsValue a n d = (a.numerator * d ≡ n * a.denominator) × (0 < a.denominator)

pub fraction-IsValue : (n d : ℕ) → 0 < d → IsValue (fraction n d) n d
fraction-IsValue n d pos = let (_, same, positive) = fraction_lem n d pos in (same, positive)

-- A value can be read off any other fraction of the same value.
pub IsValue-of :
    (a : Fraction) (n d n' d' : ℕ) → IsValue a n d → 0 < d → n * d' ≡ n' * d → IsValue a n' d'
IsValue-of a n d n' d' (e, positive) pos same = (
  eq_of_mul-eq-mul_right d pos (a.numerator * d') (n' * a.denominator)
      (grind (arith, ap (λ (t : ℕ). t * d') e, ap (λ (t : ℕ). t * a.denominator) same)),
  positive,
)

pub add-IsValue :
    (a b : Fraction) (n m d : ℕ)
    → 0 < d
    → IsValue a n d
    → IsValue b m d
    → IsValue (add a b) (n + m) d
unfolding add
add-IsValue a b n m d pos (ea, pa) (eb, pb) =
    let both : 0 < a.denominator * b.denominator = grind arith in
    IsValue-of (add a b) (a.numerator * b.denominator + b.numerator * a.denominator)
      (a.denominator * b.denominator) (n + m) d (fraction-IsValue _ _ both) both
      (grind (arith, ap (λ (t : ℕ). t * b.denominator) ea, ap (λ (t : ℕ). t * a.denominator) eb))

sub_scaled : (x y k : ℕ) → (x - y) * k ≡ x * k - y * k
sub_scaled x y k = mul_comm (x - y) k ∙ (mul-sub k x y ∙ omega (arith, mul_comm k x, mul_comm k y))

pub subtract-IsValue :
    (a b : Fraction) (n m d : ℕ)
    → 0 < d
    → m ≤ n
    → IsValue a n d
    → IsValue b m d
    → IsValue (subtract a b) (n - m) d
unfolding subtract
subtract-IsValue a b n m d pos le (ea, pa) (eb, pb) =
    let both : 0 < a.denominator * b.denominator = grind arith in
    let one : a.numerator * b.denominator * d ≡ n * (a.denominator * b.denominator) =
      grind (arith, ap (λ (t : ℕ). t * b.denominator) ea) in
    let two : b.numerator * a.denominator * d ≡ m * (a.denominator * b.denominator) =
      grind (arith, ap (λ (t : ℕ). t * a.denominator) eb) in
    IsValue-of (subtract a b) (a.numerator * b.denominator - b.numerator * a.denominator)
      (a.denominator * b.denominator) (n - m) d (fraction-IsValue _ _ both) both
      (sub_scaled (a.numerator * b.denominator) (b.numerator * a.denominator) d
        ∙ (rw (one, two) (sym (sub_scaled n m (a.denominator * b.denominator)))))

pub multiply-IsValue :
    (a b : Fraction) (n m d e : ℕ)
    → IsValue a n d
    → IsValue b m e
    → 0 < d
    → 0 < e
    → IsValue (multiply a b) (n * m) (d * e)
unfolding multiply
multiply-IsValue a b n m d e (ea, pa) (eb, pb) pd pe =
    let both : 0 < a.denominator * b.denominator = grind arith in
    IsValue-of (multiply a b) (a.numerator * b.numerator) (a.denominator * b.denominator) (n * m)
      (d * e) (fraction-IsValue _ _ both) both
      (grind
        (arith, ap (λ (t : ℕ). t * (b.numerator * e)) ea, ap (λ (t : ℕ). n * a.denominator * t) eb))
