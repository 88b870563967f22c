-- ===== src/Canonical/Digits.antt =====
-- The digits of a number in src/fieldtrue/canonical.py, and the number they are read as.
use inbar.Prelude.{
  ℕ, zero, suc, ◌+◌, ◌/◌, ◌%◌, ◌<◌, List, [], ◌∷◌, ◌≡◌, refl, arith, Bool-cases, inl, inr, ltb,
  Bool, true, ◌&&◌,
}
use inbar.Tree.Decimal.{str, str_loop, read_digits}
use inbar.Tree.Digits.{str_loop-read}
use inbar.Canonical.Read.{is_digit}

abbrev pub are_digits : List ℕ → Bool
are_digits [] = true
are_digits (c ∷ cs) = is_digit c && are_digits cs

digit_lem : (d : ℕ) → d < 10 → is_digit (b'0' + d) ≡ true
digit_lem d h = ground arith

str_loop-are_digits :
    (fuel n : ℕ) (behind : List ℕ)
    → are_digits behind ≡ true
    → are_digits (str_loop fuel n behind) ≡ true
unfolding str_loop
str_loop-are_digits zero n behind h = h
str_loop-are_digits (suc fuel) n behind h = elim (Bool-cases (ltb n 10)) [
  | inl small ↦ rw (small, digit_lem n (ground arith)) h
  | inr large ↦ rw large (
      str_loop-are_digits fuel (n / 10) ((b'0' + n % 10) ∷ behind)
        (rw (digit_lem (n % 10) (omega arith)) h))
]

pub str-are_digits : (n : ℕ) → are_digits (str n) ≡ true
unfolding str
str-are_digits n = str_loop-are_digits (suc n) n [] refl

pub str-value : (n : ℕ) → read_digits 0 (str n) ≡ n
unfolding str read_digits
str-value n = str_loop-read (suc n) n [] (omega arith)

abbrev pub Starts : List ℕ → Type 0
Starts cs = (d : ℕ) × (ds : List ℕ) × (cs ≡ d ∷ ds)

str_loop-Starts : (fuel n : ℕ) (behind : List ℕ) → Starts behind → Starts (str_loop fuel n behind)
unfolding str_loop
str_loop-Starts zero n behind h = h
str_loop-Starts (suc fuel) n behind h = elim (Bool-cases (ltb n 10)) [
  | inl small ↦ rw small ((b'0' + n), behind, refl)
  | inr large ↦ rw large (str_loop-Starts fuel (n / 10) ((b'0' + n % 10) ∷ behind) (_, _, refl))
]

pub str-Starts : (n : ℕ) → Starts (str n)
unfolding str str_loop
str-Starts n = elim (Bool-cases (ltb n 10)) [
  | inl small ↦ rw small ((b'0' + n), [], refl)
  | inr large ↦ rw large (str_loop-Starts n (n / 10) ((b'0' + n % 10) ∷ []) (_, _, refl))
]
