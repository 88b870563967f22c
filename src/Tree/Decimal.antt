-- ===== src/Tree/Decimal.antt =====
-- Canonical decimals of src/fieldtrue/shortcut_v2_tree.py: exact rationals as texts.
use inbar.Prelude.{
  ℕ, zero, suc, ◌+◌, ◌-◌, ◌*◌, ◌/◌, ◌%◌, ◌^◌, List, [], ◌∷◌, ◌++◌, Bool, true, false, not, ◌&&◌,
  ◌==◌, ltb, length, Option, none, some, if◌then◌else◌, all_codes, between, split_dot, is_whole,
  Result, ok, ◌>>=◌, ◌>>◌, raise_if,
}
use mathlib.Core.List.{reverse}
use inbar.Integer.{pos_part, neg_part, difference_of}
use inbar.Domain.{ℤ, pos, negsuc}
use inbar.Rational.{fraction}
use inbar.Tree.{
  ShortcutTreeError, not_canonical_decimal, zero_not_canonical, trailing_zero, not_finite,
  not_ordered,
}

-- A `Fraction` of any sign.
pub record SignedFraction : Type 0 where
  pub numerator : ℤ
  pub denominator : ℕ

abbrev pub with_sign : ℤ → ℕ → ℤ
with_sign (pos _) n = pos n
with_sign (negsuc _) n = difference_of 0 n

-- `Fraction(n, d)`
unfoldable pub signed_fraction : ℤ → ℕ → SignedFraction
signed_fraction n d =
    let reduced = fraction (pos_part n + neg_part n) d in
    record { numerator = with_sign n reduced.numerator; denominator = reduced.denominator }

-- `a < b` and `a <= b`, of fractions
abbrev pub signed_less : SignedFraction → SignedFraction → Bool
signed_less a b =
    ltb (pos_part a.numerator * b.denominator + neg_part b.numerator * a.denominator)
      (pos_part b.numerator * a.denominator + neg_part a.numerator * b.denominator)

abbrev pub signed_at_most : SignedFraction → SignedFraction → Bool
signed_at_most a b = not (signed_less b a)

unfoldable pub take : ℕ → List ℕ → List ℕ
take n [] = []
take zero (x ∷ xs) = []
take (suc n) (x ∷ xs) = x ∷ take n xs

unfoldable pub drop : ℕ → List ℕ → List ℕ
drop n [] = []
drop zero (x ∷ xs) = x ∷ xs
drop (suc n) (x ∷ xs) = drop n xs

-- `int(chunk)`, of digits
unfoldable pub read_digits : ℕ → List ℕ → ℕ
read_digits value [] = value
read_digits value (c ∷ cs) = read_digits (value * 10 + (c - b'0')) cs

-- The loop over chunks of nine digits; one round for each digit is more than enough.
unfoldable pub parse_chunks : ℕ → ℕ → List ℕ → ℕ
unfolding take drop
parse_chunks fuel value [] = value
parse_chunks zero value (c ∷ cs) = value
parse_chunks (suc fuel) value (c ∷ cs) =
    let chunk = take 9 (c ∷ cs) in
    parse_chunks fuel (value * 10 ^ length chunk + read_digits 0 chunk) (drop 9 (c ∷ cs))

-- `_parse_unbounded_decimal_digits`
unfoldable pub parse_unbounded_decimal_digits : List ℕ → ℕ
unfolding parse_chunks
parse_unbounded_decimal_digits digits = parse_chunks (length digits) 0 digits

-- `f"{n:0{k}d}"`: the last `k` digits
unfoldable pub padded : ℕ → ℕ → List ℕ
padded zero n = []
padded (suc k) n = padded k (n / 10) ++ (b'0' + n % 10) ∷ []

-- `str(n)`; a number has fewer digits than its successor counts.
unfoldable pub str_loop : ℕ → ℕ → List ℕ → List ℕ
str_loop zero n behind = behind
str_loop (suc fuel) n behind =
    let rest = str_loop fuel (n / 10) ((b'0' + n % 10) ∷ behind) in
    if ltb n 10 then (b'0' + n) ∷ behind else rest

unfoldable pub str : ℕ → List ℕ
unfolding str_loop
str n = str_loop (suc n) n []

-- The loop of `divmod` by the base of the chunks, then the chunks from the last one on.
unfoldable pub render_chunks : ℕ → ℕ → List ℕ → List ℕ
unfolding padded str
render_chunks zero value behind = behind
render_chunks (suc fuel) value behind =
    let rest = render_chunks fuel (value / 1_000_000_000) (padded 9 value ++ behind) in
    if ltb value 1_000_000_000 then str value ++ behind else rest

-- `_render_unbounded_decimal_digits`
unfoldable pub render_unbounded_decimal_digits : ℕ → List ℕ
unfolding render_chunks
render_unbounded_decimal_digits value = render_chunks (suc value) value []

abbrev digits_option : Option (List ℕ) → List ℕ
digits_option none = []
digits_option (some ds) = ds

all_zeros : List ℕ → Bool
all_zeros [] = true
all_zeros (c ∷ cs) = (c == b'0') && all_zeros cs

ends_with_zero : List ℕ → Bool
ends_with_zero [] = false
ends_with_zero (c ∷ []) = c == b'0'
ends_with_zero (c ∷ d ∷ ds) = ends_with_zero (d ∷ ds)

-- `_DECIMAL_PATTERN`, behind the sign
is_fraction_part : Option (List ℕ) → Bool
unfolding all_codes between
is_fraction_part none = true
is_fraction_part (some []) = false
is_fraction_part (some (d ∷ ds)) = all_codes (between b'0' b'9') (d ∷ ds)

abbrev split_sign : List ℕ → Bool × List ℕ
split_sign [] = (false, [])
split_sign (c ∷ cs) = if c == b'-' then (true, cs) else (false, c ∷ cs)

-- `value.startswith("-0")`, of what stands behind the sign
abbrev starts_with_zero : List ℕ → Bool
starts_with_zero [] = false
starts_with_zero (c ∷ cs) = c == b'0'

abbrev negated : Bool → ℕ → ℤ
negated negative n = if negative then difference_of 0 n else pos n

unfoldable pub parse_canonical_decimal : List ℕ → Result ShortcutTreeError SignedFraction
unfolding is_whole is_fraction_part all_zeros ends_with_zero parse_unbounded_decimal_digits
    signed_fraction
parse_canonical_decimal value = do
  let (negative, unsigned) = split_sign value
  let (whole, fractional) = split_dot unsigned
  raise_if (not (is_whole whole && is_fraction_part fractional)) not_canonical_decimal
  raise_if (negative && starts_with_zero unsigned && all_zeros (digits_option fractional))
      zero_not_canonical
  raise_if (ends_with_zero (digits_option fractional)) trailing_zero
  let coefficient = parse_unbounded_decimal_digits (whole ++ digits_option fractional)
  ok (signed_fraction (negated negative coefficient) (10 ^ length (digits_option fractional)))

-- `while denominator % factor == 0`: what is left, and how often it was divided.
unfoldable pub divide_out : ℕ → ℕ → ℕ → ℕ → ℕ × ℕ
divide_out zero factor denominator n = (denominator, n)
divide_out (suc fuel) factor denominator n =
    let rest = divide_out fuel factor (denominator / factor) (n + 1) in
    if denominator % factor == 0 then rest else (denominator, n)

strip_zeros : List ℕ → List ℕ
strip_zeros [] = []
strip_zeros (c ∷ cs) = if c == b'0' then strip_zeros cs else c ∷ cs

abbrev strip_dot : List ℕ → List ℕ
strip_dot [] = []
strip_dot (c ∷ cs) = if c == b'.' then cs else c ∷ cs

-- `digits.rjust(scale + 1, "0")`, to the left of the digits
zeros : ℕ → List ℕ
zeros zero = []
zeros (suc n) = b'0' ∷ zeros n

-- The digits with the dot `scale` places before the end, and no zeros behind them.
unfoldable pub place_dot : ℕ → List ℕ → List ℕ
unfolding take drop strip_zeros zeros
place_dot zero digits = digits
place_dot (suc n) digits =
    let padded_digits = zeros (n + 2 - length digits) ++ digits in
    let whole = take (length padded_digits - (n + 1)) padded_digits in
    let behind = drop (length padded_digits - (n + 1)) padded_digits in
    reverse (strip_dot (strip_zeros (reverse (whole ++ b'.' ∷ behind))))

abbrev maximum : ℕ → ℕ → ℕ
maximum a b = if ltb a b then b else a

unfoldable pub canonical_decimal : SignedFraction → Result ShortcutTreeError (List ℕ)
unfolding divide_out place_dot render_unbounded_decimal_digits
canonical_decimal value = do
  let (without_twos, twos) = divide_out value.denominator 2 value.denominator 0
  let (left, fives) = divide_out value.denominator 5 without_twos 0
  raise_if (not (left == 1)) not_finite
  let magnitude = pos_part value.numerator + neg_part value.numerator
  let scale = maximum twos fives
  let scaled = magnitude * 2 ^ (scale - twos) * 5 ^ (scale - fives)
  let rendered = place_dot scale (render_unbounded_decimal_digits scaled)
  ok (
      if magnitude == 0
      then b'0' ∷ []
      else (if ltb 0 (neg_part value.numerator) then b'-' ∷ rendered else rendered))

-- `(left + right) / 2`
unfoldable pub mean : SignedFraction → SignedFraction → SignedFraction
unfolding signed_fraction
mean l r =
    signed_fraction
      (difference_of (pos_part l.numerator * r.denominator + pos_part r.numerator * l.denominator)
        (neg_part l.numerator * r.denominator + neg_part r.numerator * l.denominator))
      (l.denominator * r.denominator * 2)

unfoldable pub exact_midpoint : List ℕ → List ℕ → Result ShortcutTreeError (List ℕ)
exact_midpoint left right = do
  l ← parse_canonical_decimal left
  r ← parse_canonical_decimal right
  raise_if (not (signed_less l r)) not_ordered
  canonical_decimal (mean l r)
