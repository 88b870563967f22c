-- ===== src/Tree/Digits.antt =====
-- Unbounded decimal digits of src/fieldtrue/shortcut_v2_tree.py: chunks against plain digits, and
-- digits printed and read back.
use native.Mathlib.Nat.{pow-suc}
use inbar.Prelude.{
  ℕ, zero, suc, ◌+◌, ◌-◌, ◌*◌, ◌/◌, ◌%◌, ◌^◌, ◌≤◌, ◌<◌, List, [], ◌∷◌, ◌++◌, ◌≡◌, refl, sym, ap,
  ◌∙◌, arith, length, Bool-cases, inl, inr, ltb,
}
use inbar.Tree.Decimal.{
  take, drop, read_digits, parse_chunks, parse_unbounded_decimal_digits, padded, str_loop, str,
  render_chunks, render_unbounded_decimal_digits,
}

read_digits-append :
    (v : ℕ) (xs ys : List ℕ) → read_digits v (xs ++ ys) ≡ read_digits (read_digits v xs) ys
unfolding read_digits
read_digits-append v [] ys = refl
read_digits-append v (x ∷ xs) ys = read_digits-append (v * 10 + (x - b'0')) xs ys

shift_arith : (v d p r : ℕ) → (v * 10 + d) * p + r ≡ v * (p * 10) + ((0 * 10 + d) * p + r)
shift_arith v d p r = grind arith

-- Digits behind a value shift it.
read_digits-shift : (v : ℕ) (xs : List ℕ) → read_digits v xs ≡ v * 10 ^ length xs + read_digits 0 xs
unfolding read_digits
read_digits-shift v [] = grind arith
read_digits-shift v (x ∷ xs) =
    read_digits-shift (v * 10 + (x - b'0')) xs
    ∙ (shift_arith v (x - b'0') (10 ^ length xs) (read_digits 0 xs)
        ∙ (ap (λ (r : ℕ). v * (10 ^ length xs * 10) + r)
              (sym (read_digits-shift (0 * 10 + (x - b'0')) xs))
            ∙ ap (λ (p : ℕ). v * p + read_digits 0 (x ∷ xs)) (sym (pow-suc 10 (length xs)))))

take-drop : (n : ℕ) (xs : List ℕ) → take n xs ++ drop n xs ≡ xs
unfolding take drop
take-drop n [] = refl
take-drop zero (x ∷ xs) = refl
take-drop (suc n) (x ∷ xs) = ap (λ ys. x ∷ ys) (take-drop n xs)

length-drop : (n : ℕ) (xs : List ℕ) → length (drop n xs) ≤ length xs
unfolding drop
length-drop n [] = omega arith
length-drop zero (x ∷ xs) = omega arith
length-drop (suc n) (x ∷ xs) = omega (arith, length-drop n xs)

rest_short :
    (x : ℕ) (xs : List ℕ) (fuel : ℕ) → length (x ∷ xs) ≤ suc fuel → length (drop 9 (x ∷ xs)) ≤ fuel
unfolding drop
rest_short x xs fuel h = omega (arith, length-drop 8 xs)

parse_chunks-read :
    (fuel v : ℕ) (xs : List ℕ) → length xs ≤ fuel → parse_chunks fuel v xs ≡ read_digits v xs
unfolding parse_chunks read_digits
parse_chunks-read fuel v [] h = refl
parse_chunks-read zero v (x ∷ xs) h = absurd (omega arith)
parse_chunks-read (suc fuel) v (x ∷ xs) h =
    let chunk = take 9 (x ∷ xs) in
    let rest = drop 9 (x ∷ xs) in
    let short : length rest ≤ fuel = rest_short x xs fuel h in
    parse_chunks-read fuel _ rest short
    ∙ (ap (λ w. read_digits w rest) (sym (read_digits-shift v chunk))
        ∙ (sym (read_digits-append v chunk rest) ∙ ap (read_digits v) (take-drop 9 (x ∷ xs))))

-- For digits of any length, the value that `_parse_unbounded_decimal_digits` puts together from chunks
-- of nine digits is the value of the digits read one by one.
pub parse_unbounded_decimal_digits-read_digits :
    (digits : List ℕ) → parse_unbounded_decimal_digits digits ≡ read_digits 0 digits
unfolding parse_unbounded_decimal_digits
parse_unbounded_decimal_digits-read_digits digits =
    parse_chunks-read (length digits) 0 digits (omega arith)

-- `n` without its last `k` digits
abbrev shift : ℕ → ℕ → ℕ
shift zero n = n
shift (suc k) n = shift k (n / 10)

digit_back : (n : ℕ) → n / 10 * 10 + (b'0' + n % 10 - b'0') ≡ n
digit_back n = omega arith

padded-read : (k n : ℕ) → read_digits (shift k n) (padded k n) ≡ n
unfolding padded read_digits
padded-read zero n = refl
padded-read (suc k) n =
    read_digits-append (shift k (n / 10)) (padded k (n / 10)) ((b'0' + n % 10) ∷ [])
    ∙ (ap (λ (v : ℕ). v * 10 + (b'0' + n % 10 - b'0')) (padded-read k (n / 10)) ∙ digit_back n)

pub str_loop-read :
    (fuel n : ℕ) (behind : List ℕ)
    → n < fuel
    → read_digits 0 (str_loop fuel n behind) ≡ read_digits n behind
unfolding str_loop read_digits
str_loop-read zero n behind h = absurd (omega arith)
str_loop-read (suc fuel) n behind h = elim (Bool-cases (ltb n 10)) [
  | inl small ↦ rw small (ap (λ v. read_digits v behind) (omega arith))
  | inr large ↦
      let not_small : 10 ≤ n = ground arith in
      rw large (
        str_loop-read fuel (n / 10) ((b'0' + n % 10) ∷ behind) (omega arith)
        ∙ ap (λ v. read_digits v behind) (digit_back n))
]

str-read : (n : ℕ) (behind : List ℕ) → read_digits 0 (str n ++ behind) ≡ read_digits n behind
unfolding str read_digits
str-read n behind =
    read_digits-append 0 (str n) behind
    ∙ ap (λ v. read_digits v behind) (str_loop-read (suc n) n [] (omega arith))

shift_nine : (n : ℕ) → shift 9 n ≡ n / 1_000_000_000
shift_nine n = omega arith

render_chunks-read :
    (fuel n : ℕ) (behind : List ℕ)
    → n < fuel
    → read_digits 0 (render_chunks fuel n behind) ≡ read_digits n behind
unfolding render_chunks
render_chunks-read zero n behind h = absurd (omega arith)
render_chunks-read (suc fuel) n behind h = elim (Bool-cases (ltb n 1_000_000_000)) [
  | inl small ↦ rw small (str-read n behind)
  | inr large ↦
      let not_small : 1_000_000_000 ≤ n = ground arith in
      rw large (
        render_chunks-read fuel (n / 1_000_000_000) (padded 9 n ++ behind) (omega arith)
        ∙ (read_digits-append (n / 1_000_000_000) (padded 9 n) behind
            ∙ ap (λ v. read_digits v behind)
                (ap (λ w. read_digits w (padded 9 n)) (sym (shift_nine n)) ∙ padded-read 9 n)))
]

-- The digits that `_render_unbounded_decimal_digits` writes for a number, of any size, are read back as
-- that number: no round of its loop is missing.
pub parse-render : (n : ℕ) → parse_unbounded_decimal_digits (render_unbounded_decimal_digits n) ≡ n
unfolding render_unbounded_decimal_digits read_digits
parse-render n =
    parse_unbounded_decimal_digits-read_digits (render_unbounded_decimal_digits n)
    ∙ render_chunks-read (suc n) n [] (omega arith)
