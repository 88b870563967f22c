-- ===== src/Canonical/RoundTrip.antt =====
-- What `canonical_json` of src/fieldtrue/canonical.py writes, read back.
use mathlib.Core.List.{append_assoc}
use inbar.Prelude.{
  ℕ, zero, suc, ◌<◌, List, [], ◌∷◌, ◌++◌, ◌≡◌, refl, sym, ap, ◌∙◌, arith, length, Bool, true, false,
  not, ◌==◌, ok, subst,
}
use inbar.Domain.{ℤ, pos, negsuc}
use inbar.Tree.Decimal.{str, read_digits}
use inbar.Canonical.{integer}
use inbar.Canonical.Text.{escape, escape_all}
use inbar.Canonical.Encode.{encode_integer}
use inbar.Canonical.Read.{
  unescape, read_text, is_digit, is_numeric, number_front, number_back, has_point, negative,
  read_integer, read_number, kind, number_kind, parse_value,
}
use inbar.Canonical.Digits.{are_digits, str-are_digits, str-value, str-Starts, Starts}
use inbar.Canonical.Unescape.{is_scalar, unescape-escape, escape-Unquoted}
use inbar.Canonical.Clear.{is_unicode, are_numeric}

-- Texts

read_text-cons :
    (f d : ℕ) {c : ℕ} (cs : List ℕ) {behind t rest : List ℕ}
    → (d == b'"') ≡ false
    → unescape (d ∷ cs) ≡ ok (c, behind)
    → read_text f behind ≡ ok (t, rest)
    → read_text (suc f) (d ∷ cs) ≡ ok (c ∷ t, rest)
unfolding read_text
read_text-cons f d cs h i j = rw (h, i, j) refl

read_text-escape :
    (f c : ℕ) (cs : List ℕ) {t rest : List ℕ}
    → is_scalar c ≡ true
    → read_text f cs ≡ ok (t, rest)
    → read_text (suc f) (escape c ++ cs) ≡ ok (c ∷ t, rest)
read_text-escape f c cs {t} {rest} h i =
    let (d, ds, e, unquoted) = escape-Unquoted c in
    subst (λ xs. read_text (suc f) (xs ++ cs) ≡ ok (c ∷ t, rest)) (sym e)
      (read_text-cons f d (ds ++ cs) unquoted
        (subst (λ xs. unescape (xs ++ cs) ≡ ok (c, cs)) e (unescape-escape c cs h)) i)

read_text-escape_all :
    (f : ℕ) (t rest : List ℕ)
    → is_unicode t ≡ true
    → length t < f
    → read_text f (escape_all t ++ b'"' ∷ rest) ≡ ok (t, rest)
unfolding read_text escape_all is_unicode
read_text-escape_all zero t rest h i = absurd (omega arith)
read_text-escape_all (suc f) [] rest h i = refl
read_text-escape_all (suc f) (c ∷ cs) rest h i =
    subst (λ xs. read_text (suc f) xs ≡ ok (c ∷ cs, rest))
      (sym (append_assoc (escape c) (escape_all cs) (b'"' ∷ rest)))
      (read_text-escape f c _ (ground arith)
        (read_text-escape_all f cs rest (ground arith) (omega arith)))

pub read_text-encode_text :
    (f : ℕ) (t rest : List ℕ)
    → is_unicode t ≡ true
    → length t < f
    → read_text f ((escape_all t ++ b'"' ∷ []) ++ rest) ≡ ok (t, rest)
read_text-encode_text f t rest h i =
    subst (λ xs. read_text f xs ≡ ok (t, rest)) (sym (append_assoc (escape_all t) (b'"' ∷ []) rest))
      (read_text-escape_all f t rest h i)

-- Numbers

-- What may stand behind a number
abbrev pub stops : List ℕ → Bool
stops [] = true
stops (c ∷ cs) = not (is_numeric c)

number_front-append :
    (ds rest : List ℕ) → are_numeric ds ≡ true → stops rest ≡ true → number_front (ds ++ rest) ≡ ds
unfolding number_front are_numeric
number_front-append [] [] h i = refl
number_front-append [] (c ∷ cs) h i = ground arith
number_front-append (d ∷ ds) rest h i =
    let first : is_numeric d ≡ true = ground arith in
    rw (first, number_front-append ds rest (ground arith) i) refl

number_back-append :
    (ds rest : List ℕ) → are_numeric ds ≡ true → stops rest ≡ true → number_back (ds ++ rest) ≡ rest
unfolding number_back are_numeric
number_back-append [] [] h i = refl
number_back-append [] (c ∷ cs) h i = ground arith
number_back-append (d ∷ ds) rest h i =
    let first : is_numeric d ≡ true = ground arith in
    rw (first, number_back-append ds rest (ground arith) i) refl

kind-numeric : (c : ℕ) → is_numeric c ≡ true → kind c ≡ number_kind
unfolding kind
kind-numeric c h = rw h refl

parse_value-numeric :
    (f c : ℕ) (cs : List ℕ)
    → is_numeric c ≡ true
    → parse_value (suc f) (c ∷ cs) ≡ ok (read_number (number_front (c ∷ cs)), number_back (c ∷ cs))
unfolding parse_value
parse_value-numeric f c cs h = rw (kind-numeric c h) refl

pub parse_value-number :
    (f : ℕ) (ds rest : List ℕ)
    → Starts ds
    → are_numeric ds ≡ true
    → stops rest ≡ true
    → parse_value (suc f) (ds ++ rest) ≡ ok (read_number ds, rest)
unfolding are_numeric
parse_value-number f [] rest (d, ds, e) h i = cc e
parse_value-number f (d ∷ ds) rest s h i =
    parse_value-numeric f d (ds ++ rest) (ground arith)
    ∙ (ap (λ ns. ok (read_number ns, number_back (d ∷ ds ++ rest)))
          (number_front-append (d ∷ ds) rest h i)
        ∙ ap (λ r. ok (read_number (d ∷ ds), r)) (number_back-append (d ∷ ds) rest h i))

digits_are_numeric :
    (ds : List ℕ) → are_digits ds ≡ true → (are_numeric ds ≡ true) × (has_point ds ≡ false)
unfolding are_numeric has_point
digits_are_numeric [] h = (refl, refl)
digits_are_numeric (d ∷ ds) h =
    let (numeric, whole) = digits_are_numeric ds (ground arith) in
    let digit : is_digit d ≡ true = ground arith in (ground arith, ground arith)

read_number-digits :
    (ds : List ℕ) → are_digits ds ≡ true → read_number ds ≡ integer (pos (read_digits 0 ds))
unfolding read_number read_integer read_digits has_point
read_number-digits [] h = refl
read_number-digits (d ∷ ds) h =
    let sign : (d == b'-') ≡ false = ground arith in
    rw ((digits_are_numeric (d ∷ ds) h).1, sign) refl

read_number-negative :
    (ds : List ℕ)
    → are_digits ds ≡ true
    → read_number (b'-' ∷ ds) ≡ integer (negative (read_digits 0 ds))
unfolding read_number read_integer has_point
read_number-negative ds h = rw (digits_are_numeric ds h).1 refl

pub encode_integer-are_numeric : (i : ℤ) → are_numeric (encode_integer i) ≡ true
unfolding encode_integer are_numeric
encode_integer-are_numeric (pos n) = (digits_are_numeric (str n) (str-are_digits n)).0
encode_integer-are_numeric (negsuc n) =
    (digits_are_numeric (str (suc n)) (str-are_digits (suc n))).0

pub encode_integer-Starts : (i : ℤ) → Starts (encode_integer i)
unfolding encode_integer
encode_integer-Starts (pos n) = str-Starts n
encode_integer-Starts (negsuc n) = (_, _, refl)

read_number-encode_integer : (i : ℤ) → read_number (encode_integer i) ≡ integer i
unfolding encode_integer
read_number-encode_integer (pos n) =
    read_number-digits (str n) (str-are_digits n) ∙ ap (λ (m : ℕ). integer (pos m)) (str-value n)
read_number-encode_integer (negsuc n) =
    read_number-negative (str (suc n)) (str-are_digits (suc n))
    ∙ ap (λ (m : ℕ). integer (negative m)) (str-value (suc n))

pub parse_value-integer :
    (f : ℕ) (i : ℤ) (rest : List ℕ)
    → stops rest ≡ true
    → parse_value (suc f) (encode_integer i ++ rest) ≡ ok (integer i, rest)
parse_value-integer f i rest h =
    parse_value-number f (encode_integer i) rest (encode_integer-Starts i)
      (encode_integer-are_numeric i) h
    ∙ ap (λ v. ok (v, rest)) (read_number-encode_integer i)
