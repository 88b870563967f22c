-- ===== src/Canonical/Inverse.antt =====
-- What `json.dumps` writes for a normalized value of src/fieldtrue/canonical.py, read back.
use mathlib.Core.List.{append_assoc}
use inbar.Prelude.{
  ℕ, zero, suc, ◌+◌, ◌<◌, List, [], ◌∷◌, ◌++◌, ◌≡◌, refl, sym, ap, ◌∙◌, arith, length, Bool, true,
  false, ◌==◌, ok, subst,
}
use inbar.Canonical.{
  Normal, null, boolean, integer, float, text, array, object, Items, nil, cons, Fields, end, field,
}
use inbar.Canonical.Text.{escape_all}
use inbar.Canonical.Encode.{encode_integer, separator, encode, encode_items, encode_fields}
use inbar.Canonical.Read.{read_text, has_point, read_number, parse_value, parse_items, parse_fields}
use inbar.Canonical.Digits.{Starts}
use inbar.Canonical.Clear.{are_numeric, is_clear, are_clear, have_clear}
use inbar.Canonical.RoundTrip.{
  stops, read_text-encode_text, parse_value-number, parse_value-integer, encode_integer-Starts,
  encode_integer-are_numeric,
}

-- More than the steps that reading a value back takes
mutual
  pub size : Normal → ℕ
  size null = 0
  size (boolean b) = 0
  size (integer i) = 0
  size (float r) = 0
  size (text t) = 1 + length t
  size (array xs) = 1 + items_size xs
  size (object fs) = 1 + fields_size fs

  items_size : Items → ℕ
  items_size nil = 0
  items_size (cons x xs) = 1 + size x + items_size xs

  fields_size : Fields → ℕ
  fields_size end = 0
  fields_size (field k v fs) = 1 + length k + size v + fields_size fs

parse_items-next :
    (f : ℕ) (cs : List ℕ) {behind rest : List ℕ} {x : Normal} {xs : Items}
    → parse_value f cs ≡ ok (x, behind)
    → parse_items f false behind ≡ ok (xs, rest)
    → parse_items (suc f) false (b',' ∷ cs) ≡ ok (cons x xs, rest)
unfolding parse_items
parse_items-next f cs h i = rw (h, i) refl

parse_items-first :
    (f d : ℕ) (cs : List ℕ) {behind rest : List ℕ} {x : Normal} {xs : Items}
    → (d == b']') ≡ false
    → parse_value f (d ∷ cs) ≡ ok (x, behind)
    → parse_items f false behind ≡ ok (xs, rest)
    → parse_items (suc f) true (d ∷ cs) ≡ ok (cons x xs, rest)
unfolding parse_items
parse_items-first f d cs begins h i = rw (begins, h, i) refl

parse_fields-next :
    (f : ℕ) (first : Bool) (cs at_value : List ℕ) {behind rest k : List ℕ} {v : Normal}
    {fs : Fields}
    → read_text f cs ≡ ok (k, b':' ∷ at_value)
    → parse_value f at_value ≡ ok (v, behind)
    → parse_fields f false behind ≡ ok (fs, rest)
    → parse_fields (suc f) first (separator first ++ (b'"' ∷ cs)) ≡ ok (field k v fs, rest)
unfolding parse_fields
parse_fields-next f true cs at_value h i j = rw (h, i, j) refl
parse_fields-next f false cs at_value h i j = rw (h, i, j) refl

-- No value starts with the bracket that ends a list.
abbrev Opens : List ℕ → Type 0
Opens cs = (d : ℕ) × (ds : List ℕ) × (cs ≡ d ∷ ds) × ((d == b']') ≡ false)

numeric-Opens : (cs : List ℕ) → Starts cs → are_numeric cs ≡ true → Opens cs
unfolding are_numeric
numeric-Opens [] (d, ds, e) h = cc e
numeric-Opens (c ∷ cs) s h = (c, cs, refl, ground arith)

float-Starts : (r : List ℕ) → has_point r ≡ true → Starts r
unfolding has_point
float-Starts [] h = absurd (cc h)
float-Starts (c ∷ cs) h = (c, cs, refl)

encode-Opens : (v : Normal) → is_clear v ≡ true → Opens (encode v)
unfolding encode is_clear encode_integer has_point
encode-Opens null h = (_, _, refl, refl)
encode-Opens (boolean true) h = (_, _, refl, refl)
encode-Opens (boolean false) h = (_, _, refl, refl)
encode-Opens (integer i) h =
    numeric-Opens (encode_integer i) (encode_integer-Starts i) (encode_integer-are_numeric i)
encode-Opens (float r) h = numeric-Opens r (float-Starts r (ground arith)) (ground arith)
encode-Opens (text t) h = (_, _, refl, refl)
encode-Opens (array xs) h = (_, _, refl, refl)
encode-Opens (object fs) h = (_, _, refl, refl)

parse_value-float :
    (f : ℕ) (r rest : List ℕ)
    → are_numeric r ≡ true
    → has_point r ≡ true
    → stops rest ≡ true
    → parse_value (suc f) (r ++ rest) ≡ ok (float r, rest)
unfolding read_number
parse_value-float f r rest h i j = parse_value-number f r rest (float-Starts r i) h j ∙ rw i refl

items_stop : (xs : Items) (rest : List ℕ) → stops (encode_items false xs ++ rest) ≡ true
unfolding encode
items_stop nil rest = refl
items_stop (cons x xs) rest = refl

fields_stop : (fs : Fields) (rest : List ℕ) → stops (encode_fields false fs ++ rest) ≡ true
unfolding encode
fields_stop end rest = refl
fields_stop (field k v fs) rest = refl

parse_items-encode :
    (f : ℕ) (cs ys : List ℕ) {behind rest : List ℕ} {x : Normal} {xs : Items}
    → Opens cs
    → parse_value f (cs ++ ys) ≡ ok (x, behind)
    → parse_items f false behind ≡ ok (xs, rest)
    → parse_items (suc f) true (cs ++ ys) ≡ ok (cons x xs, rest)
parse_items-encode f [] ys (d, ds, e, begins) h i = cc e
parse_items-encode f (c ∷ cs) ys (d, ds, e, begins) h i =
    let same : c ≡ d = cc e in parse_items-first f c (cs ++ ys) (rw same begins) h i

field_assoc :
    (a b value_text behind rest : List ℕ)
    → (a ++ (b'"' ∷ (b ++ (b':' ∷ (value_text ++ behind))))) ++ rest
      ≡ a ++ (b'"' ∷ (b ++ (b':' ∷ (value_text ++ (behind ++ rest)))))
field_assoc a b value_text behind rest =
    append_assoc a (b'"' ∷ (b ++ (b':' ∷ (value_text ++ behind)))) rest
    ∙ ap (λ xs. a ++ (b'"' ∷ xs))
        (append_assoc b (b':' ∷ (value_text ++ behind)) rest
          ∙ ap (λ xs. b ++ (b':' ∷ xs)) (append_assoc value_text behind rest))

mutual
  unfolding encode is_clear size parse_value

  -- A value is read back from what is written for it, whatever stands behind it that is no part of a
  -- number.
  pub parse_value-encode :
      (f : ℕ) (v : Normal) (rest : List ℕ)
      → is_clear v ≡ true
      → stops rest ≡ true
      → size v < f
      → parse_value f (encode v ++ rest) ≡ ok (v, rest)
  parse_value-encode zero v rest h i j = absurd (omega arith)
  parse_value-encode (suc f) null rest h i j = refl
  parse_value-encode (suc f) (boolean true) rest h i j = refl
  parse_value-encode (suc f) (boolean false) rest h i j = refl
  parse_value-encode (suc f) (integer n) rest h i j = parse_value-integer f n rest i
  parse_value-encode (suc f) (float r) rest h i j =
      parse_value-float f r rest (ground arith) (ground arith) i
  parse_value-encode (suc f) (text t) rest h i j =
      rw (read_text-encode_text f t rest h (omega arith)) refl
  parse_value-encode (suc f) (array xs) rest h i j =
      rw (parse_items-encode_items f true xs rest h (omega arith)) refl
  parse_value-encode (suc f) (object fs) rest h i j =
      rw (parse_fields-encode_fields f true fs rest h (omega arith)) refl

  parse_items-encode_items :
      (f : ℕ) (first : Bool) (xs : Items) (rest : List ℕ)
      → are_clear xs ≡ true
      → items_size xs < f
      → parse_items f first (encode_items first xs ++ rest) ≡ ok (xs, rest)
  parse_items-encode_items zero first xs rest h j = absurd (omega arith)
  parse_items-encode_items (suc f) first nil rest h j = refl
  parse_items-encode_items (suc f) true (cons x xs) rest h j =
      subst (λ cs. parse_items (suc f) true cs ≡ ok (cons x xs, rest))
        (sym (append_assoc (encode x) (encode_items false xs) rest))
        (parse_items-encode f (encode x) _ (encode-Opens x (ground arith))
          (parse_value-encode f x _ (ground arith) (items_stop xs rest) (omega arith))
          (parse_items-encode_items f false xs rest (ground arith) (omega arith)))
  parse_items-encode_items (suc f) false (cons x xs) rest h j =
      subst (λ cs. parse_items (suc f) false (b',' ∷ cs) ≡ ok (cons x xs, rest))
        (sym (append_assoc (encode x) (encode_items false xs) rest))
        (parse_items-next f _
          (parse_value-encode f x _ (ground arith) (items_stop xs rest) (omega arith))
          (parse_items-encode_items f false xs rest (ground arith) (omega arith)))

  parse_fields-encode_fields :
      (f : ℕ) (first : Bool) (fs : Fields) (rest : List ℕ)
      → have_clear fs ≡ true
      → fields_size fs < f
      → parse_fields f first (encode_fields first fs ++ rest) ≡ ok (fs, rest)
  parse_fields-encode_fields zero first fs rest h j = absurd (omega arith)
  parse_fields-encode_fields (suc f) first end rest h j = refl
  parse_fields-encode_fields (suc f) first (field k v fs) rest h j =
      subst (λ cs. parse_fields (suc f) first cs ≡ ok (field k v fs, rest))
        (sym (
          field_assoc (separator first) (escape_all k ++ b'"' ∷ []) (encode v)
            (encode_fields false fs) rest))
        (parse_fields-next f first _ _ (read_text-encode_text f k _ (ground arith) (omega arith))
          (parse_value-encode f v _ (ground arith) (fields_stop fs rest) (omega arith))
          (parse_fields-encode_fields f false fs rest (ground arith) (omega arith)))
