-- ===== src/Canonical/Clear.antt =====
-- The normalized values of src/fieldtrue/canonical.py whose texts are Unicode texts and whose floats
-- are written as Python writes a finite float.
use inbar.Prelude.{ℕ, List, [], ◌∷◌, ◌≡◌, refl, Bool, true, ◌&&◌, Bool-cases, inl, inr, arith}
use inbar.Sorting.{codes_less}
use inbar.Canonical.{
  Normal, null, boolean, integer, float, text, array, object, Items, nil, cons, Fields, end, field,
}
use inbar.Canonical.Encode.{insert_field, in_key_order, items_in_order, fields_in_order}
use inbar.Canonical.Read.{is_numeric, has_point}
use inbar.Canonical.Unescape.{is_scalar}

-- Without a surrogate
unfoldable pub is_unicode : List ℕ → Bool
is_unicode [] = true
is_unicode (c ∷ cs) = is_scalar c && is_unicode cs

unfoldable pub are_numeric : List ℕ → Bool
are_numeric [] = true
are_numeric (c ∷ cs) = is_numeric c && are_numeric cs

-- The `repr` of a finite float has a point or an exponent.
unfoldable mutual
  unfolding is_unicode are_numeric has_point

  pub is_clear : Normal → Bool
  is_clear null = true
  is_clear (boolean b) = true
  is_clear (integer i) = true
  is_clear (float r) = are_numeric r && has_point r
  is_clear (text t) = is_unicode t
  is_clear (array xs) = are_clear xs
  is_clear (object fs) = have_clear fs

  pub are_clear : Items → Bool
  are_clear nil = true
  are_clear (cons x xs) = is_clear x && are_clear xs

  pub have_clear : Fields → Bool
  have_clear end = true
  have_clear (field k v fs) = is_unicode k && is_clear v && have_clear fs

insert_field-have_clear :
    (k : List ℕ) (v : Normal) (fs : Fields)
    → is_unicode k ≡ true
    → is_clear v ≡ true
    → have_clear fs ≡ true
    → have_clear (insert_field k v fs) ≡ true
unfolding is_clear insert_field
insert_field-have_clear k v end h i j = rw (h, i) refl
insert_field-have_clear k v (field l w fs) h i j =
    let behind : have_clear fs ≡ true = ground arith in
    let first : is_unicode l ≡ true = ground arith in
    let clear : is_clear w ≡ true = ground arith in
    elim (Bool-cases (codes_less l k)) [
      | inl before ↦ rw (before, first, clear) (insert_field-have_clear k v fs h i behind)
      | inr after ↦ rw (after, h, i) j
    ]

-- The order of the keys does not matter to it.
mutual
  unfolding is_clear in_key_order

  pub in_key_order-is_clear : (v : Normal) → is_clear v ≡ true → is_clear (in_key_order v) ≡ true
  in_key_order-is_clear null h = refl
  in_key_order-is_clear (boolean b) h = refl
  in_key_order-is_clear (integer i) h = refl
  in_key_order-is_clear (float r) h = h
  in_key_order-is_clear (text t) h = h
  in_key_order-is_clear (array xs) h = items_in_order-are_clear xs h
  in_key_order-is_clear (object fs) h = fields_in_order-have_clear fs h

  items_in_order-are_clear :
      (xs : Items) → are_clear xs ≡ true → are_clear (items_in_order xs) ≡ true
  items_in_order-are_clear nil h = refl
  items_in_order-are_clear (cons x xs) h =
      rw (in_key_order-is_clear x (ground arith)) (items_in_order-are_clear xs (ground arith))

  fields_in_order-have_clear :
      (fs : Fields) → have_clear fs ≡ true → have_clear (fields_in_order fs) ≡ true
  fields_in_order-have_clear end h = refl
  fields_in_order-have_clear (field k v fs) h =
      insert_field-have_clear k (in_key_order v) (fields_in_order fs) (ground arith)
        (in_key_order-is_clear v (ground arith)) (fields_in_order-have_clear fs (ground arith))
