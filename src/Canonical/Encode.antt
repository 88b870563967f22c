-- ===== src/Canonical/Encode.antt =====
-- `_normalize` and `canonical_json` of src/fieldtrue/canonical.py.
use inbar.Prelude.{
  ℕ, suc, List, [], ◌∷◌, ◌++◌, Bool, true, false, if◌then◌else◌, codes, Result, ok, err, ◌>>=◌,
}
use inbar.Domain.{ℤ, pos, negsuc}
use inbar.Sorting.{codes_less}
use inbar.Tree.Decimal.{str}
use inbar.Canonical.{
  Normal, null, boolean, integer, float, text, array, object, Items, nil, cons, Fields, end, field,
  text_key, other_key, Value, model, enum, path, datetime, date, decimal, float_value, none_value,
  text_value, integer_value, boolean_value, raw_bytes, mapping, set_value, sequence, unsupported,
  Values, no_values, value, Entries, no_entries, entry, CanonicalizationError, naive_datetime,
  infinite_decimal, infinite_float, bytes_without_encoding, key_not_text, unsupported_type,
}
use inbar.Canonical.Text.{encode_text}

-- Behind the fields whose keys are not greater: `sort_keys`.
unfoldable pub insert_field : List ℕ → Normal → Fields → Fields
insert_field k v end = field k v end
insert_field k v (field l w fs) =
    let rest = insert_field k v fs in
    if codes_less l k then field l w rest else field k v (field l w fs)

-- Every object with its fields in the order of their keys.
unfoldable mutual
  unfolding insert_field

  pub in_key_order : Normal → Normal
  in_key_order null = null
  in_key_order (boolean b) = boolean b
  in_key_order (integer i) = integer i
  in_key_order (float r) = float r
  in_key_order (text t) = text t
  in_key_order (array xs) = array (items_in_order xs)
  in_key_order (object fs) = object (fields_in_order fs)

  pub items_in_order : Items → Items
  items_in_order nil = nil
  items_in_order (cons x xs) = cons (in_key_order x) (items_in_order xs)

  pub fields_in_order : Fields → Fields
  fields_in_order end = end
  fields_in_order (field k v fs) = insert_field k (in_key_order v) (fields_in_order fs)

-- Python's limit on the digits of an `int` is not modelled.
unfoldable pub encode_integer : ℤ → List ℕ
unfolding str
encode_integer (pos n) = str n
encode_integer (negsuc n) = b'-' ∷ str (suc n)

abbrev pub separator : Bool → List ℕ
separator true = []
separator false = b',' ∷ []

-- Without whitespace, in the order given; the Boolean tells whether no element is written yet.
unfoldable mutual
  unfolding encode_integer encode_text

  pub encode : Normal → List ℕ
  encode null = codes "null"
  encode (boolean true) = codes "true"
  encode (boolean false) = codes "false"
  encode (integer i) = encode_integer i
  encode (float r) = r
  encode (text t) = encode_text t
  encode (array xs) = b'[' ∷ encode_items true xs
  encode (object fs) = b'{' ∷ encode_fields true fs

  pub encode_items : Bool → Items → List ℕ
  encode_items first nil = b']' ∷ []
  encode_items first (cons x xs) = separator first ++ (encode x ++ encode_items false xs)

  pub encode_fields : Bool → Fields → List ℕ
  encode_fields first end = b'}' ∷ []
  encode_fields first (field k v fs) =
      separator first ++ (encode_text k ++ (b':' ∷ encode v ++ encode_fields false fs))

-- `json.dumps` with sorted keys
unfoldable pub dumps : Normal → List ℕ
unfolding in_key_order encode
dumps j = encode (in_key_order j)

-- A normalized item is left alone by a second normalization, so its text is that of itself.
unfoldable pub insert_item : Normal → Items → Items
unfolding dumps
insert_item x nil = cons x nil
insert_item x (cons y ys) =
    let rest = insert_item x ys in
    if codes_less (dumps x) (dumps y) then cons x (cons y ys) else cons y rest

-- `sorted(items, key=canonical_json)`
unfoldable pub sort_items : Items → Items → Items
unfolding insert_item
sort_items sorted nil = sorted
sort_items sorted (cons x xs) = sort_items (insert_item x sorted) xs

-- `normalized[key] = item`, the keys of a mapping being distinct.
unfoldable mutual
  unfolding sort_items

  pub normalize : Value → Result CanonicalizationError Normal
  normalize (model v) = normalize v
  normalize (enum v) = normalize v
  normalize (path t) = ok (text t)
  normalize (datetime true t) = ok (text (t ++ b'Z' ∷ []))
  normalize (datetime false t) = err naive_datetime
  normalize (date t) = ok (text t)
  normalize (decimal true t) = ok (text t)
  normalize (decimal false t) = err infinite_decimal
  normalize (float_value true r) = ok (float r)
  normalize (float_value false r) = err infinite_float
  normalize none_value = ok null
  normalize (text_value t) = ok (text t)
  normalize (integer_value i) = ok (integer i)
  normalize (boolean_value b) = ok (boolean b)
  normalize raw_bytes = err bytes_without_encoding
  normalize (mapping es) = do fs ← normalize_entries es; ok (object fs)
  normalize (set_value vs) = do xs ← normalize_values vs; ok (array (sort_items nil xs))
  normalize (sequence vs) = do xs ← normalize_values vs; ok (array xs)
  normalize unsupported = err unsupported_type

  pub normalize_values : Values → Result CanonicalizationError Items
  normalize_values no_values = ok nil
  normalize_values (value v vs) = do x ← normalize v; xs ← normalize_values vs; ok (cons x xs)

  pub normalize_entries : Entries → Result CanonicalizationError Fields
  normalize_entries no_entries = ok end
  normalize_entries (entry other_key v es) = err key_not_text
  normalize_entries (entry (text_key k) v es) = do
    x ← normalize v
    fs ← normalize_entries es
    ok (field k x fs)

unfoldable pub canonical_json : Value → Result CanonicalizationError (List ℕ)
unfolding normalize dumps
canonical_json v = do j ← normalize v; ok (dumps j)
