-- ===== src/Canonical/Injective.antt =====
-- `canonical_json` of src/fieldtrue/canonical.py, taken back.
use mathlib.Core.List.{append-nil}
use inbar.Prelude.{ℕ, suc, ◌+◌, ◌<◌, List, [], ◌≡◌, refl, ap, arith, true, ok, subst, bind-eq-ok}
use inbar.Canonical.{Normal, Value}
use inbar.Canonical.Encode.{in_key_order, encode, dumps, normalize, canonical_json}
use inbar.Canonical.Read.{parse_value}
use inbar.Canonical.Clear.{is_clear, in_key_order-is_clear}
use inbar.Canonical.Inverse.{size, parse_value-encode}

parse_value-dumps :
    (f : ℕ) (j : Normal)
    → is_clear j ≡ true
    → size (in_key_order j) < f
    → parse_value f (dumps j) ≡ ok (in_key_order j, [])
unfolding dumps
parse_value-dumps f j h i =
    subst (λ cs. parse_value f cs ≡ ok (in_key_order j, [])) (append-nil (encode (in_key_order j)))
      (parse_value-encode f (in_key_order j) [] (in_key_order-is_clear j h) refl i)

pub dumps-injective :
    (j k : Normal)
    → is_clear j ≡ true
    → is_clear k ≡ true
    → dumps j ≡ dumps k
    → in_key_order j ≡ in_key_order k
dumps-injective j k h i e =
    let fuel = suc (size (in_key_order j) + size (in_key_order k)) in
    let left = parse_value-dumps fuel j h (omega arith) in
    let right = parse_value-dumps fuel k i (omega arith) in
    cc (left, right, ap (parse_value fuel) e)

pub canonical_json-dumps :
    (v : Value) (j : Normal) → normalize v ≡ ok j → canonical_json v ≡ ok (dumps j)
unfolding canonical_json
canonical_json-dumps v j h = rw h refl

pub canonical_json-inverse :
    (v : Value) {bytes : List ℕ}
    → canonical_json v ≡ ok bytes
    → (j : Normal) × (normalize v ≡ ok j) × (dumps j ≡ bytes)
unfolding canonical_json
canonical_json-inverse v h =
    let (j, n, written) = bind-eq-ok (normalize v) (λ j. ok (dumps j)) h in (j, n, cc written)

-- Two values with the same canonical JSON have the same normalized value, up to the order of the keys
-- in their objects, when the normalized values hold no text with a surrogate and only floats that are
-- written with a point or an exponent.
pub canonical_json-injective :
    (v w : Value) (j k : Normal)
    → normalize v ≡ ok j
    → normalize w ≡ ok k
    → is_clear j ≡ true
    → is_clear k ≡ true
    → canonical_json v ≡ canonical_json w
    → in_key_order j ≡ in_key_order k
canonical_json-injective v w j k n m h i e =
    dumps-injective j k h i (cc (canonical_json-dumps v j n, canonical_json-dumps w k m, e))
