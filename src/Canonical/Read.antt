-- ===== src/Canonical/Read.antt =====
-- A reader of compact JSON, for the proofs about src/fieldtrue/canonical.py: it is the inverse that shows
-- that no two values are written alike.
use inbar.Prelude.{
  ℕ, zero, suc, ◌+◌, ◌-◌, ◌*◌, List, [], ◌∷◌, ◌++◌, Bool, true, false, ◌&&◌, ◌||◌, leb, ltb, ◌==◌,
  if◌then◌else◌, Result, ok, err, ◌>>=◌,
}
use inbar.Domain.{ℤ, pos, negsuc}
use inbar.Tree.Decimal.{read_digits}
use inbar.Canonical.{
  Normal, null, boolean, integer, float, text, array, object, Items, nil, cons, Fields, end, field,
}

pub data ReadError : Type 0 where
  not_json : ReadError

abbrev pub unhex : ℕ → ℕ
unhex c = if ltb c b'a' then c - b'0' else 10 + (c - b'a')

-- Four hexadecimal digits
unfoldable pub code_unit : List ℕ → Result ReadError (ℕ × List ℕ)
code_unit [] = err not_json
code_unit (_ ∷ []) = err not_json
code_unit (_ ∷ _ ∷ []) = err not_json
code_unit (_ ∷ _ ∷ _ ∷ []) = err not_json
code_unit (a ∷ b ∷ c ∷ d ∷ cs) = ok (unhex a * 4096 + unhex b * 256 + unhex c * 16 + unhex d, cs)

abbrev pub is_high : ℕ → Bool
is_high c = leb 0xd800 c && ltb c 0xdc00

abbrev pub skip_two : List ℕ → List ℕ
skip_two [] = []
skip_two (_ ∷ []) = []
skip_two (_ ∷ _ ∷ cs) = cs

unfoldable pub surrogate_pair : ℕ → List ℕ → Result ReadError (ℕ × List ℕ)
unfolding code_unit
surrogate_pair high cs = do
  (low, rest) ← code_unit (skip_two cs)
  ok (0x10000 + (high - 0xd800) * 0x400 + (low - 0xdc00), rest)

-- A high surrogate stands with the low one behind it.
unfoldable pub complete : ℕ → List ℕ → Result ReadError (ℕ × List ℕ)
unfolding surrogate_pair
complete high cs = if is_high high then surrogate_pair high cs else ok (high, cs)

-- What a short escape stands for
abbrev pub meant : ℕ → ℕ
meant k =
    if k == b'n'
    then 10
    else (if k == b'r'
        then 13
        else (if k == b't' then 9 else (if k == b'f' then 12 else (if k == b'b' then 8 else k))))

unfoldable pub unicode : List ℕ → Result ReadError (ℕ × List ℕ)
unfolding complete
unicode cs = do (unit, rest) ← code_unit cs; complete unit rest

unfoldable pub escaped : List ℕ → Result ReadError (ℕ × List ℕ)
unfolding unicode
escaped [] = err not_json
escaped (k ∷ cs) = if k == b'u' then unicode cs else ok (meant k, cs)

unfoldable pub unescape : List ℕ → Result ReadError (ℕ × List ℕ)
unfolding escaped
unescape [] = err not_json
unescape (c ∷ cs) = if c == b'\\' then escaped cs else ok (c, cs)

-- What `read_text` gives, the first character being a quote or not
unfoldable pub close :
    {A : Type 0} → Bool → A → List ℕ → Result ReadError (A × List ℕ) → Result ReadError (A × List ℕ)
close true empty cs more = ok (empty, cs)
close false empty cs more = more

-- What stands behind the quote, up to the next one
unfoldable pub read_text : ℕ → List ℕ → Result ReadError (List ℕ × List ℕ)
unfolding close unescape
read_text zero cs = err not_json
read_text (suc fuel) [] = err not_json
read_text (suc fuel) (c ∷ cs) = close (c == b'"') [] cs (do
  (code, behind) ← unescape (c ∷ cs)
  (codes, rest) ← read_text fuel behind
  ok (code ∷ codes, rest))

abbrev pub is_digit : ℕ → Bool
is_digit c = leb b'0' c && leb c b'9'

abbrev pub is_point : ℕ → Bool
is_point c = c == b'.' || c == b'e'

abbrev pub is_numeric : ℕ → Bool
is_numeric c = is_digit c || (c == b'-') || (c == b'+') || is_point c

-- The number at the front, and what stands behind it
unfoldable pub number_front : List ℕ → List ℕ
number_front [] = []
number_front (c ∷ cs) = let rest = number_front cs in if is_numeric c then c ∷ rest else []

unfoldable pub number_back : List ℕ → List ℕ
number_back [] = []
number_back (c ∷ cs) = let rest = number_back cs in if is_numeric c then rest else c ∷ cs

unfoldable pub has_point : List ℕ → Bool
has_point [] = false
has_point (c ∷ cs) = is_point c || has_point cs

abbrev pub negative : ℕ → ℤ
negative zero = pos 0
negative (suc n) = negsuc n

unfoldable pub read_integer : List ℕ → ℤ
unfolding read_digits
read_integer [] = pos 0
read_integer (c ∷ cs) =
    if c == b'-' then negative (read_digits 0 cs) else pos (read_digits 0 (c ∷ cs))

unfoldable pub read_number : List ℕ → Normal
unfolding has_point read_integer
read_number cs = if has_point cs then float cs else integer (read_integer cs)

unfoldable pub skip_word : List ℕ → List ℕ → Result ReadError (List ℕ)
skip_word [] cs = ok cs
skip_word (w ∷ ws) [] = err not_json
skip_word (w ∷ ws) (c ∷ cs) = let rest = skip_word ws cs in if w == c then rest else err not_json

-- What a value is, by its first character
pub data Kind : Type 0 where
  number_kind text_kind array_kind object_kind null_kind true_kind false_kind other_kind : Kind

unfoldable pub kind : ℕ → Kind
kind c =
    if is_numeric c
    then number_kind
    else (if c == b'"'
        then text_kind
        else (if c == b'['
            then array_kind
            else (if c == b'{'
                then object_kind
                else (if c == b'n'
                    then null_kind
                    else (if c == b't'
                        then true_kind
                        else (if c == b'f' then false_kind else other_kind))))))

-- The value, from what each kind of text gives
abbrev value_as :
    Kind
    → List ℕ
    → Result ReadError (List ℕ × List ℕ)
    → Result ReadError (Items × List ℕ)
    → Result ReadError (Fields × List ℕ)
    → Result ReadError (Normal × List ℕ)
value_as number_kind cs in_text in_list in_object =
    ok (read_number (number_front cs), number_back cs)
value_as text_kind cs in_text in_list in_object = do (t, rest) ← in_text; ok (text t, rest)
value_as array_kind cs in_text in_list in_object = do (xs, rest) ← in_list; ok (array xs, rest)
value_as object_kind cs in_text in_list in_object = do (fs, rest) ← in_object; ok (object fs, rest)
value_as null_kind cs in_text in_list in_object = do
  rest ← skip_word (b'n' ∷ b'u' ∷ b'l' ∷ b'l' ∷ []) cs
  ok (null, rest)
value_as true_kind cs in_text in_list in_object = do
  rest ← skip_word (b't' ∷ b'r' ∷ b'u' ∷ b'e' ∷ []) cs
  ok (boolean true, rest)
value_as false_kind cs in_text in_list in_object = do
  rest ← skip_word (b'f' ∷ b'a' ∷ b'l' ∷ b's' ∷ b'e' ∷ []) cs
  ok (boolean false, rest)
value_as other_kind cs in_text in_list in_object = err not_json

-- What stands in front of an element
abbrev pub lead : Bool → List ℕ
lead true = []
lead false = b',' ∷ []

unfoldable mutual
  unfolding kind skip_word number_front number_back read_number read_text close

  pub parse_value : ℕ → List ℕ → Result ReadError (Normal × List ℕ)
  parse_value zero cs = err not_json
  parse_value (suc fuel) [] = err not_json
  parse_value (suc fuel) (c ∷ cs) =
      value_as (kind c) (c ∷ cs) (read_text fuel cs) (parse_items fuel true cs)
        (parse_fields fuel true cs)

  -- The elements up to the bracket, with a comma in front unless it is the first
  pub parse_items : ℕ → Bool → List ℕ → Result ReadError (Items × List ℕ)
  parse_items zero first cs = err not_json
  parse_items (suc fuel) first [] = err not_json
  parse_items (suc fuel) first (c ∷ cs) = close (c == b']') nil cs (do
    at_value ← skip_word (lead first) (c ∷ cs)
    (x, behind) ← parse_value fuel at_value
    (xs, rest) ← parse_items fuel false behind
    ok (cons x xs, rest))

  pub parse_fields : ℕ → Bool → List ℕ → Result ReadError (Fields × List ℕ)
  parse_fields zero first cs = err not_json
  parse_fields (suc fuel) first [] = err not_json
  parse_fields (suc fuel) first (c ∷ cs) = close (c == b'}') end cs (do
    at_key ← skip_word (lead first ++ b'"' ∷ []) (c ∷ cs)
    (k, behind_key) ← read_text fuel at_key
    at_value ← skip_word (b':' ∷ []) behind_key
    (v, behind) ← parse_value fuel at_value
    (fs, rest) ← parse_fields fuel false behind
    ok (field k v fs, rest))
