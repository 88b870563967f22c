-- ===== src/Canonical/Tests.antt =====
-- Runs of the canonical serialization of src/fieldtrue/canonical.py, and instances of its theorems.
use inbar.Prelude.{ℕ, List, [], ◌∷◌, ◌≡◌, ◌≢◌, refl, true, false, ok, err, codes, arith}
use inbar.Domain.{negsuc}
use inbar.Sorting.{codes_less, codes_less-irreflexive}
use inbar.Canonical.{
  Normal, integer, float, text, array, object, nil, cons, end, field, text_key, other_key, Value,
  none_value, text_value, integer_value, float_value, mapping, set_value, sequence, no_values,
  value, no_entries, entry, key_not_text, infinite_float, datetime, naive_datetime,
}
use inbar.Canonical.Encode.{in_key_order, normalize, canonical_json}
use inbar.Canonical.Clear.{is_clear}
use inbar.Canonical.Injective.{canonical_json-injective}
use inbar.Canonical.Same.{in_mapping, swapped}
use inbar.Canonical.Order.{canonical_json-SameValue}
use inbar.Canonical.Surrogates.{canonical_json-surrogates, paired}

abbrev members : Value
members = set_value (value (text_value (codes "b")) (value (text_value (codes "a")) no_values))

abbrev members_again : Value
members_again =
    set_value (value (text_value (codes "a")) (value (text_value (codes "b")) no_values))

abbrev document : Value
document = mapping (
    entry (text_key (codes "z")) (integer_value (negsuc 11)) (
      entry (text_key (codes "a")) members
        (entry (text_key (codes "m")) (float_value true (codes "1.5")) no_entries)))

abbrev document_again : Value
document_again = mapping (
    entry (text_key (codes "a")) members (
      entry (text_key (codes "z")) (integer_value (negsuc 11))
        (entry (text_key (codes "m")) (float_value true (codes "1.5")) no_entries)))

abbrev document_bytes : List ℕ
document_bytes =
    b'{' ∷ b'"' ∷ b'a' ∷ b'"' ∷ b':' ∷ b'[' ∷ b'"' ∷ b'a' ∷ b'"' ∷ b',' ∷ b'"' ∷ b'b' ∷ b'"' ∷ b']'
    ∷ b',' ∷ b'"' ∷ b'm' ∷ b'"' ∷ b':' ∷ b'1' ∷ b'.' ∷ b'5' ∷ b',' ∷ b'"' ∷ b'z' ∷ b'"' ∷ b':'
    ∷ b'-' ∷ b'1' ∷ b'2' ∷ b'}' ∷ []

canonical_json-document : canonical_json document ≡ ok document_bytes
unfolding canonical_json codes_less
canonical_json-document = refl

escapes_written :
    canonical_json (text_value (10 ∷ 34 ∷ 127 ∷ 0x1f600 ∷ []))
    ≡ ok (
        b'"' ∷ b'\\' ∷ b'n' ∷ b'\\' ∷ b'"' ∷ b'\\' ∷ b'u' ∷ b'0' ∷ b'0' ∷ b'7' ∷ b'f' ∷ b'\\' ∷ b'u'
        ∷ b'd' ∷ b'8' ∷ b'3' ∷ b'd' ∷ b'\\' ∷ b'u' ∷ b'd' ∷ b'e' ∷ b'0' ∷ b'0' ∷ b'"' ∷ [])
unfolding canonical_json
escapes_written = refl

key_refused : canonical_json (mapping (entry other_key none_value no_entries)) ≡ err key_not_text
unfolding canonical_json
key_refused = refl

infinite_refused :
    canonical_json (sequence (value (float_value false []) no_values)) ≡ err infinite_float
unfolding canonical_json
infinite_refused = refl

naive_refused : canonical_json (datetime false (codes "2026-01-01T00:00:00")) ≡ err naive_datetime
unfolding canonical_json
naive_refused = refl

abbrev first_normal : Normal
first_normal = object (
    field (codes "z") (integer (negsuc 11)) (
      field (codes "a") (array (cons (text (codes "a")) (cons (text (codes "b")) nil)))
        (field (codes "m") (float (codes "1.5")) end)))

normalize-document : normalize document ≡ ok first_normal
unfolding normalize codes_less
normalize-document = refl

abbrev second_normal : Normal
second_normal = object (
    field (codes "a") (array (cons (text (codes "a")) (cons (text (codes "b")) nil)))
      (field (codes "z") (integer (negsuc 11)) (field (codes "m") (float (codes "1.5")) end)))

normalize-document_again : normalize document_again ≡ ok second_normal
unfolding normalize codes_less
normalize-document_again = refl

clear_first : is_clear first_normal ≡ true
unfolding is_clear
clear_first = refl

clear_second : is_clear second_normal ≡ true
unfolding is_clear
clear_second = refl

documents_alike : canonical_json document ≡ canonical_json document_again
unfolding canonical_json codes_less
documents_alike = refl

canonical_json-injective_example : in_key_order first_normal ≡ in_key_order second_normal
canonical_json-injective_example =
    canonical_json-injective document document_again first_normal second_normal normalize-document
      normalize-document_again clear_first clear_second documents_alike

z_not_a : codes "z" ≢ codes "a"
unfolding codes_less
z_not_a e =
    let less : codes_less (codes "a") (codes "z") ≡ true = refl in
    let impossible : true ≡ false = cc (e, less, codes_less-irreflexive (codes "a")) in
    cc impossible

canonical_json-SameValue_example : canonical_json document_again ≡ ok document_bytes
canonical_json-SameValue_example =
    canonical_json-SameValue document document_again document_bytes
      (in_mapping (swapped _ _ _ _ _ z_not_a)) canonical_json-document

canonical_json-surrogates_example :
    (canonical_json (text_value (0xd83d ∷ 0xde00 ∷ []))
      ≡ canonical_json (text_value (paired 0xd83d 0xde00 ∷ [])))
    × ¬ (0xd83d ∷ 0xde00 ∷ [] ≡ paired 0xd83d 0xde00 ∷ [])
canonical_json-surrogates_example =
    canonical_json-surrogates 0xd83d 0xde00 [] (omega arith) (omega arith) (omega arith)
      (omega arith)
