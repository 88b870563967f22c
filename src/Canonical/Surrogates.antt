-- ===== src/Canonical/Surrogates.antt =====
-- Texts with surrogates, in src/fieldtrue/canonical.py.
use inbar.Prelude.{
  ℕ, ◌+◌, ◌-◌, ◌*◌, ◌/◌, ◌%◌, ◌≤◌, ◌<◌, List, [], ◌∷◌, ◌++◌, ◌≡◌, refl, sym, ap, ◌∙◌, arith, ltb,
  leb, ◌==◌, ◌&&◌, true, false, ok,
}
use mathlib.Core.List.{append_assoc}
use inbar.Canonical.{text_value}
use inbar.Canonical.Text.{
  unicode_escape, wide_escape, short_escape, escape, escape_all, encode_text,
}
use inbar.Canonical.Encode.{in_key_order, encode, dumps, normalize, canonical_json}

-- The code point that a pair of surrogates stands for in UTF-16
abbrev pub paired : ℕ → ℕ → ℕ
paired high low = 0x10000 + (high - 0xd800) * 0x400 + (low - 0xdc00)

escape-wide : (c : ℕ) → 127 ≤ c → c < 0x10000 → escape c ≡ unicode_escape c
unfolding escape short_escape wide_escape
escape-wide c h k =
    let long : (short_escape c == 0) ≡ true = ground arith in
    let not_printable : (leb 32 c && leb c 126) ≡ false = ground arith in
    let small : ltb c 0x10000 ≡ true = ground arith in rw (long, not_printable, small) refl

escape-astral :
    (c : ℕ)
    → 0x10000 ≤ c
    → escape c
      ≡ unicode_escape (0xd800 + (c - 0x10000) / 0x400 % 0x400)
        ++ unicode_escape (0xdc00 + (c - 0x10000) % 0x400)
unfolding escape short_escape wide_escape
escape-astral c h =
    let long : (short_escape c == 0) ≡ true = ground arith in
    let not_printable : (leb 32 c && leb c 126) ≡ false = ground arith in
    let large : ltb c 0x10000 ≡ false = ground arith in rw (long, not_printable, large) refl

high_half :
    (high low : ℕ)
    → 0xd800 ≤ high
    → high < 0xdc00
    → 0xdc00 ≤ low
    → low < 0xe000
    → 0xd800 + (paired high low - 0x10000) / 0x400 % 0x400 ≡ high
high_half high low h i j k = omega arith

low_half :
    (high low : ℕ)
    → 0xd800 ≤ high
    → high < 0xdc00
    → 0xdc00 ≤ low
    → low < 0xe000
    → 0xdc00 + (paired high low - 0x10000) % 0x400 ≡ low
low_half high low h i j k = omega arith

escape-paired :
    (high low : ℕ)
    → 0xd800 ≤ high
    → high < 0xdc00
    → 0xdc00 ≤ low
    → low < 0xe000
    → escape high ++ escape low ≡ escape (paired high low)
escape-paired high low h i j k =
    rw
      (
        escape-wide high (omega arith) (omega arith),
        escape-wide low (omega arith) (omega arith),
        escape-astral (paired high low) (omega arith),
        high_half high low h i j k,
        low_half high low h i j k,
      )
      refl

-- Before any text, a high and a low surrogate are written as the one code point that they stand for
-- in UTF-16: two different texts have the same canonical JSON.
pub canonical_json-surrogates :
    (high low : ℕ) (cs : List ℕ)
    → 0xd800 ≤ high
    → high < 0xdc00
    → 0xdc00 ≤ low
    → low < 0xe000
    → (canonical_json (text_value (high ∷ low ∷ cs))
        ≡ canonical_json (text_value (paired high low ∷ cs)))
      × ¬ (high ∷ low ∷ cs ≡ paired high low ∷ cs)
unfolding canonical_json normalize dumps in_key_order encode encode_text escape_all
canonical_json-surrogates high low cs h i j k = (
  ap (λ xs. ok (b'"' ∷ xs ++ b'"' ∷ []))
      (sym (append_assoc (escape high) (escape low) (escape_all cs))
        ∙ ap (λ xs. xs ++ escape_all cs) (escape-paired high low h i j k)),
  (λ e. let same : high ≡ paired high low = cc e in absurd (omega arith)),
)
