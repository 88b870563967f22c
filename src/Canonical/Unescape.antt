-- ===== src/Canonical/Unescape.antt =====
-- The escapes of a code point in the texts of src/fieldtrue/canonical.py, read back.
use inbar.Prelude.{
  ℕ, ◌+◌, ◌-◌, ◌*◌, ◌/◌, ◌%◌, ◌≤◌, ◌<◌, List, [], ◌∷◌, ◌++◌, ◌≡◌, refl, ap, ◌∙◌, arith, Bool-cases,
  inl, inr, ltb, leb, ◌==◌, Bool, true, false, ◌&&◌, ◌||◌, ok,
}
use inbar.Canonical.Text.{hex, unicode_escape, wide_escape, short_escape, escape}
use inbar.Canonical.Read.{
  unhex, code_unit, is_high, surrogate_pair, complete, meant, unicode, escaped, unescape,
}

-- A code point that is no surrogate
abbrev pub is_scalar : ℕ → Bool
is_scalar c = ltb c 0xd800 || (leb 0xe000 c && ltb c 0x110000)

unhex-hex : (d : ℕ) → d < 16 → unhex (hex d) ≡ d
unfolding hex
unhex-hex d h = ground arith

nibbles :
    (c : ℕ)
    → c < 0x10000
    → c / 4096 % 16 * 4096 + c / 256 % 16 * 256 + c / 16 % 16 * 16 + c % 16 ≡ c
nibbles c h = omega arith

assembled :
    (c : ℕ)
    → c < 0x10000
    → unhex (hex (c / 4096 % 16)) * 4096
        + unhex (hex (c / 256 % 16)) * 256
        + unhex (hex (c / 16 % 16)) * 16
        + unhex (hex (c % 16))
      ≡ c
assembled c h =
    rw
      (
        unhex-hex (c / 4096 % 16) (omega arith),
        unhex-hex (c / 256 % 16) (omega arith),
        unhex-hex (c / 16 % 16) (omega arith),
        unhex-hex (c % 16) (omega arith),
      )
      (nibbles c h)

narrow :
    (c : ℕ) (cs : List ℕ)
    → c < 0x10000
    → is_scalar c ≡ true
    → unescape (unicode_escape c ++ cs) ≡ ok (c, cs)
unfolding code_unit unescape escaped unicode complete unicode_escape
narrow c cs h scalar = let low : is_high c ≡ false = ground arith in rw (assembled c h, low) refl

wide :
    (high low : ℕ) (cs : List ℕ)
    → 0xd800 ≤ high
    → high < 0xdc00
    → low < 0x10000
    → unescape (unicode_escape high ++ (unicode_escape low ++ cs))
      ≡ ok (0x10000 + (high - 0xd800) * 0x400 + (low - 0xdc00), cs)
unfolding code_unit unescape escaped unicode complete surrogate_pair unicode_escape
wide high low cs h k l =
    let is : is_high high ≡ true = ground arith in
    rw (assembled high (omega arith), is, assembled low l) refl

plain_not_quoted :
    (c : ℕ) → (short_escape c == 0) ≡ true → ((c == b'"') ≡ false) × ((c == b'\\') ≡ false)
unfolding short_escape
plain_not_quoted c h = (ground arith, ground arith)

short_meant :
    (c : ℕ)
    → (short_escape c == 0) ≡ false
    → ((short_escape c == b'u') ≡ false) × (meant (short_escape c) ≡ c)
unfolding short_escape
short_meant c h = (ground arith, ground arith)

low_surrogate :
    (c : ℕ) → 0x10000 ≤ c → is_scalar c ≡ true → 0xd800 + (c - 0x10000) / 0x400 % 0x400 < 0xdc00
low_surrogate c h scalar = omega arith

halves :
    (c : ℕ)
    → 0x10000 ≤ c
    → c < 0x110000
    → 0x10000
        + (0xd800 + (c - 0x10000) / 0x400 % 0x400 - 0xd800) * 0x400
        + (0xdc00 + (c - 0x10000) % 0x400 - 0xdc00)
      ≡ c
halves c h k = omega arith

astral : (c : ℕ) → (ltb c 0x10000) ≡ false → is_scalar c ≡ true → (0x10000 ≤ c) × (c < 0x110000)
astral c h k = (ground arith, ground arith)

plain_code : (c : ℕ) (cs : List ℕ) → (c == b'\\') ≡ false → unescape (c ∷ cs) ≡ ok (c, cs)
unfolding unescape
plain_code c cs h = rw h refl

pair_code :
    (c : ℕ) (cs : List ℕ)
    → (0x10000 ≤ c) × (c < 0x110000)
    → unescape (
        unicode_escape (0xd800 + (c - 0x10000) / 0x400 % 0x400)
        ++ (unicode_escape (0xdc00 + (c - 0x10000) % 0x400) ++ cs))
      ≡ ok (c, cs)
pair_code c cs (h, k) =
    wide (0xd800 + (c - 0x10000) / 0x400 % 0x400) (0xdc00 + (c - 0x10000) % 0x400) cs (omega arith)
      (omega arith) (omega arith)
    ∙ ap (λ (d : ℕ). ok (d, cs)) (halves c h k)

unescape-wide_escape :
    (c : ℕ) (cs : List ℕ)
    → is_scalar c ≡ true
    → (short_escape c == 0) ≡ true
    → unescape (wide_escape c ++ cs) ≡ ok (c, cs)
unfolding wide_escape
unescape-wide_escape c cs scalar plain = elim (Bool-cases (leb 32 c && leb c 126)) [
  | inl printable ↦ rw printable (plain_code c cs (plain_not_quoted c plain).1)
  | inr not_printable ↦ rw not_printable (elim (Bool-cases (ltb c 0x10000)) [
    | inl small ↦ rw small (narrow c cs (ground arith) scalar)
    | inr large ↦ rw large (pair_code c cs (astral c large scalar))
  ])
]

-- A code point of a text is read back from its escape, whatever stands behind it.
pub unescape-escape :
    (c : ℕ) (cs : List ℕ) → is_scalar c ≡ true → unescape (escape c ++ cs) ≡ ok (c, cs)
unfolding escape unescape escaped
unescape-escape c cs scalar = elim (Bool-cases (short_escape c == 0)) [
  | inl plain ↦ rw plain (unescape-wide_escape c cs scalar plain)
  | inr short ↦ rw (short, (short_meant c short).0, (short_meant c short).1) refl
]

-- No escape starts with the quote that ends a text.
abbrev pub Unquoted : List ℕ → Type 0
Unquoted cs = (d : ℕ) × (ds : List ℕ) × (cs ≡ d ∷ ds) × ((d == b'"') ≡ false)

pub escape-Unquoted : (c : ℕ) → Unquoted (escape c)
unfolding escape wide_escape unicode_escape
escape-Unquoted c = elim (Bool-cases (short_escape c == 0)) [
  | inl plain ↦ rw plain (elim (Bool-cases (leb 32 c && leb c 126)) [
    | inl printable ↦ rw printable (c, [], refl, (plain_not_quoted c plain).0)
    | inr not_printable ↦ rw not_printable (elim (Bool-cases (ltb c 0x10000)) [
      | inl small ↦ rw small (_, _, refl, refl)
      | inr large ↦ rw large (_, _, refl, refl)
    ])
  ])
  | inr short ↦ rw short (_, _, refl, refl)
]
