-- ===== src/Canonical/Text.antt =====
-- The text of a JSON string, as `json.dumps` writes it with `ensure_ascii`.
use inbar.Prelude.{ℕ, ◌+◌, ◌-◌, ◌/◌, ◌%◌, List, [], ◌∷◌, ◌++◌, ◌&&◌, leb, ltb, ◌==◌, if◌then◌else◌}

-- A digit of at most 15
unfoldable pub hex : ℕ → ℕ
hex d = if ltb d 10 then b'0' + d else b'a' + d - 10

unfoldable pub unicode_escape : ℕ → List ℕ
unfolding hex
unicode_escape c =
    b'\\' ∷ b'u' ∷ hex (c / 4096 % 16) ∷ hex (c / 256 % 16) ∷ hex (c / 16 % 16) ∷ hex (c % 16) ∷ []

-- Printable ASCII is kept, what lies beyond sixteen bits is written as a pair of surrogates.
unfoldable pub wide_escape : ℕ → List ℕ
unfolding unicode_escape
wide_escape c =
    if leb 32 c && leb c 126
    then c ∷ []
    else (if ltb c 0x10000
        then unicode_escape c
        else unicode_escape (0xd800 + (c - 0x10000) / 0x400 % 0x400)
          ++ unicode_escape (0xdc00 + (c - 0x10000) % 0x400))

-- The letter of a short escape, or 0
unfoldable pub short_escape : ℕ → ℕ
short_escape c =
    if c == b'"'
    then b'"'
    else (if c == b'\\'
        then b'\\'
        else (if c == 10
            then b'n'
            else (if c == 13
                then b'r'
                else (if c == 9
                    then b't'
                    else (if c == 12 then b'f' else (if c == 8 then b'b' else 0))))))

unfoldable pub escape : ℕ → List ℕ
unfolding short_escape wide_escape
escape c = if short_escape c == 0 then wide_escape c else b'\\' ∷ short_escape c ∷ []

unfoldable pub escape_all : List ℕ → List ℕ
unfolding escape
escape_all [] = []
escape_all (c ∷ cs) = escape c ++ escape_all cs

unfoldable pub encode_text : List ℕ → List ℕ
unfolding escape_all
encode_text cs = b'"' ∷ escape_all cs ++ b'"' ∷ []
