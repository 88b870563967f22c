-- ===== src/Prelude/Text.antt =====
-- Texts as lists of code points, and the patterns of domain.py that are pinned by length and by
-- the characters allowed.
use Prim.Native.Nat.{ℕ}
use Prim.Native.Char.{code}
use Prim.Native.String.{String}
use mathlib.Core.Path.{◌≡◌, refl}
use mathlib.Core.Option.{Option, none, some}
use mathlib.Core.Bool.{Bool, true, false, ◌&&◌, ◌||◌, not}
use mathlib.Core.List.{List, [], ◌∷◌, dec_mem}
use inbar.Prelude.Tests.{leb, ◌==◌, if◌then◌else◌, string_discrete}
use inbar.Prelude.Lists.{length}

abbrev pub codes : String → List ℕ
codes String.[] = []
codes (String.◌∷◌ c s) = code c ∷ codes s

unfoldable pub all_codes : (ℕ → Bool) → List ℕ → Bool
all_codes p [] = true
all_codes p (c ∷ cs) = p c && all_codes p cs

unfoldable pub between : ℕ → ℕ → ℕ → Bool
between lo hi c = leb lo c && leb c hi

is_alphanumeric : ℕ → Bool
unfolding between
is_alphanumeric c = between b'0' b'9' c || between b'A' b'Z' c || between b'a' b'z' c

is_lower_hex : ℕ → Bool
unfolding between
is_lower_hex c = between b'0' b'9' c || between b'a' b'f' c

is_identifier_tail : ℕ → Bool
unfolding is_alphanumeric
is_identifier_tail c = is_alphanumeric c || c == b'.' || c == b'_' || c == b':' || c == b'-'

is_identifier_codes : List ℕ → Bool
unfolding is_alphanumeric is_identifier_tail all_codes
is_identifier_codes [] = false
is_identifier_codes (c ∷ cs) =
    is_alphanumeric c && leb (length cs) 127 && all_codes is_identifier_tail cs

-- Identifier: one alphanumeric character, then at most 127 of those or `.`, `_`, `:`, `-`.
unfoldable pub is_identifier : String → Bool
unfolding is_identifier_codes
is_identifier s = is_identifier_codes (codes s)

-- Sha256, Ed25519PublicKey (64) and HexSignature (128): so many lower-case hexadecimal digits.
unfoldable pub is_hex : ℕ → String → Bool
unfolding all_codes is_lower_hex
is_hex n s = (length (codes s) == n) && all_codes is_lower_hex (codes s)

-- GitObjectId: a SHA-1 or a SHA-256 name.
unfoldable pub is_git_object_id : String → Bool
unfolding is_hex
is_git_object_id s = is_hex 40 s || is_hex 64 s

-- The part before the first dot, and the part behind it.
abbrev pub split_dot : List ℕ → List ℕ × Option (List ℕ)
split_dot [] = ([], none)
split_dot (c ∷ cs) =
    let (whole, fraction) = split_dot cs in
    if c == b'.' then ([], some cs) else (c ∷ whole, fraction)

unfoldable pub is_whole : List ℕ → Bool
unfolding all_codes between
is_whole [] = false
is_whole (c ∷ []) = between b'0' b'9' c
is_whole (c ∷ d ∷ ds) = between b'1' b'9' c && all_codes (between b'0' b'9') (d ∷ ds)

is_fraction : Option (List ℕ) → Bool
unfolding all_codes between
is_fraction none = true
is_fraction (some ds) = leb 1 (length ds) && leb (length ds) 6 && all_codes (between b'0' b'9') ds

-- Amounts of money: `^(0|[1-9][0-9]*)(\.[0-9]{1,6})?$`
unfoldable pub is_cost : String → Bool
unfolding is_whole is_fraction
is_cost s = let (whole, fraction) = split_dot (codes s) in is_whole whole && is_fraction fraction

-- `x in xs` and `set(xs).issubset(ys)`, for texts
abbrev pub is_in : String → List String → Bool
is_in x xs = elim (dec_mem string_discrete x xs) [ yes _ ↦ true | no _ ↦ false ]

unfoldable pub is_subset : List String → List String → Bool
is_subset [] ys = true
is_subset (x ∷ xs) ys = is_in x ys && is_subset xs ys

-- `len(values) == len(set(values))`
unfoldable pub all_distinct : List String → Bool
all_distinct [] = true
all_distinct (x ∷ xs) = not (is_in x xs) && all_distinct xs

is_identifier-run : is_identifier "run:2026-07.a" ≡ true
unfolding is_identifier
is_identifier-run = refl

is_identifier-dash : is_identifier "-run" ≡ false
unfolding is_identifier
is_identifier-dash = refl
