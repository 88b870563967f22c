-- ===== src/Prelude/Tests.antt =====
-- Tests: Booleans on the native numbers, the conditional, and decisions of equality.
use Prim.Native.Nat.{ℕ, ◌<◌, compare, Ordering}
use Prim.Native.String.{String}
use mathlib.Core.Path.{◌≡◌, refl}
use mathlib.Core.Logic.{◌≢◌, ◌↔◌, ◌⊎◌, inl, inr}
use mathlib.Core.Bool.{Bool, true, false, false≢true}
use mathlib.Core.Option.{Option, none, some}
use native.Mathlib.Omega.{arith}
use text.Mathlib.Text.{◌==◌ as str_eq}
use text.Mathlib.TextEquality.{eq_iff}

abbrev pub ltb : ℕ → ℕ → Bool
ltb a b = elim (compare a b) [ Ordering.lt ↦ true | _ ↦ false ]

abbrev pub leb : ℕ → ℕ → Bool
leb a b = elim (compare a b) [ Ordering.gt ↦ false | _ ↦ true ]

infix 50 ◌==◌
abbrev pub ◌==◌ : ℕ → ℕ → Bool
a == b = elim (compare a b) [ Ordering.eq ↦ true | _ ↦ false ]

infix 1 if◌then◌else◌
abbrev pub if◌then◌else◌ {ℓ} : {A : Type ℓ} → Bool → A → A → A
if true then x else y = x
if false then x else y = y

pub ltb→lt : (a b : ℕ) → ltb a b ≡ true → a < b
ltb→lt a b h = ground arith

pub lt→ltb : (a b : ℕ) → a < b → ltb a b ≡ true
lt→ltb a b h = ground arith

-- To split on a computed value and keep the equation.
pub Bool-cases : (b : Bool) → (b ≡ true) ⊎ (b ≡ false)
Bool-cases true = inl refl
Bool-cases false = inr refl

pub Option-cases {ℓ} : {A : Type ℓ} (o : Option A) → (o ≡ none) ⊎ ((a : A) × (o ≡ some a))
Option-cases none = inl refl
Option-cases (some a) = inr (a, refl)

-- A Boolean test of a statement decides it.
unfoldable pub decide_by {ℓ} : {P : Type ℓ} (b : Bool) → (b ≡ true) ↔ P → Dec P
decide_by true h = yes (h.0 refl)
decide_by false h = no (λ p. false≢true (h.1 p))

-- Texts are compared as Python compares `str`: the same code points.
unfoldable pub string_discrete : Discrete String
unfolding decide_by
string_discrete s t = decide_by (str_eq s t) (eq_iff s t)

abbrev pub same_text : String → String → Bool
same_text s t = elim (string_discrete s t) [ yes _ ↦ true | no _ ↦ false ]

pub same_text-eq : (s t : String) → same_text s t ≡ true → s ≡ t
same_text-eq s t h = elim (string_discrete s t) [ yes e ↦ e | no n ↦ ground arith ]

pub same_text-ne : (s t : String) → same_text s t ≡ false → s ≢ t
same_text-ne s t h = elim (string_discrete s t) [ yes e ↦ ground arith | no n ↦ n ]

pub same_text_refl : (s : String) → same_text s s ≡ true
same_text_refl s = elim (Bool-cases (same_text s s)) [
  | inl e ↦ e
  | inr e ↦ absurd (same_text-ne s s e refl)
]

pub same_text-apart : (s t : String) → s ≢ t → same_text s t ≡ false
same_text-apart s t n = elim (Bool-cases (same_text s t)) [
  | inl e ↦ absurd (n (same_text-eq s t e))
  | inr e ↦ e
]
