-- ===== src/Prelude/Lists.antt =====
-- Lists measured and read by native numbers, and membership.
use Prim.Native.Nat.{ℕ, suc, ◌+◌}
use mathlib.Core.Path.{◌≡◌}
use mathlib.Core.Logic.Or
use mathlib.Core.List.{List, [], ◌∷◌, ◌++◌, Mem, mem-cons}
use native.Mathlib.Omega.{arith}

module _ {ℓ} {A : Type ℓ} where
  abbrev pub length : List A → ℕ
  length [] = 0
  length (x ∷ xs) = suc (length xs)

  pub length-append : (xs ys : List A) → length (xs ++ ys) ≡ length xs + length ys
  length-append [] ys = omega arith
  length-append (x ∷ xs) ys = omega (arith, length-append xs ys)

  -- Every element satisfies `P`.
  abbrev pub All {κ} : (A → Type κ) → List A → Type κ
  All P [] = Unit
  All P (x ∷ xs) = P x × All P xs

  -- What the elements of a membership satisfy, for a proposition `Q`.
  pub Mem-cases {κ} :
      {Q : Type κ} {a x : A} {xs : List A}
      → IsProp Q
      → Mem a (x ∷ xs)
      → (a ≡ x → Q)
      → (Mem a xs → Q)
      → Q
  Mem-cases prop m here there = Or.elim prop (mem-cons.0 m) here there
