-- ===== src/Chain.antt =====
-- Hash chains, as receipts.py and memory.py build them: each record carries the hash of its own
-- body and the hash of the record before it.
use mathlib.Core.Logic.{◌⊎◌}
use inbar.Prelude.{String, List, [], ◌∷◌, map, ◌≡◌, ◌≢◌, refl, sym, ◌∙◌, inl, inr, length, arith}

module _ {ℓ κ} {E : Type ℓ} {B : Type κ} (body : E → B) (digest : B → String)
    (previous hash : E → String) where
  -- From the hash `p` on, every record names its predecessor's hash and carries its own.
  abbrev pub IsChained : String → List E → Type 0
  IsChained p [] = Unit
  IsChained p (e ∷ es) = (previous e ≡ p) × (digest (body e) ≡ hash e) × IsChained (hash e) es

  abbrev pub head_hash : String → List E → String
  head_hash p [] = p
  head_hash p (e ∷ es) = head_hash (hash e) es

-- Two different bodies with one digest.
abbrev pub Collision {κ} : {B : Type κ} → (B → String) → Type κ
Collision {B} digest = (a : B) × (b : B) × (a ≢ b) × (digest a ≡ digest b)

module _ {ℓ κ} {E : Type ℓ} {B : Type κ} (body : E → B) (digest : B → String)
    (previous hash : E → String) (dec : Discrete B)
    (previous_of_body : (x y : E) → body x ≡ body y → previous x ≡ previous y) where
  -- Two records with one hash have one body, or show a collision.
  body_of_hash :
      (x y : E)
      → digest (body x) ≡ hash x
      → digest (body y) ≡ hash y
      → hash x ≡ hash y
      → (body x ≡ body y) ⊎ Collision digest
  body_of_hash x y hx hy e = elim (dec (body x) (body y)) [
    | yes same ↦ inl same
    | no other ↦ inr (body x, body y, other, cc)
  ]

  -- Chains of one length with one head hash start at one hash and hold the same bodies, or the
  -- digest has a collision.
  pub chain_binding :
      (xs ys : List E) (p q : String)
      → IsChained body digest previous hash p xs
      → IsChained body digest previous hash q ys
      → length xs ≡ length ys
      → head_hash body digest previous hash p xs ≡ head_hash body digest previous hash q ys
      → ((p ≡ q) × (map body xs ≡ map body ys)) ⊎ Collision digest
  chain_binding [] [] p q cx cy n e = inl (e, refl)
  chain_binding [] (y ∷ ys) p q cx cy n e = absurd (omega arith)
  chain_binding (x ∷ xs) [] p q cx cy n e = absurd (omega arith)
  chain_binding (x ∷ xs) (y ∷ ys) p q cx cy n e =
      elim (chain_binding xs ys (hash x) (hash y) cx.2 cy.2 (omega arith) e) [
        | inr found ↦ inr found
        | inl (same_hash, rest) ↦ elim (body_of_hash x y cx.1 cy.1 same_hash) [
          | inr found ↦ inr found
          | inl same ↦ inl (sym cx.0 ∙ (previous_of_body x y same ∙ cy.0), cc)
        ]
      ]
