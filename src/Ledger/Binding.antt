-- ===== src/Ledger/Binding.antt =====
-- The head hash of a verified ledger pins every event body, and the lifecycle bounds its length.
use inbar.Prelude.{
  ℕ, suc, ◌+◌, ◌≤◌, String, List, [], ◌∷◌, map, ◌≡◌, ◌⊎◌, inl, inr, refl, ap, sym, ◌∙◌, arith, ok,
  length,
}
use inbar.Chain.{IsChained, head_hash, Collision, chain_binding}
use inbar.Ledger.{LedgerEvent, EventBody, EventBody-discrete, Primitives, genesis_hash}
use inbar.Ledger.Lifecycle.{rank, Edge-rank-lt, rank-le}
use inbar.Ledger.Verify.{verify_events}
use inbar.Ledger.Spec.{IsTail, IsLedger, last_hash}
use inbar.Ledger.Refinement.{verify_events_lem}

module _ {Payload SigningKey : Type 0} (prims : Primitives Payload SigningKey) where
  tail_bound :
      (es : List (LedgerEvent Payload)) (first before : LedgerEvent Payload) (n : ℕ)
      → IsTail prims first n before es
      → length es + rank before.event_type ≤ 4
  tail_bound [] first before n h = omega (arith, rank-le before.event_type)
  tail_bound (e ∷ es) first before n (authentic, follows, rest) = omega (
    arith,
    Edge-rank-lt before.event_type e.event_type follows.edge,
    tail_bound es first e (suc n) rest,
  )

  -- A ledger that verifies holds at most five events: no run can be extended forever.
  pub length-verify_events-le :
      (events : List (LedgerEvent Payload)) (r : String × String)
      → verify_events prims events ≡ ok r
      → length events ≤ 5
  length-verify_events-le [] r h = omega arith
  length-verify_events-le (e ∷ es) r h =
      let (authentic, begins, tail) = ((verify_events_lem prims (e ∷ es)).0 r h).0 in
      omega (arith, tail_bound es e e 1 tail)

  abbrev Chained : String → List (LedgerEvent Payload) → Type 0
  Chained =
      IsChained (λ e. e.event_body) prims.body_digest (λ e. e.previous_event_hash)
        (λ e. e.event_hash)

  tail-IsChained :
      (es : List (LedgerEvent Payload)) (first before : LedgerEvent Payload) (n : ℕ)
      → IsTail prims first n before es
      → Chained before.event_hash es
  tail-IsChained [] first before n h = tt
  tail-IsChained (e ∷ es) first before n (authentic, follows, rest) =
      (authentic.chained, authentic.hashed, tail-IsChained es first e (suc n) rest)

  ledger-IsChained : (es : List (LedgerEvent Payload)) → IsLedger prims es → Chained genesis_hash es
  ledger-IsChained [] h = tt
  ledger-IsChained (e ∷ es) (authentic, begins, tail) =
      (authentic.chained, authentic.hashed, tail-IsChained es e e 1 tail)

  -- `last_hash` is the chain's head hash.
  last-head :
      (p : String) (es : List (LedgerEvent Payload))
      → head_hash
          (λ e. e.event_body)
          prims.body_digest
          (λ e. e.previous_event_hash)
          (λ e. e.event_hash)
          p
          es
        ≡ last_hash p es
  last-head p [] = refl
  last-head p (e ∷ es) = last-head e.event_hash es

  abbrev pub last_event : LedgerEvent Payload → List (LedgerEvent Payload) → LedgerEvent Payload
  last_event e [] = e
  last_event e (f ∷ fs) = last_event f fs

  pub last_hash-last_event :
      (e : LedgerEvent Payload) (es : List (LedgerEvent Payload))
      → last_hash e.event_hash es ≡ (last_event e es).event_hash
  last_hash-last_event e [] = refl
  last_hash-last_event e (f ∷ fs) = last_hash-last_event f fs

  -- The last event numbers the ledger and carries its own hash.
  pub last_event_facts :
      (es : List (LedgerEvent Payload)) (first before : LedgerEvent Payload) (n : ℕ)
      → before.sequence + 1 ≡ n
      → prims.body_digest before.event_body ≡ before.event_hash
      → IsTail prims first n before es
      → ((last_event before es).sequence + 1 ≡ n + length es)
        × (prims.body_digest (last_event before es).event_body ≡ (last_event before es).event_hash)
  last_event_facts [] first before n at own h = (omega arith, own)
  last_event_facts (e ∷ es) first before n at own (authentic, follows, rest) =
      let (numbered, hashed) =
        last_event_facts es first e (suc n) (omega (arith, authentic.placed)) authentic.hashed
          rest in
      (omega arith, hashed)

  module _ (dec : Discrete Payload) where
    one_length :
        (e f : LedgerEvent Payload) (es fs : List (LedgerEvent Payload))
        → IsLedger prims (e ∷ es)
        → IsLedger prims (f ∷ fs)
        → last_hash e.event_hash es ≡ last_hash f.event_hash fs
        → (length es ≡ length fs) ⊎ Collision prims.body_digest
    one_length e f es fs (ae, be, te) (af, bf, tf) same =
        let (ne, he) = last_event_facts es e e 1 (omega (arith, ae.placed)) ae.hashed te in
        let (nf, hf) = last_event_facts fs f f 1 (omega (arith, af.placed)) af.hashed tf in
        let x = last_event e es in
        let y = last_event f fs in
        let one_hash : x.event_hash ≡ y.event_hash =
          sym (last_hash-last_event e es) ∙ (same ∙ last_hash-last_event f fs) in
        elim (EventBody-discrete dec x.event_body y.event_body) [
          | yes bodies ↦ inl (omega (arith, ap (λ (b : EventBody Payload). b.sequence) bodies))
          | no other ↦ inr (x.event_body, y.event_body, other, he ∙ (one_hash ∙ sym hf))
        ]

    one_content :
        (xs ys : List (LedgerEvent Payload))
        → IsLedger prims xs
        → IsLedger prims ys
        → last_hash genesis_hash xs ≡ last_hash genesis_hash ys
        → length xs ≡ length ys
        → (map (λ (x : LedgerEvent Payload). x.event_body) xs
            ≡ map (λ (x : LedgerEvent Payload). x.event_body) ys)
          ⊎ Collision prims.body_digest
    one_content xs ys lx ly same count =
        elim (chain_binding (λ e. e.event_body) prims.body_digest (λ e. e.previous_event_hash)
          (λ e. e.event_hash) (EventBody-discrete dec)
          (λ x y. ap (λ (b : EventBody Payload). b.previous_event_hash)) xs ys genesis_hash
          genesis_hash (ledger-IsChained xs lx) (ledger-IsChained ys ly) count
          (last-head genesis_hash xs ∙ (same ∙ sym (last-head genesis_hash ys)))) [
            | inl (_, bodies) ↦ inl bodies
            | inr found ↦ inr found
          ]

    -- Ledgers that verify with one head hash hold the same event bodies, unless SHA-256 collides on
    -- two event bodies: neither the content, the order nor the number of events can change.
    pub head_hash_binds :
        (e f : LedgerEvent Payload) (es fs : List (LedgerEvent Payload)) (h k l : String)
        → verify_events prims (e ∷ es) ≡ ok (h, k)
        → verify_events prims (f ∷ fs) ≡ ok (h, l)
        → (map (λ (x : LedgerEvent Payload). x.event_body) (e ∷ es)
            ≡ map (λ (x : LedgerEvent Payload). x.event_body) (f ∷ fs))
          ⊎ Collision prims.body_digest
    head_hash_binds e f es fs h k l ve vf =
        let (le, re) = (verify_events_lem prims (e ∷ es)).0 (h, k) ve in
        let (lf, rf) = (verify_events_lem prims (f ∷ fs)).0 (h, l) vf in
        let same : last_hash e.event_hash es ≡ last_hash f.event_hash fs =
          sym (ap (λ (r : String × String). r.0) re) ∙ ap (λ (r : String × String). r.0) rf in
        elim (one_length e f es fs le lf same) [
          | inl count ↦ one_content (e ∷ es) (f ∷ fs) le lf same (ap suc count)
          | inr found ↦ inr found
        ]
