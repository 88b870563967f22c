-- ===== src/Ledger/Spec.antt =====
-- What a ledger promises, with no reference to the loop that checks it.
use inbar.Prelude.{ℕ, suc, String, List, [], ◌∷◌, ◌≡◌, ◌≤◌, true}
use inbar.Ledger.Lifecycle.{Edge}
use inbar.Ledger.{LedgerEvent, Primitives, genesis_hash, empty_digest}

module _ {Payload SigningKey : Type 0} (prims : Primitives Payload SigningKey) where
  -- The event stands at its place in the chain, carries its own hashes and is signed.
  pub record IsAuthentic (place : ℕ) (previous : String) (e : LedgerEvent Payload) : Type 0 where
    pub placed : e.sequence ≡ place
    pub chained : e.previous_event_hash ≡ previous
    pub payload_hashed : prims.payload_digest e.payload ≡ e.payload_hash
    pub hashed : prims.body_digest e.event_body ≡ e.event_hash
    pub signed : prims.verify e.signer_public_key e.event_hash e.signature ≡ true

  -- The event may follow `before` in the run that `first` began.
  pub record Follows (first before e : LedgerEvent Payload) : Type 0 where
    pub one_signer : e.signer_public_key ≡ first.signer_public_key
    pub one_run : e.run_id ≡ first.run_id
    pub one_runtime : e.runtime ≡ first.runtime
    pub not_earlier : before.timestamp.instant ≤ e.timestamp.instant
    pub edge : Edge before.event_type e.event_type

  abbrev pub IsTail :
      LedgerEvent Payload → ℕ → LedgerEvent Payload → List (LedgerEvent Payload) → Type 0
  IsTail first place before [] = Unit
  IsTail first place before (e ∷ es) =
      IsAuthentic place before.event_hash e × Follows first before e × IsTail first (suc place) e es

  abbrev pub IsLedger : List (LedgerEvent Payload) → Type 0
  IsLedger [] = Unit
  IsLedger (e ∷ es) =
      IsAuthentic 0 genesis_hash e × (e.event_type ≡ "run-started") × IsTail e 1 e es

module _ {Payload : Type 0} where
  -- The hash of the last event, or `p` if there is none.
  abbrev pub last_hash : String → List (LedgerEvent Payload) → String
  last_hash p [] = p
  last_hash p (e ∷ es) = last_hash e.event_hash es

  abbrev pub signer_of : List (LedgerEvent Payload) → String
  signer_of [] = empty_digest
  signer_of (e ∷ es) = e.signer_public_key
