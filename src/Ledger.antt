-- ===== src/Ledger.antt =====
-- The data of src/fieldtrue/receipts.py: signed events, the local head, and what the module takes
-- from hashlib, PyNaCl and the canonical serialization.
pub mod Lifecycle
pub mod Verify
pub mod Spec
pub mod Refinement
pub mod Append
pub mod Trust
pub mod Binding
pub mod Growth
mod Tests
use inbar.Prelude.{ℕ, String, Option, List, Bool, true, ◌≡◌, string_discrete, is_hex, ℕ_discrete}
use inbar.Domain.{ℤ-discrete, Timestamp}
use inbar.Runtime.{RuntimeIdentity, RuntimeIdentity-discrete}

-- The fields that `_event_body` keeps: all but `event_hash` and `signature`. A payload is a JSON value.
pub record EventBody (Payload : Type 0) : Type 0 where
  pub sequence : ℕ
  pub timestamp : Timestamp
  pub run_id : String
  pub event_type : String
  pub payload : Payload
  pub payload_hash : String
  pub previous_event_hash : String
  pub runtime : RuntimeIdentity
  pub approval_receipt_hash : Option String
  pub signer_public_key : String

pub record LedgerEvent (Payload : Type 0) : Type 0 where
  pub event_body : EventBody Payload
  pub open event_body use *
  pub event_hash : String
  pub signature : String

-- The fields that `_head_body` keeps: all but `signature`.
pub record HeadBody : Type 0 where
  pub event_count : ℕ
  pub head_hash : String
  pub signer_public_key : String

pub record LedgerHead : Type 0 where
  pub head_body : HeadBody
  pub open head_body use *
  pub signature : String

-- The two files of one ledger, read as events and as a head; a file may be absent. A torn ledger has
-- a part of a line behind the events, which is not the JSON text of an event.
pub record LedgerFiles (Payload : Type 0) : Type 0 where
  pub ledger : Option (List (LedgerEvent Payload))
  pub head : Option LedgerHead
  pub torn : Bool

pub record LedgerVerification : Type 0 where
  pub event_count : ℕ
  pub head_hash : String
  pub signer_public_key : String

-- What is computed outside the module: SHA-256 of the canonical JSON of a payload and of a dumped event
-- body, whose timestamp has its offset in it, the canonical bytes of a head, and Ed25519. `SigningKey` is PyNaCl's.
pub record Primitives (Payload SigningKey : Type 0) : Type 0 where
  pub payload_digest : Payload → String
  pub body_digest : EventBody Payload → String
  pub head_bytes : HeadBody → String
  pub public_key : SigningKey → String
  pub sign : SigningKey → String → String
  pub verify : (key message signature : String) → Bool

-- The documented behaviour of those: digests and keys are hexadecimal texts of their lengths, and a
-- signature made with a key verifies under that key's public half.
pub record IsSound {Payload SigningKey : Type 0} (prims : Primitives Payload SigningKey)
    : Type 0 where
  pub payload_digest_hex : (v : Payload) → is_hex 64 (prims.payload_digest v) ≡ true
  pub body_digest_hex : (b : EventBody Payload) → is_hex 64 (prims.body_digest b) ≡ true
  pub public_key_hex : (k : SigningKey) → is_hex 64 (prims.public_key k) ≡ true
  pub sign_hex : (k : SigningKey) (m : String) → is_hex 128 (prims.sign k m) ≡ true
  pub verify_sign :
      (k : SigningKey) (m : String) → prims.verify (prims.public_key k) m (prims.sign k m) ≡ true

pub data LedgerError : Type 0 where
  sequence_mismatch previous_hash_mismatch payload_hash_mismatch : LedgerError
  event_hash_mismatch event_signature_mismatch signer_changed run_changed : LedgerError
  not_monotonic must_begin_with_run_started lifecycle_violation unknown_type : LedgerError
  duplicate_type needs_adjudication empty_ledger head_mismatch untrusted_signer : LedgerError
  head_signer_mismatch head_signature_mismatch provenance_required : LedgerError
  append_signer_mismatch malformed_event naive_timestamp missing_file : LedgerError
  malformed_line write_failed : LedgerError

pub EventBody-discrete : {Payload : Type 0} → Discrete Payload → Discrete (EventBody Payload)
EventBody-discrete d = hlevel (d, ℕ_discrete, string_discrete, RuntimeIdentity-discrete, ℤ-discrete)

-- `GENESIS_HASH`, and SHA-256 of the empty byte string
abbrev pub genesis_hash : String
genesis_hash = "0000000000000000000000000000000000000000000000000000000000000000"

abbrev pub empty_digest : String
empty_digest = "e3b0c44298fc1c149afbf4c8996fb92427ae41e4649b934ca495991b7852b855"
