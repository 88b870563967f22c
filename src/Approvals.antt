-- ===== src/Approvals.antt =====
-- The data of src/fieldtrue/approvals.py: signed authorizations, and what the module takes from
-- hashlib, PyNaCl and decimal.
pub mod Verify
pub mod Scope
mod Tests
use inbar.Prelude.{ℕ, String, Option, Bool, true, ◌≡◌, refl, is_hex, string_discrete, ℕ_discrete}
use inbar.Domain.{ℤ-discrete, Timestamp, ExecutionAuthority}

pub data ApprovalSubjectKind : Type 0 where
  test_execution recovery_execution remote_job : ApprovalSubjectKind

unfoldable pub ApprovalSubjectKind-discrete : Discrete ApprovalSubjectKind
ApprovalSubjectKind-discrete test_execution test_execution = yes refl
ApprovalSubjectKind-discrete test_execution recovery_execution = no (λ e. cc)
ApprovalSubjectKind-discrete test_execution remote_job = no (λ e. cc)
ApprovalSubjectKind-discrete recovery_execution test_execution = no (λ e. cc)
ApprovalSubjectKind-discrete recovery_execution recovery_execution = yes refl
ApprovalSubjectKind-discrete recovery_execution remote_job = no (λ e. cc)
ApprovalSubjectKind-discrete remote_job test_execution = no (λ e. cc)
ApprovalSubjectKind-discrete remote_job recovery_execution = no (λ e. cc)
ApprovalSubjectKind-discrete remote_job remote_job = yes refl

-- What `_receipt_body` keeps: all but `receipt_hash` and `signature`. `Float` is Python's float.
pub record ReceiptBody (Float : Type 0) : Type 0 where
  pub approval_id : String
  pub issuer_id : String
  pub subject_kind : ApprovalSubjectKind
  pub subject_sha256 : String
  pub authority : ExecutionAuthority
  pub scope : String
  pub max_risk : Float
  pub max_cost_usd : String
  pub not_before : Timestamp
  pub expires_at : Timestamp
  pub nonce : String
  pub signer_public_key : String

pub ReceiptBody-discrete : {Float : Type 0} → Discrete Float → Discrete (ReceiptBody Float)
ReceiptBody-discrete d = hlevel (d, ℕ_discrete, string_discrete, ℤ-discrete)

pub record ApprovalReceipt (Float : Type 0) : Type 0 where
  pub receipt_body : ReceiptBody Float
  pub open receipt_body use *
  pub receipt_hash : String
  pub signature : String

pub record VerifiedApproval (Float : Type 0) : Type 0 where
  pub approval_id : String
  pub subject_kind : ApprovalSubjectKind
  pub subject_sha256 : String
  pub authority : ExecutionAuthority
  pub scope : String
  pub max_risk : Float
  pub max_cost_usd : String
  pub expires_at : Timestamp
  pub receipt_hash : String
  pub issuer_id : String
  pub signer_public_key : String
  pub verified_at : Timestamp

-- What is computed outside the module: SHA-256 of the canonical JSON of a receipt body's
-- dump, in which the times stand with their offsets, Ed25519, the order of floats, and `Decimal(a) > Decimal(b)`, which has no value where a text is no number.
pub record Primitives (Float SigningKey : Type 0) : Type 0 where
  pub receipt_digest : ReceiptBody Float → String
  pub public_key : SigningKey → String
  pub sign : SigningKey → String → String
  pub verify : (key message signature : String) → Bool
  pub greater : Float → Float → Bool
  pub is_unit : Float → Bool
  pub decimal_greater : String → String → Option Bool

-- The documented behaviour of those.
pub record IsSound {Float SigningKey : Type 0} (prims : Primitives Float SigningKey) : Type 0 where
  pub receipt_digest_hex : (b : ReceiptBody Float) → is_hex 64 (prims.receipt_digest b) ≡ true
  pub public_key_hex : (k : SigningKey) → is_hex 64 (prims.public_key k) ≡ true
  pub sign_hex : (k : SigningKey) (m : String) → is_hex 128 (prims.sign k m) ≡ true
  pub verify_sign :
      (k : SigningKey) (m : String) → prims.verify (prims.public_key k) m (prims.sign k m) ≡ true

pub data ApprovalError : Type 0 where
  malformed_receipt naive_receipt_time empty_window : ApprovalError
  naive_verification_time untrusted_signer receipt_hash_mismatch signature_mismatch : ApprovalError
  not_currently_valid wrong_subject risk_exceeded cost_exceeded invalid_decimal : ApprovalError
