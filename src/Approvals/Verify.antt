-- ===== src/Approvals/Verify.antt =====
-- `issue_approval`, `verify_approval` and the receipt's validator of src/fieldtrue/approvals.py.
use inbar.Prelude.{
  String, Option, none, some, Bool, not, ◌&&◌, ◌==◌, codes, length, is_hex, is_identifier, is_cost,
  string_discrete, dec_lt, dec_le, Result, ok, err, Check, ◌>>◌, raise_if, require, forbid,
}
use inbar.Domain.{Timestamp, in_utc, ExecutionAuthority, ExecutionAuthority-discrete}
use inbar.Approvals.{
  ApprovalSubjectKind, ApprovalSubjectKind-discrete, ReceiptBody, ApprovalReceipt, VerifiedApproval,
  Primitives, ApprovalError, malformed_receipt, naive_receipt_time, empty_window,
  naive_verification_time, untrusted_signer, receipt_hash_mismatch, signature_mismatch,
  not_currently_valid, wrong_subject, risk_exceeded, cost_exceeded, invalid_decimal,
}

-- The action for which an approval is asked.
pub record Expected (Float : Type 0) : Type 0 where
  pub signer_public_key : String
  pub subject_kind : ApprovalSubjectKind
  pub subject_sha256 : String
  pub authority : ExecutionAuthority
  pub required_risk : Float
  pub required_cost_usd : String

module _ {Float SigningKey : Type 0} (prims : Primitives Float SigningKey) where
  -- The patterns of the fields.
  unfoldable pub well_formed : ApprovalReceipt Float → Bool
  well_formed r =
      is_identifier r.approval_id
      && is_identifier r.issuer_id
      && is_hex 64 r.subject_sha256
      && not (length (codes r.scope) == 0)
      && prims.is_unit r.max_risk
      && is_cost r.max_cost_usd
      && is_hex 64 r.nonce
      && is_hex 64 r.signer_public_key
      && is_hex 64 r.receipt_hash
      && is_hex 128 r.signature

  -- `ApprovalReceipt.model_validate`
  unfoldable pub validate_receipt :
      ApprovalReceipt Float → Result ApprovalError (ApprovalReceipt Float)
  validate_receipt r = do
    raise_if (not (well_formed r)) malformed_receipt
    raise_if (not r.not_before.aware) naive_receipt_time
    raise_if (not r.expires_at.aware) naive_receipt_time
    forbid (dec_le r.expires_at.instant r.not_before.instant) empty_window
    ok r

  -- The dictionary that is hashed: `canonical_json` writes its times in UTC.
  abbrev pub utc_receipt_body : ReceiptBody Float → ReceiptBody Float
  utc_receipt_body body = record body {
    not_before = in_utc body.not_before;
    expires_at = in_utc body.expires_at;
  }

  -- The hash is that of the dictionary, and the receipt has the times that were given.
  abbrev pub signed_receipt : SigningKey → ReceiptBody Float → ApprovalReceipt Float
  signed_receipt key body = record {
    receipt_body = body;
    receipt_hash = prims.receipt_digest (utc_receipt_body body);
    signature = prims.sign key (prims.receipt_digest (utc_receipt_body body));
  }

  -- The arguments of `issue_approval` are the body; the signer is the key's.
  abbrev pub body_signed_by : SigningKey → ReceiptBody Float → ReceiptBody Float
  body_signed_by key body = record {
    approval_id = body.approval_id;
    issuer_id = body.issuer_id;
    subject_kind = body.subject_kind;
    subject_sha256 = body.subject_sha256;
    authority = body.authority;
    scope = body.scope;
    max_risk = body.max_risk;
    max_cost_usd = body.max_cost_usd;
    not_before = body.not_before;
    expires_at = body.expires_at;
    nonce = body.nonce;
    signer_public_key = prims.public_key key;
  }

  unfoldable pub issue_approval :
      SigningKey → ReceiptBody Float → Result ApprovalError (ApprovalReceipt Float)
  issue_approval key body = validate_receipt (signed_receipt key (body_signed_by key body))

  abbrev pub verified : ApprovalReceipt Float → Timestamp → VerifiedApproval Float
  verified r at_time = record {
    approval_id = r.approval_id;
    subject_kind = r.subject_kind;
    subject_sha256 = r.subject_sha256;
    authority = r.authority;
    scope = r.scope;
    max_risk = r.max_risk;
    max_cost_usd = r.max_cost_usd;
    expires_at = r.expires_at;
    receipt_hash = r.receipt_hash;
    issuer_id = r.issuer_id;
    signer_public_key = r.signer_public_key;
    verified_at = at_time;
  }

  -- `if Decimal(required) > Decimal(maximum): raise`
  abbrev pub check_cost : Option Bool → Check ApprovalError
  check_cost none = err invalid_decimal
  check_cost (some exceeds) = raise_if exceeds cost_exceeded

  -- `at` has been read from the clock where the caller gives none.
  unfoldable pub verify_approval :
      ApprovalReceipt Float
      → Expected Float
      → Timestamp
      → Result ApprovalError (VerifiedApproval Float)
  verify_approval r expected at_time = do
    raise_if (not at_time.aware) naive_verification_time
    require (string_discrete r.signer_public_key expected.signer_public_key) untrusted_signer
    require (string_discrete (prims.receipt_digest r.receipt_body) r.receipt_hash)
        receipt_hash_mismatch
    raise_if (not (prims.verify expected.signer_public_key r.receipt_hash r.signature))
        signature_mismatch
    require (dec_le r.not_before.instant at_time.instant) not_currently_valid
    require (dec_lt at_time.instant r.expires_at.instant) not_currently_valid
    require (ApprovalSubjectKind-discrete r.subject_kind expected.subject_kind) wrong_subject
    require (string_discrete r.subject_sha256 expected.subject_sha256) wrong_subject
    require (ExecutionAuthority-discrete r.authority expected.authority) wrong_subject
    raise_if (prims.greater expected.required_risk r.max_risk) risk_exceeded
    check_cost (prims.decimal_greater expected.required_cost_usd r.max_cost_usd)
    ok (verified r at_time)
