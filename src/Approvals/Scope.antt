-- ===== src/Approvals/Scope.antt =====
-- What a verified approval authorizes: no more than its issuer signed.
use inbar.Prelude.{
  String, some, true, false, ◌≡◌, ◌≢◌, ◌↔◌, ◌≤◌, ◌<◌, ◌⊎◌, inl, inr, refl, sym, ap, ◌∙◌, arith, not,
  string_discrete, dec_lt, dec_le, ok, then-eq-ok, require-eq-ok, require_holds, raise_if,
}
use inbar.Chain.{Collision}
use inbar.Domain.{pos, in_utc, in_utc_same, Timestamp, ExecutionAuthority-discrete}
use inbar.Approvals.{
  ApprovalSubjectKind-discrete, ReceiptBody, ApprovalReceipt, VerifiedApproval, Primitives, IsSound,
  naive_verification_time, untrusted_signer, receipt_hash_mismatch, signature_mismatch,
  not_currently_valid, wrong_subject,
}
use inbar.Approvals.Verify.{
  Expected, verify_approval, verified, issue_approval, validate_receipt, body_signed_by,
  signed_receipt, utc_receipt_body,
}

module _ {Float SigningKey : Type 0} (prims : Primitives Float SigningKey) where
  -- The receipt authorizes the action at the time.
  pub record IsAuthorized (r : ApprovalReceipt Float) (expected : Expected Float)
      (at_time : Timestamp) : Type 0 where
    pub aware : at_time.aware ≡ true
    pub issuer : r.signer_public_key ≡ expected.signer_public_key
    pub hashed : prims.receipt_digest r.receipt_body ≡ r.receipt_hash
    pub signed : prims.verify r.signer_public_key r.receipt_hash r.signature ≡ true
    pub started : r.not_before.instant ≤ at_time.instant
    pub not_expired : at_time.instant < r.expires_at.instant
    pub kind : r.subject_kind ≡ expected.subject_kind
    pub subject : r.subject_sha256 ≡ expected.subject_sha256
    pub authority : r.authority ≡ expected.authority
    pub risk : prims.greater expected.required_risk r.max_risk ≡ false
    pub cost : prims.decimal_greater expected.required_cost_usd r.max_cost_usd ≡ some false

  verify-IsAuthorized :
      (r : ApprovalReceipt Float) (x : Expected Float) (at_time : Timestamp)
      (v : VerifiedApproval Float)
      → verify_approval prims r x at_time ≡ ok v
      → IsAuthorized r x at_time × (v ≡ verified prims r at_time)
  unfolding verify_approval
  verify-IsAuthorized r x at_time v h =
      let (_, h1) = then-eq-ok (raise_if (not at_time.aware) naive_verification_time) h in
      let (issuer, h2) =
        require-eq-ok (string_discrete r.signer_public_key x.signer_public_key) untrusted_signer
          h1 in
      let (hashed, h3) =
        require-eq-ok (string_discrete (prims.receipt_digest r.receipt_body) r.receipt_hash)
          receipt_hash_mismatch h2 in
      let (_, h4) =
        then-eq-ok
          (raise_if (not (prims.verify x.signer_public_key r.receipt_hash r.signature))
            signature_mismatch)
          h3 in
      let (started, h5) =
        require-eq-ok (dec_le r.not_before.instant at_time.instant) not_currently_valid h4 in
      let (not_expired, h6) =
        require-eq-ok (dec_lt at_time.instant r.expires_at.instant) not_currently_valid h5 in
      let (kind, h7) =
        require-eq-ok (ApprovalSubjectKind-discrete r.subject_kind x.subject_kind) wrong_subject
          h6 in
      let (subject, h8) =
        require-eq-ok (string_discrete r.subject_sha256 x.subject_sha256) wrong_subject h7 in
      let (authority, h9) =
        require-eq-ok (ExecutionAuthority-discrete r.authority x.authority) wrong_subject h8 in
      let valid : prims.verify x.signer_public_key r.receipt_hash r.signature ≡ true =
        ground arith in
      (
        record {
          aware = ground arith;
          issuer = issuer;
          hashed = hashed;
          signed = rw issuer valid;
          started = started;
          not_expired = not_expired;
          kind = kind;
          subject = subject;
          authority = authority;
          risk = ground arith;
          cost = ground arith;
        },
        ground arith,
      )

  IsAuthorized-verify :
      (r : ApprovalReceipt Float) (x : Expected Float) (at_time : Timestamp)
      → IsAuthorized r x at_time
      → verify_approval prims r x at_time ≡ ok (verified prims r at_time)
  unfolding verify_approval
  IsAuthorized-verify r x at_time a =
      rw
        (
          a.aware,
          require_holds (string_discrete r.signer_public_key x.signer_public_key) untrusted_signer
              a.issuer,
          require_holds (string_discrete (prims.receipt_digest r.receipt_body) r.receipt_hash)
              receipt_hash_mismatch a.hashed,
          ← a.issuer,
          a.signed,
          require_holds (dec_le r.not_before.instant at_time.instant) not_currently_valid a.started,
          require_holds (dec_lt at_time.instant r.expires_at.instant) not_currently_valid
              a.not_expired,
          require_holds (ApprovalSubjectKind-discrete r.subject_kind x.subject_kind) wrong_subject
              a.kind,
          require_holds (string_discrete r.subject_sha256 x.subject_sha256) wrong_subject a.subject,
          require_holds (ExecutionAuthority-discrete r.authority x.authority) wrong_subject
              a.authority,
          a.risk,
          a.cost,
        )
        refl

  -- An approval verifies exactly if it authorizes the action: signed by the pinned issuer over its
  -- own hash, inside its window, for that kind, subject and authority, and up to its risk and cost.
  -- What is returned is the receipt's content and the time.
  pub verify_approval_iff :
      (r : ApprovalReceipt Float) (x : Expected Float) (at_time : Timestamp)
      (v : VerifiedApproval Float)
      → (verify_approval prims r x at_time ≡ ok v)
        ↔ (IsAuthorized r x at_time × (v ≡ verified prims r at_time))
  verify_approval_iff r x at_time v =
      (verify-IsAuthorized r x at_time v, λ (a, e). IsAuthorized-verify r x at_time a ∙ cc)

  issue-made :
      (key : SigningKey) (body : ReceiptBody Float) (r : ApprovalReceipt Float)
      → issue_approval prims key body ≡ ok r
      → signed_receipt prims key (body_signed_by prims key body) ≡ r
  unfolding issue_approval validate_receipt
  issue-made key body r issued = ground arith

  utc_receipt_body-same :
      (body : ReceiptBody Float)
      → body.not_before.offset ≡ pos 0
      → body.expires_at.offset ≡ pos 0
      → utc_receipt_body prims body ≡ body
  utc_receipt_body-same body from to =
      ap (λ t. record body { not_before = t; expires_at = in_utc body.expires_at })
        (in_utc_same body.not_before from)
      ∙ ap (λ t. record body { expires_at = t }) (in_utc_same body.expires_at to)

  -- A receipt issued for a window given in UTC verifies under the issuer's key for the action it was
  -- issued for, at every time of its window, for a risk and a cost within its bounds.
  pub issue-verify :
      (key : SigningKey) (body : ReceiptBody Float) (r : ApprovalReceipt Float) (risk : Float)
      (cost : String) (at_time : Timestamp)
      → IsSound prims
      → body.not_before.offset ≡ pos 0
      → body.expires_at.offset ≡ pos 0
      → issue_approval prims key body ≡ ok r
      → at_time.aware ≡ true
      → body.not_before.instant ≤ at_time.instant
      → at_time.instant < body.expires_at.instant
      → prims.greater risk body.max_risk ≡ false
      → prims.decimal_greater cost body.max_cost_usd ≡ some false
      → verify_approval prims r
          (record {
            signer_public_key = prims.public_key key;
            subject_kind = body.subject_kind;
            subject_sha256 = body.subject_sha256;
            authority = body.authority;
            required_risk = risk;
            required_cost_usd = cost;
          })
          at_time
        ≡ ok (verified prims r at_time)
  issue-verify key body r risk cost at_time sound from to issued aware started not_expired small
        cheap =
      let mine = body_signed_by prims key body in
      rw (← issue-made key body r issued) (
        IsAuthorized-verify (signed_receipt prims key mine) _ at_time (record {
          aware = aware;
          issuer = refl;
          hashed = sym (ap prims.receipt_digest (utc_receipt_body-same mine from to));
          signed = sound.verify_sign key _;
          started = started;
          not_expired = not_expired;
          kind = refl;
          subject = refl;
          authority = refl;
          risk = small;
          cost = cheap;
        }))

  -- A receipt issued for a window with an end whose offset is not that of UTC verifies, for whatever
  -- action and time, only if SHA-256 collides on two receipt bodies.
  pub issue_offset :
      (key : SigningKey) (body : ReceiptBody Float) (r : ApprovalReceipt Float) (x : Expected Float)
      (at_time : Timestamp) (v : VerifiedApproval Float)
      → (body.not_before.offset ≢ pos 0) ⊎ (body.expires_at.offset ≢ pos 0)
      → issue_approval prims key body ≡ ok r
      → verify_approval prims r x at_time ≡ ok v
      → Collision prims.receipt_digest
  issue_offset key body r x at_time v apart issued h =
      let mine = body_signed_by prims key body in
      let (a, _) =
        verify-IsAuthorized (signed_receipt prims key mine) x at_time v
          (rw (issue-made key body r issued) h) in
      let moved : mine ≢ utc_receipt_body prims mine = λ e. elim apart [
        | inl from ↦ from (ap (λ (b : ReceiptBody Float). b.not_before.offset) e)
        | inr to ↦ to (ap (λ (b : ReceiptBody Float). b.expires_at.offset) e)
      ] in
      (mine, utc_receipt_body prims mine, moved, a.hashed)

  -- Two approvals that verify with one receipt hash grant the same: their bodies are one, or SHA-256
  -- collides on two receipt bodies.
  pub verify_approval_binds :
      Discrete (ReceiptBody Float)
      → (r s : ApprovalReceipt Float) (x y : Expected Float) (t u : Timestamp)
        (v w : VerifiedApproval Float)
      → verify_approval prims r x t ≡ ok v
      → verify_approval prims s y u ≡ ok w
      → v.receipt_hash ≡ w.receipt_hash
      → (r.receipt_body ≡ s.receipt_body) ⊎ Collision prims.receipt_digest
  verify_approval_binds dec r s x y t u v w hv hw same =
      let (a, ev) = verify-IsAuthorized r x t v hv in
      let (b, ew) = verify-IsAuthorized s y u w hw in
      let one : r.receipt_hash ≡ s.receipt_hash =
        sym (ap (λ (z : VerifiedApproval Float). z.receipt_hash) ev)
        ∙ (same ∙ ap (λ (z : VerifiedApproval Float). z.receipt_hash) ew) in
      elim (dec r.receipt_body s.receipt_body) [
        | yes p ↦ inl p
        | no n ↦ inr (r.receipt_body, s.receipt_body, n, a.hashed ∙ (one ∙ sym b.hashed))
      ]
