-- ===== src/Approvals/Tests.antt =====
-- Runs of the approvals at small inputs, and the theorems at those inputs.
use inbar.Prelude.{
  ℕ, ap, String, some, ◌≡◌, ◌≢◌, ◌↔◌, ◌⊎◌, inl, refl, arith, true, false, ok, err, is_hex,
  is_identifier, is_cost, ltb, leb, string_discrete, ℕ_discrete, dec_lt, dec_le,
}
use inbar.Chain.{Collision}
use inbar.Integer.{pos_part}
use inbar.Domain.{pos, Timestamp, replay, ExecutionAuthority-discrete}
use inbar.Approvals.{
  test_execution, ApprovalSubjectKind-discrete, ReceiptBody, ReceiptBody-discrete, ApprovalReceipt,
  Primitives, IsSound, not_currently_valid, risk_exceeded,
}
use inbar.Approvals.Verify.{
  Expected, verify_approval, issue_approval, validate_receipt, well_formed, signed_receipt,
  verified,
}
use inbar.Approvals.Scope.{
  IsAuthorized, verify_approval_iff, issue-verify, issue_offset, verify_approval_binds,
}

abbrev ones : String
ones = "1111111111111111111111111111111111111111111111111111111111111111"

-- Risks are thousandths here, and no cost exceeds another.
abbrev toy : Primitives ℕ Unit
toy = record {
  receipt_digest = λ b. ones;
  public_key = λ k. ones;
  sign = λ k m.
      "33333333333333333333333333333333333333333333333333333333333333333333333333333333333333333333333333333333333333333333333333333333";
  verify = λ k m s. true;
  greater = λ a b. ltb b a;
  is_unit = λ a. leb a 1000;
  decimal_greater = λ a b. some false;
}

toy-IsSound : IsSound toy
unfolding is_hex
toy-IsSound = record {
  receipt_digest_hex = λ b. refl;
  public_key_hex = λ k. refl;
  sign_hex = λ k m. refl;
  verify_sign = λ k m. refl;
}

abbrev at_time : ℕ → Timestamp
at_time n = record { aware = true; instant = n; offset = pos 0 }

abbrev body : ReceiptBody ℕ
body = record {
  approval_id = "approval-1";
  issuer_id = "owner";
  subject_kind = test_execution;
  subject_sha256 = ones;
  authority = replay;
  scope = "one replay";
  max_risk = 100;
  max_cost_usd = "5";
  not_before = at_time 10;
  expires_at = at_time 20;
  nonce = ones;
  signer_public_key = ones;
}

abbrev receipt : ApprovalReceipt ℕ
receipt = signed_receipt toy tt body

abbrev ask : ℕ → Expected ℕ
ask risk = record {
  signer_public_key = ones;
  subject_kind = test_execution;
  subject_sha256 = ones;
  authority = replay;
  required_risk = risk;
  required_cost_usd = "0";
}

program : Unit {0}
unfolding issue_approval validate_receipt well_formed verify_approval is_hex is_identifier is_cost
    string_discrete dec_lt dec_le ApprovalSubjectKind-discrete ExecutionAuthority-discrete
program = tt

issued : issue_approval toy tt body ≡ ok receipt
unfolding program
issued = refl

accepted :
    verify_approval toy receipt (ask 100) (at_time 19) ≡ ok (verified toy receipt (at_time 19))
unfolding program
accepted = refl

-- The window is open at its end, and a risk above the bound is refused.
refused :
    (verify_approval toy receipt (ask 100) (at_time 20) ≡ err not_currently_valid)
    × (verify_approval toy receipt (ask 101) (at_time 19) ≡ err risk_exceeded)
unfolding program
refused = (refl, refl)

verify_approval_iff_example :
    (verify_approval toy receipt (ask 100) (at_time 19) ≡ ok (verified toy receipt (at_time 19)))
    ↔ (IsAuthorized toy receipt (ask 100) (at_time 19)
        × (verified toy receipt (at_time 19) ≡ verified toy receipt (at_time 19)))
verify_approval_iff_example =
    verify_approval_iff toy receipt (ask 100) (at_time 19) (verified toy receipt (at_time 19))

issue-verify_example :
    verify_approval toy receipt (ask 100) (at_time 19) ≡ ok (verified toy receipt (at_time 19))
issue-verify_example =
    issue-verify toy tt body receipt 100 "0" (at_time 19) toy-IsSound refl refl issued refl
      (omega arith) (omega arith) refl refl

-- The same window, given two hours east of UTC.
abbrev moved : ReceiptBody ℕ
moved = record body { not_before = record { aware = true; instant = 10; offset = pos 120 } }

issued_moved : issue_approval toy tt moved ≡ ok (signed_receipt toy tt moved)
unfolding program
issued_moved = refl

accepted_moved :
    verify_approval toy (signed_receipt toy tt moved) (ask 100) (at_time 19)
    ≡ ok (verified toy (signed_receipt toy tt moved) (at_time 19))
unfolding program
accepted_moved = refl

offset_moved : moved.not_before.offset ≢ pos 0
offset_moved e = absurd (omega (arith, ap pos_part e))

issue_offset_example : Collision toy.receipt_digest
issue_offset_example =
    issue_offset toy tt moved (signed_receipt toy tt moved) (ask 100) (at_time 19)
      (verified toy (signed_receipt toy tt moved) (at_time 19)) (inl offset_moved) issued_moved
      accepted_moved

verify_approval_binds_example : (body ≡ body) ⊎ Collision toy.receipt_digest
verify_approval_binds_example =
    verify_approval_binds toy (ReceiptBody-discrete ℕ_discrete) receipt receipt (ask 100) (ask 100)
      (at_time 19) (at_time 19) (verified toy receipt (at_time 19))
      (verified toy receipt (at_time 19)) accepted accepted refl
