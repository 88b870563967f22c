-- ===== src/Planning/Safety.antt =====
-- What `select_discriminating_test` may choose: an eligible candidate, the first in the order, and on
-- the testbed only one that a signed approval covers.
use inbar.Prelude.{
  String, some, Bool, true, false, ◌&&◌, ◌||◌, ◌≡◌, refl, sym, ◌∙◌, arith, ltb, ◌==◌, codes,
}
use inbar.Approvals.{ApprovalReceipt}
use inbar.Approvals
use inbar.Approvals.Scope.{IsAuthorized}
use inbar.Planning.{DiscriminatingTest, SafetyEnvelope, Floats, IsOrdered}
use inbar.Planning.Select.{Digests, ApprovalArguments, Scored, expected, precedes}
use inbar.Sorting.{codes_less, codes_less-irreflexive, codes_less-transitive}

module _ {Float Extension SigningKey : Type 0} (floats : Floats Float)
    (digests : Digests Float Extension) (prims : inbar.Approvals.Primitives Float SigningKey) where
  module _ (ordered : IsOrdered floats) where
    -- The order of the keys, read off the ranks of the floats.
    abbrev rank_precedes : Scored Float → Scored Float → Bool
    rank_precedes a b =
        let rank = ordered.rank in
        ltb (rank a.negated_utility) (rank b.negated_utility)
        || (rank a.negated_utility == rank b.negated_utility)
          && (ltb (rank a.test.cost_units) (rank b.test.cost_units)
              || (rank a.test.cost_units == rank b.test.cost_units)
                && (ltb (rank a.test.risk) (rank b.test.risk)
                    || (rank a.test.risk == rank b.test.risk)
                      && codes_less (codes a.test.test_id) (codes b.test.test_id)))

    precedes-rank : (a b : Scored Float) → precedes floats digests prims a b ≡ rank_precedes a b
    unfolding precedes
    precedes-rank a b =
        rw
          (
            ordered.less_rank a.negated_utility b.negated_utility,
            ordered.equal_rank a.negated_utility b.negated_utility,
            ordered.less_rank a.test.cost_units b.test.cost_units,
            ordered.equal_rank a.test.cost_units b.test.cost_units,
            ordered.less_rank a.test.risk b.test.risk,
            ordered.equal_rank a.test.risk b.test.risk,
          )
          refl

    pub precedes-irreflexive : (a : Scored Float) → precedes floats digests prims a a ≡ false
    precedes-irreflexive a =
        rw (precedes-rank a a) (ground (arith, codes_less-irreflexive (codes a.test.test_id)))

    pub precedes-transitive :
        (a b c : Scored Float)
        → precedes floats digests prims a b ≡ true
        → precedes floats digests prims b c ≡ true
        → precedes floats digests prims a c ≡ true
    precedes-transitive a b c h k =
        let h' : rank_precedes a b ≡ true = sym (precedes-rank a b) ∙ h in
        let k' : rank_precedes b c ≡ true = sym (precedes-rank b c) ∙ k in
        rw (precedes-rank a c) (
          ground (
            arith,
            h',
            k',
            codes_less-transitive (codes a.test.test_id) (codes b.test.test_id)
                (codes c.test.test_id),
          ))

  -- A signed approval of the test within the envelope.
  pub record IsApproved (c : DiscriminatingTest Float) (envelope : SafetyEnvelope Float)
      (args : ApprovalArguments Float Extension) : Type 0 where
    pub receipt : ApprovalReceipt Float
    pub signer : String
    pub given : args.approval_receipt ≡ some receipt
    pub pinned : args.expected_approval_signer ≡ some signer
    pub authorized :
        IsAuthorized prims receipt
          (expected floats digests prims c envelope args.approval_subject_extension signer)
          args.approval_time
    pub test_names_receipt : c.approval_receipt_hash ≡ some receipt.receipt_hash
    pub envelope_names_receipt : envelope.approval_receipt_hash ≡ some receipt.receipt_hash
