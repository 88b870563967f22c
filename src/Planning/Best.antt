-- ===== src/Planning/Best.antt =====
-- The choice of `select_discriminating_test` is the best of the eligible candidates.
use mathlib.Core.List.{append_assoc}
use inbar.Prelude.{
  String, List, [], ◌∷◌, ◌++◌, true, false, ◌≡◌, refl, sym, ◌∙◌, subst, arith, All, Bool-cases, inl,
  inr, ok, err, bind-eq-ok,
}
use inbar.Approvals
use inbar.Planning.{
  DiscriminatingTest, SafetyEnvelope, PlannerWeights, SelectedTest, HypothesisSet, Floats,
  IsOrdered, no_eligible_test,
}
use inbar.Planning.Information.{expected_information_gain_bits}
use inbar.Planning.Select.{Digests, ApprovalArguments, Scored, eligible, score, precedes}
use inbar.Sorting.{sort, sort-All, sort-first}
use inbar.Planning.Choice.{
  priors, score_all, choose, selection, select_discriminating_test, validate_selection,
}
use inbar.Planning.Safety.{precedes-irreflexive, precedes-transitive}

module _ {Float Extension SigningKey : Type 0} (floats : Floats Float)
    (digests : Digests Float Extension) (prims : inbar.Approvals.Primitives Float SigningKey)
    (hypotheses : HypothesisSet Float) (weights : PlannerWeights Float)
    (envelope : SafetyEnvelope Float) (args : ApprovalArguments Float Extension) where
  abbrev IsEligible : DiscriminatingTest Float → Type 0
  IsEligible c = eligible floats digests prims c envelope args ≡ true

  abbrev IsScore : DiscriminatingTest Float → Scored Float → Type 0
  IsScore c t = score floats digests prims (priors hypotheses.hypotheses) weights c ≡ ok t

  -- The score of an eligible candidate.
  pub record IsScored (candidates : List (DiscriminatingTest Float)) (t : Scored Float)
      : Type 0 where
    pub before : List (DiscriminatingTest Float)
    pub after : List (DiscriminatingTest Float)
    pub place : candidates ≡ before ++ t.test ∷ after
    pub is_eligible : IsEligible t.test
    pub scored_as : IsScore t.test t

  -- `t` is the score of an eligible candidate, carries information, and no eligible candidate comes
  -- before it.
  pub record IsBest (candidates : List (DiscriminatingTest Float)) (t : Scored Float) : Type 0 where
    pub scored : IsScored candidates t
    pub informative : floats.at_most t.gain floats.zero ≡ false
    pub first :
        All
          (λ c.
            IsEligible c
            → (u : Scored Float) × IsScore c u × (precedes floats digests prims u t ≡ false))
          candidates

  score-test : (c : DiscriminatingTest Float) (t : Scored Float) → IsScore c t → t.test ≡ c
  unfolding score
  score-test c t h =
      let (gain, known, rest) =
        bind-eq-ok
          (expected_information_gain_bits floats (priors hypotheses.hypotheses) c.test_body) _ h in
      ground arith

  abbrev Scores : List (DiscriminatingTest Float) → List (Scored Float) → Type 0
  Scores cs ts =
      score_all floats digests prims (priors hypotheses.hypotheses) weights envelope args cs ≡ ok ts

  score_all-IsScored :
      (before cs candidates : List (DiscriminatingTest Float)) (ts : List (Scored Float))
      → candidates ≡ before ++ cs
      → Scores cs ts
      → All (IsScored candidates) ts
  unfolding score_all
  score_all-IsScored before [] candidates ts e h =
      let same : [] ≡ ts = ground arith in rw (← same) tt
  score_all-IsScored before (c ∷ cs) candidates ts e h =
      let later : candidates ≡ (before ++ c ∷ []) ++ cs =
        e ∙ sym (append_assoc before (c ∷ []) cs) in
      elim (Bool-cases (eligible floats digests prims c envelope args)) [
        | inr out ↦ score_all-IsScored (before ++ c ∷ []) cs candidates ts later (rw out at h)
        | inl in_scope ↦
            let (t, one, h1) =
              bind-eq-ok (score floats digests prims (priors hypotheses.hypotheses) weights c) _
                (rw in_scope at h) in
            let (rest, others, h2) =
              bind-eq-ok
                (score_all floats digests prims (priors hypotheses.hypotheses) weights envelope args
                  cs)
                _ h1 in
            let same : t ∷ rest ≡ ts = ground arith in
            let test = score-test c t one in
            rw (← same) (
              record {
                before = before;
                after = cs;
                place = rw test e;
                is_eligible = rw test in_scope;
                scored_as = rw test one;
              },
              score_all-IsScored (before ++ c ∷ []) cs candidates rest later others,
            )
      ]

  score_all-each :
      (Q : Scored Float → Type 0) (cs : List (DiscriminatingTest Float)) (ts : List (Scored Float))
      → Scores cs ts
      → All Q ts
      → All (λ c. IsEligible c → (u : Scored Float) × IsScore c u × Q u) cs
  unfolding score_all
  score_all-each Q [] ts h q = tt
  score_all-each Q (c ∷ cs) ts h q =
      elim (Bool-cases (eligible floats digests prims c envelope args)) [
        | inr out ↦ (λ yes_it_is. cc, score_all-each Q cs ts (rw out at h) q)
        | inl in_scope ↦
            let (t, one, h1) =
              bind-eq-ok (score floats digests prims (priors hypotheses.hypotheses) weights c) _
                (rw in_scope at h) in
            let (rest, others, h2) =
              bind-eq-ok
                (score_all floats digests prims (priors hypotheses.hypotheses) weights envelope args
                  cs)
                _ h1 in
            let same : ts ≡ t ∷ rest = ground arith in
            let q' : All Q (t ∷ rest) = subst (All Q) same q in
            (λ _. (t, one, q'.0), score_all-each Q cs rest others q'.1)
      ]

  module _ (ordered : IsOrdered floats) where
    choose-IsBest :
        (candidates : List (DiscriminatingTest Float)) (planner_id : String)
        (ts sorted : List (Scored Float)) (s : SelectedTest Float)
        → Scores candidates ts
        → sort (precedes floats digests prims) [] ts ≡ sorted
        → choose floats digests prims hypotheses envelope planner_id sorted ≡ ok s
        → (t : Scored Float) × IsBest candidates t
          × (s ≡ selection floats digests prims hypotheses envelope planner_id t)
    unfolding choose validate_selection
    choose-IsBest candidates planner_id ts [] s h e k = cc
    choose-IsBest candidates planner_id ts (t ∷ others) s h e k =
        let all =
          sort-All (precedes floats digests prims) (IsScored candidates) [] ts tt
            (score_all-IsScored [] candidates candidates ts refl h) in
        let least =
          (sort-first (precedes floats digests prims)
            (precedes-irreflexive floats digests prims ordered)
            (precedes-transitive floats digests prims ordered) [] [] ts t others refl e).1 in
        (
          t,
          record {
            scored = (subst (All (IsScored candidates)) e all).0;
            informative = ground arith;
            first =
                score_all-each (λ u. precedes floats digests prims u t ≡ false) candidates ts h
                  least;
          },
          ground arith,
        )

    -- A test that is selected is one of the candidates, eligible, and of positive information; no
    -- eligible candidate comes before it in the order of utility, cost, risk and identifier; and
    -- the result states that candidate's gain, denominator, utility and hash.
    pub select-IsBest :
        (candidates : List (DiscriminatingTest Float)) (planner_id : String)
        (s : SelectedTest Float)
        → select_discriminating_test floats digests prims hypotheses candidates envelope planner_id
            weights args
          ≡ ok s
        → (t : Scored Float) × IsBest candidates t
          × (s ≡ selection floats digests prims hypotheses envelope planner_id t)
    unfolding select_discriminating_test
    select-IsBest candidates planner_id s h =
        let (ts, scored, chosen) =
          bind-eq-ok
            (score_all floats digests prims (priors hypotheses.hypotheses) weights envelope args
              candidates)
            _ h in
        choose-IsBest candidates planner_id ts (sort (precedes floats digests prims) [] ts) s scored
          refl chosen

  none_scored :
      (cs : List (DiscriminatingTest Float))
      → All (λ c. eligible floats digests prims c envelope args ≡ false) cs
      → Scores cs []
  unfolding score_all
  none_scored [] h = refl
  none_scored (c ∷ cs) (out, h) = rw out (none_scored cs h)

  -- Where no candidate is eligible nothing is selected: the planner fails closed.
  pub select_discriminating_test_refuses :
      (candidates : List (DiscriminatingTest Float)) (planner_id : String)
      → All (λ c. eligible floats digests prims c envelope args ≡ false) candidates
      → select_discriminating_test floats digests prims hypotheses candidates envelope planner_id
          weights args
        ≡ err no_eligible_test
  unfolding select_discriminating_test choose sort
  select_discriminating_test_refuses candidates planner_id h = rw (none_scored candidates h) refl
