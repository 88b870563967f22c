-- ===== src/Planning/Information.antt =====
-- Entropy, information gain and the posterior of src/fieldtrue/planning.py.
use inbar.Prelude.{
  is_subset, String, List, [], ◌∷◌, map, Bool, true, false, not, ◌&&◌, ◌||◌, ◌≡◌, refl, ap, arith,
  string_discrete, if◌then◌else◌, Result, ok, err, ◌>>=◌, ◌>>◌, raise_if, bind-eq-ok, then-eq-ok,
  ◌∙◌,
}
use inbar.Planning.{
  Distribution, TestOutcomeModel, TestBody, Floats, PlanningError, empty_distribution,
  not_finite_or_negative, no_mass, hypothesis_mismatch, missing_hypothesis, no_outcome_model,
  unknown_or_duplicate_outcome,
}

-- `set(left) == set(right)`
abbrev pub same_set : List String → List String → Bool
same_set xs ys = is_subset xs ys && is_subset ys xs

module _ {Float : Type 0} where
  abbrev pub hypothesis_ids : Distribution Float → List String
  hypothesis_ids = map (λ (p : String × Float). p.0)

  abbrev pub values : Distribution Float → List Float
  values = map (λ (p : String × Float). p.1)

  -- `distribution[hypothesis_id]`, or KeyError
  unfoldable pub probability_of : Distribution Float → String → Result PlanningError Float
  probability_of [] h = err missing_hypothesis
  probability_of ((k, v) ∷ d) h =
      let rest = probability_of d h in elim (string_discrete k h) [ yes _ ↦ ok v | no _ ↦ rest ]

module _ {Float : Type 0} (floats : Floats Float) where
  any_unusable : List Float → Bool
  any_unusable [] = false
  any_unusable (v ∷ vs) = floats.less v floats.zero || not (floats.is_finite v) || any_unusable vs

  abbrev scaled : Float → Distribution Float → Distribution Float
  scaled total [] = []
  scaled total ((k, v) ∷ d) = (k, floats.divide v total) ∷ scaled total d

  abbrev is_empty : Distribution Float → Bool
  is_empty [] = true
  is_empty (p ∷ d) = false

  -- `_normalized`
  unfoldable pub normalized : Distribution Float → Result PlanningError (Distribution Float)
  unfolding any_unusable
  normalized d = do
    raise_if (is_empty d) empty_distribution
    raise_if (any_unusable (values d)) not_finite_or_negative
    let total = floats.sum (values d)
    raise_if (floats.at_most total floats.zero) no_mass
    ok (scaled total d)

  abbrev surprise : List Float → List Float
  surprise [] = []
  surprise (v ∷ vs) =
      let rest = surprise vs in
      if floats.less floats.zero v then floats.multiply v (floats.log2 v) ∷ rest else rest

  unfoldable pub entropy_bits : Distribution Float → Result PlanningError Float
  entropy_bits d = do n ← normalized d; ok (floats.negate (floats.sum (surprise (values n))))

  -- Prior times likelihood, for every hypothesis of the prior.
  unfoldable pub joint :
      Distribution Float → Distribution Float → Result PlanningError (Distribution Float)
  joint [] likelihood = ok []
  joint ((k, v) ∷ prior) likelihood = do
    l ← probability_of likelihood k
    rest ← joint prior likelihood
    ok ((k, floats.multiply v l) ∷ rest)

  -- The loop over the outcomes; an outcome of no probability is skipped.
  unfoldable pub posterior_entropy :
      Distribution Float → Float → List (TestOutcomeModel Float) → Result PlanningError Float
  posterior_entropy prior total [] = ok total
  posterior_entropy prior total (outcome ∷ outcomes) = do
    weights ← joint prior outcome.probability_by_hypothesis
    let p = floats.sum (values weights)
    added ←
        if floats.at_most p floats.zero
        then ok total
        else (entropy_bits (scaled p weights) >>= λ h. ok (floats.add total (floats.multiply p h)))
    posterior_entropy prior added outcomes

  abbrev modeled : TestBody Float → Result PlanningError (List String)
  modeled test = elim test.outcome_model [
    | [] ↦ err no_outcome_model
    | outcome ∷ _ ↦ ok (hypothesis_ids outcome.probability_by_hypothesis)
  ]

  -- `max(0.0, gain)`
  abbrev at_least_zero : Float → Float
  at_least_zero gain = if floats.less floats.zero gain then gain else floats.zero

  unfoldable pub expected_information_gain_bits :
      Distribution Float → TestBody Float → Result PlanningError Float
  expected_information_gain_bits posterior test = do
    prior ← normalized posterior
    ids ← modeled test
    raise_if (not (same_set ids (hypothesis_ids prior))) hypothesis_mismatch
    after ← posterior_entropy prior floats.zero test.outcome_model
    before ← entropy_bits prior
    ok (at_least_zero (floats.subtract before after))

  abbrev pub matching : String → List (TestOutcomeModel Float) → List (TestOutcomeModel Float)
  matching outcome_id [] = []
  matching outcome_id (o ∷ os) =
      let rest = matching outcome_id os in
      elim (string_discrete o.outcome_id outcome_id) [ yes _ ↦ o ∷ rest | no _ ↦ rest ]

  -- `if len(matches) != 1: raise`
  abbrev pub the_only :
      List (TestOutcomeModel Float) → Result PlanningError (TestOutcomeModel Float)
  the_only (o ∷ []) = ok o
  the_only _ = err unknown_or_duplicate_outcome

  unfoldable pub posterior_after_observation :
      Distribution Float → TestBody Float → String → Result PlanningError (Distribution Float)
  posterior_after_observation posterior test outcome_id = do
    prior ← normalized posterior
    outcome ← the_only (matching outcome_id test.outcome_model)
    let likelihood = outcome.probability_by_hypothesis
    raise_if (not (same_set (hypothesis_ids likelihood) (hypothesis_ids prior))) hypothesis_mismatch
    weights ← joint prior likelihood
    normalized weights

  scaled-ids :
      (total : Float) (d : Distribution Float) → hypothesis_ids (scaled total d) ≡ hypothesis_ids d
  scaled-ids total [] = refl
  scaled-ids total ((k, v) ∷ d) = ap (λ ks. k ∷ ks) (scaled-ids total d)

  normalized-ids :
      (d n : Distribution Float) → normalized d ≡ ok n → hypothesis_ids n ≡ hypothesis_ids d
  unfolding normalized
  normalized-ids d n h =
      let same : scaled (floats.sum (values d)) d ≡ n = ground arith in
      rw (← same) (scaled-ids (floats.sum (values d)) d)

  joint-ids :
      (prior likelihood w : Distribution Float)
      → joint prior likelihood ≡ ok w
      → hypothesis_ids w ≡ hypothesis_ids prior
  unfolding joint
  joint-ids [] likelihood w h = let same : [] ≡ w = ground arith in rw (← same) refl
  joint-ids ((k, v) ∷ prior) likelihood w h =
      let (l, found, h1) = bind-eq-ok (probability_of likelihood k) _ h in
      let (rest, more, h2) = bind-eq-ok (joint prior likelihood) _ h1 in
      let same : (k, floats.multiply v l) ∷ rest ≡ w = ground arith in
      rw (← same) (ap (λ ks. k ∷ ks) (joint-ids prior likelihood rest more))

  -- A posterior is about the hypotheses it was given, in the same order: an observation neither
  -- drops a hypothesis nor adds one.
  pub posterior_after_observation-ids :
      (posterior : Distribution Float) (test : TestBody Float) (outcome_id : String)
      (result : Distribution Float)
      → posterior_after_observation posterior test outcome_id ≡ ok result
      → hypothesis_ids result ≡ hypothesis_ids posterior
  unfolding posterior_after_observation
  posterior_after_observation-ids posterior test outcome_id result h =
      let (prior, one, h1) = bind-eq-ok (normalized posterior) _ h in
      let (outcome, only, h2) =
        bind-eq-ok (the_only (matching outcome_id test.outcome_model)) _ h1 in
      let likelihood = outcome.probability_by_hypothesis in
      let (_, h3) =
        then-eq-ok
          (raise_if (not (same_set (hypothesis_ids likelihood) (hypothesis_ids prior)))
            hypothesis_mismatch)
          h2 in
      let (weights, mass, last) = bind-eq-ok (joint prior likelihood) _ h3 in
      normalized-ids weights result last
      ∙ (joint-ids prior likelihood weights mass ∙ normalized-ids posterior prior one)
