-- ===== src/Validation/Observations.antt =====
-- The validator of a mission observation in src/fieldtrue/domain.py: the blockers that a validation
-- run found, against those that it had to find.
use mathlib.Core.HLevel.{hedberg}
use mathlib.Core.List.{not-mem-nil, mem-cons_self}
use inbar.Prelude.{
  all_distinct, is_subset, String, List, [], ◌∷◌, Mem, dec_mem, Mem-cases, Bool, true, false, not,
  ◌&&◌, ◌||◌, ◌==◌, ◌≡◌, ◌↔◌, ◌⊎◌, inl, inr, refl, sym, ◌∙◌, subst, arith, codes, length,
  is_identifier, string_discrete, All, ok, Check, ◌>>◌, raise_if,
}
use inbar.Sorting.{sort, sort-empty, codes_less}
use inbar.Validation.{
  EngineeringValidationMissionObservation, ValidationError, malformed_field, duplicate_values,
  blocker_not_preserved, unregistered_blocker, wrong_missing, wrong_unexpected,
}

-- `set(values) - set(others)`, of distinct values
unfoldable pub difference : List String → List String → List String
difference [] ys = []
difference (x ∷ xs) ys =
    let rest = difference xs ys in
    elim (dec_mem string_discrete x ys) [ yes _ ↦ rest | no _ ↦ x ∷ rest ]

unfoldable pub sorted_texts : List String → List String
sorted_texts xs = sort (λ x y. codes_less (codes x) (codes y)) [] xs

unfoldable pub same_texts : List String → List String → Bool
same_texts [] [] = true
same_texts (x ∷ xs) (y ∷ ys) =
    let rest = same_texts xs ys in elim (string_discrete x y) [ yes _ ↦ rest | no _ ↦ false ]
same_texts _ _ = false

all_identifiers : List String → Bool
all_identifiers [] = true
all_identifiers (x ∷ xs) = is_identifier x && all_identifiers xs

abbrev pub registered_blocker : String
registered_blocker = "iter001-acquisition-contract"

unfoldable pub validate_mission : EngineeringValidationMissionObservation → Check ValidationError
unfolding all_identifiers
validate_mission o = do
  raise_if
      (length o.mission_check_ids == 0
        || not (
            all_identifiers o.mission_check_ids
            && all_identifiers o.expected_blockers
            && all_identifiers o.observed_blockers
            && all_identifiers o.missing_expected_blockers
            && all_identifiers o.unexpected_blockers))
      malformed_field
  raise_if
      (not (
        all_distinct o.mission_check_ids
        && all_distinct o.expected_blockers
        && all_distinct o.observed_blockers
        && all_distinct o.missing_expected_blockers
        && all_distinct o.unexpected_blockers))
      duplicate_values
  raise_if (not (same_texts o.expected_blockers (registered_blocker ∷ []))) blocker_not_preserved
  raise_if
      (not (
        is_subset o.expected_blockers o.mission_check_ids
        && is_subset o.observed_blockers o.mission_check_ids))
      unregistered_blocker
  raise_if
      (not (
        same_texts o.missing_expected_blockers
          (sorted_texts (difference o.expected_blockers o.observed_blockers))))
      wrong_missing
  raise_if
      (not (
        same_texts o.unexpected_blockers
          (sorted_texts (difference o.observed_blockers o.expected_blockers))))
      wrong_unexpected

same_texts-eq : (xs ys : List String) → same_texts xs ys ≡ true → xs ≡ ys
unfolding same_texts
same_texts-eq [] [] h = refl
same_texts-eq [] (y ∷ ys) h = cc
same_texts-eq (x ∷ xs) [] h = cc
same_texts-eq (x ∷ xs) (y ∷ ys) h =
    elim (string_discrete x y)
        as (λ d. elim d [ yes _ ↦ same_texts xs ys | no _ ↦ false ] ≡ true → x ∷ xs ≡ y ∷ ys) [
          | yes e ↦ λ k. let rest = same_texts-eq xs ys k in cc
          | no n ↦ λ k. cc
        ]
      h

sorted_texts-empty : (xs : List String) → sorted_texts xs ≡ [] → xs ≡ []
unfolding sorted_texts
sorted_texts-empty xs h = (sort-empty (λ x y. codes_less (codes x) (codes y)) [] xs h).1

Mem-one : (x b : String) → Mem x (b ∷ []) → x ≡ b
Mem-one x b m = Mem-cases (hedberg string_discrete x b) m (λ e. e) (λ k. absurd (not-mem-nil k))

-- With nothing beside `b`, all are `b`.
difference-All : (b : String) (xs : List String) → difference xs (b ∷ []) ≡ [] → All (λ x. x ≡ b) xs
unfolding difference
difference-All b [] h = tt
difference-All b (x ∷ xs) h =
    elim (dec_mem string_discrete x (b ∷ []))
        as (λ d.
          elim d [ yes _ ↦ difference xs (b ∷ []) | no _ ↦ x ∷ difference xs (b ∷ []) ] ≡ []
          → All (λ y. y ≡ b) (x ∷ xs)) [
            | yes m ↦ λ k. (Mem-one x b m, difference-All b xs k)
            | no n ↦ λ k. cc
          ]
      h

all_one :
    (b : String) (xs : List String)
    → All (λ x. x ≡ b) xs
    → all_distinct xs ≡ true
    → (xs ≡ []) ⊎ (xs ≡ b ∷ [])
unfolding all_distinct
all_one b [] h d = inl refl
all_one b (x ∷ []) h d = inr cc
all_one b (x ∷ y ∷ xs) h d =
    elim (dec_mem string_discrete x (y ∷ xs))
        as (λ e.
          (not (elim e [ yes _ ↦ true | no _ ↦ false ]) && all_distinct (y ∷ xs)) ≡ true
          → (x ∷ y ∷ xs ≡ []) ⊎ (x ∷ y ∷ xs ≡ b ∷ [])) [
            | yes m ↦ λ k. cc
            | no n ↦ λ k. absurd (n (subst (λ z. Mem x (z ∷ xs)) (h.0 ∙ sym h.1.0) mem-cons_self))
          ]
      d

module _ (o : EngineeringValidationMissionObservation) (valid : validate_mission o ≡ ok tt) where
  expected_one : o.expected_blockers ≡ registered_blocker ∷ []
  unfolding validate_mission
  expected_one =
      let same : same_texts o.expected_blockers (registered_blocker ∷ []) ≡ true = ground arith in
      same_texts-eq o.expected_blockers (registered_blocker ∷ []) same

  missing_computed :
      o.missing_expected_blockers
      ≡ sorted_texts (difference (registered_blocker ∷ []) o.observed_blockers)
  unfolding validate_mission
  missing_computed =
      let same : same_texts o.missing_expected_blockers
            (sorted_texts (difference o.expected_blockers o.observed_blockers))
          ≡ true =
        ground arith in
      rw expected_one at (same_texts-eq o.missing_expected_blockers _ same)

  unexpected_computed :
      o.unexpected_blockers
      ≡ sorted_texts (difference o.observed_blockers (registered_blocker ∷ []))
  unfolding validate_mission
  unexpected_computed =
      let same : same_texts o.unexpected_blockers
            (sorted_texts (difference o.observed_blockers o.expected_blockers))
          ≡ true =
        ground arith in
      rw expected_one at (same_texts-eq o.unexpected_blockers _ same)

  -- A validated mission observation that reports no missing and no unexpected blocker has observed
  -- the registered acquisition blocker and nothing else, and the other way round.
  pub validate_mission_iff :
      ((o.missing_expected_blockers ≡ []) × (o.unexpected_blockers ≡ []))
      ↔ (o.observed_blockers ≡ registered_blocker ∷ [])
  unfolding validate_mission difference sorted_texts sort string_discrete
  validate_mission_iff = (
    λ (missing, unexpected).
        let distinct : all_distinct o.observed_blockers ≡ true = ground arith in
        let none_else =
          difference-All registered_blocker o.observed_blockers
            (sorted_texts-empty _ (sym unexpected_computed ∙ unexpected)) in
        elim (all_one registered_blocker o.observed_blockers none_else distinct) [
          | inr one ↦ one
          | inl empty ↦
              let nothing : difference (registered_blocker ∷ []) o.observed_blockers ≡ [] =
                sorted_texts-empty _ (sym missing_computed ∙ missing) in
              absurd (cc (rw empty at nothing))
        ],
    λ one. (rw one at missing_computed, rw one at unexpected_computed),
  )
