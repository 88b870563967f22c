-- ===== src/Masking/Commands.antt =====
-- Whatever a compensator of src/fieldtrue/masking.py observes, its commands are safe.
use inbar.Prelude.{
  ℕ, zero, suc, ◌≤◌, List, length, ◌≡◌, refl, ap, arith, All, Result, ok, err, ◌>>=◌, ◌*◌,
  if◌then◌else◌, Bool-cases, inl, inr,
}
use inbar.Domain.{ℤ, pos, negsuc}
use inbar.Integer.{less_ℤ, ◌+ℤ◌, ◌*ℤ◌, floor_div, sum_ℤ}
use inbar.Laboratory.{GradedFaultConfig, Randomness, GradedLaboratoryError}
use inbar.Masking.{
  nominal_differences, safe_command_ceiling, clipped, repeated, shortfall, compensator_action,
  bang_bang_action, half_gain_action, integrating_action, Family, proportional, bang_bang,
  half_gain, integrating, family_action,
}

-- From 0 to 100
abbrev pub IsSafe : ℤ → Type 0
IsSafe u = (n : ℕ) × (u ≡ pos n) × (n ≤ 100)

clipped-IsSafe : (u : ℤ) → IsSafe (clipped u)
unfolding clipped
clipped-IsSafe (negsuc n) = (0, ground arith, omega arith)
clipped-IsSafe (pos n) = elim (Bool-cases (less_ℤ (pos n) (pos 100))) [
  | inl e ↦ elim (Bool-cases (less_ℤ (pos 0) (pos n))) [
    | inl f ↦ (n, rw (e, f) refl, ground arith)
    | inr f ↦ (0, rw (e, f) refl, omega arith)
  ]
  | inr e ↦ (100, rw e refl, omega arith)
]

-- One safe command for each step
abbrev pub IsSafePlan : ℕ → List ℤ → Type 0
IsSafePlan steps plan = (length plan ≡ steps) × All IsSafe plan

repeated-IsSafePlan : (n : ℕ) (u : ℤ) → IsSafe u → IsSafePlan n (repeated n u)
unfolding repeated
repeated-IsSafePlan zero u safe = (refl, tt)
repeated-IsSafePlan (suc n) u safe =
    let (all, each) = repeated-IsSafePlan n u safe in (ap suc all, (safe, each))

-- A plan that repeats the command which a call's result asks for, clipped.
plan-IsSafePlan :
    {A : Type 0} (n : ℕ) (call : Result GradedLaboratoryError A) (asked : A → ℤ) (plan : List ℤ)
    → (call >>= λ a. ok (repeated n (clipped (asked a)))) ≡ ok plan
    → IsSafePlan n plan
plan-IsSafePlan n (ok a) asked plan h =
    let same : repeated n (clipped (asked a)) ≡ plan = cc h in
    rw (← same) (repeated-IsSafePlan n (clipped (asked a)) (clipped-IsSafe (asked a)))
plan-IsSafePlan n (err e) asked plan h = cc

module _ (r : Randomness) (config : GradedFaultConfig) (initial_state : ℤ) (observed : List ℤ)
    (baseline : ℤ) where
  compensator_action-IsSafePlan :
      (gain : ℤ) (plan : List ℤ)
      → compensator_action r config initial_state observed baseline gain ≡ ok plan
      → IsSafePlan config.steps plan
  unfolding compensator_action
  compensator_action-IsSafePlan gain plan h =
      plan-IsSafePlan config.steps (shortfall r config initial_state observed baseline)
        (λ short. baseline +ℤ floor_div (gain *ℤ short) 100) plan h

  bang_bang_action-IsSafePlan :
      (gain : ℤ) (plan : List ℤ)
      → bang_bang_action r config initial_state observed baseline gain ≡ ok plan
      → IsSafePlan config.steps plan
  unfolding bang_bang_action
  bang_bang_action-IsSafePlan gain plan h =
      plan-IsSafePlan config.steps (shortfall r config initial_state observed baseline)
        (λ short. if less_ℤ short (pos 20) then baseline else safe_command_ceiling) plan h

  half_gain_action-IsSafePlan :
      (gain : ℤ) (plan : List ℤ)
      → half_gain_action r config initial_state observed baseline gain ≡ ok plan
      → IsSafePlan config.steps plan
  unfolding half_gain_action
  half_gain_action-IsSafePlan gain plan h = compensator_action-IsSafePlan (floor_div gain 2) plan h

  integrating_action-IsSafePlan :
      (gain : ℤ) (plan : List ℤ)
      → integrating_action r config initial_state observed baseline gain ≡ ok plan
      → IsSafePlan config.steps plan
  unfolding integrating_action
  integrating_action-IsSafePlan gain plan h =
      plan-IsSafePlan config.steps (nominal_differences r config initial_state observed baseline)
        (λ each. baseline +ℤ floor_div (gain *ℤ sum_ℤ each) (100 * config.steps)) plan h

  -- For every compensator family, a plan that it returns has one command for each step, and each command
  -- is from 0 to 100, whatever was observed, the baseline and the gain.
  pub family_action-IsSafePlan :
      (family : Family) (gain : ℤ) (plan : List ℤ)
      → family_action family r config initial_state observed baseline gain ≡ ok plan
      → IsSafePlan config.steps plan
  unfolding family_action
  family_action-IsSafePlan proportional gain plan h = compensator_action-IsSafePlan gain plan h
  family_action-IsSafePlan bang_bang gain plan h = bang_bang_action-IsSafePlan gain plan h
  family_action-IsSafePlan half_gain gain plan h = half_gain_action-IsSafePlan gain plan h
  family_action-IsSafePlan integrating gain plan h = integrating_action-IsSafePlan gain plan h
