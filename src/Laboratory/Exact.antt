-- ===== src/Laboratory/Exact.antt =====
-- Without lag, noise and nuisance the plant of src/fieldtrue/graded_laboratory.py is the forward model;
-- and its disturbance stays within its amplitude.
use native.Mathlib.Nat.{mod-lt}
use inbar.Prelude.{
  ℕ, zero, suc, ◌+◌, ◌*◌, ◌/◌, ◌%◌, ◌≤◌, ◌<◌, String, List, ◌∷◌, true, false, ◌==◌, leb, ◌≡◌, refl,
  ap, arith, Result, ok, err, Bool-cases, Result-cases, inl, inr,
}
use inbar.Domain.{ℤ, pos, negsuc}
use inbar.Integer.{difference_of, ◌+ℤ◌, ◌*ℤ◌, floor_div, magnitude}
use inbar.Laboratory.{
  GradedFaultConfig, MechanismParams, Randomness, GradedLaboratoryError, graded_transform,
  effective_command, symmetric, amplitude_at, disturbance, nuisance_offset, commanded,
  later_commands, next_state, delivered, run_steps, graded_run, forward_steps,
  graded_forward_telemetry,
}

difference_pos : (a b c : ℕ) → a ≡ b + c → difference_of a b ≡ pos c
difference_pos a b c h = let le : leb b a ≡ true = ground arith in rw le (ap pos (omega arith))

difference_neg : (a b c : ℕ) → b ≡ a + suc c → difference_of a b ≡ negsuc c
difference_neg a b c h = let gt : leb b a ≡ false = ground arith in rw gt (ap negsuc (omega arith))

zero_times : (x : ℤ) → pos 0 *ℤ x ≡ pos 0
unfolding ◌*ℤ◌
zero_times (pos n) = difference_pos _ _ 0 (grind arith)
zero_times (negsuc n) = difference_pos _ _ 0 (grind arith)

pos_times_pos : (k n : ℕ) → pos k *ℤ pos n ≡ pos (k * n)
unfolding ◌*ℤ◌
pos_times_pos k n = difference_pos _ _ (k * n) (grind arith)

million_times_negsuc : (n : ℕ) → pos 1_000_000 *ℤ negsuc n ≡ negsuc (1_000_000 * n + 999_999)
unfolding ◌*ℤ◌
million_times_negsuc n = difference_neg _ _ (1_000_000 * n + 999_999) (omega arith)

zero_plus : (x : ℤ) → pos 0 +ℤ x ≡ x
unfolding ◌+ℤ◌
zero_plus (pos n) = difference_pos _ _ n (omega arith)
zero_plus (negsuc n) = difference_neg _ _ n (omega arith)

plus_zero : (x : ℤ) → x +ℤ pos 0 ≡ x
unfolding ◌+ℤ◌
plus_zero (pos n) = difference_pos _ _ n (omega arith)
plus_zero (negsuc n) = difference_neg _ _ n (omega arith)

million_back : (u : ℤ) → floor_div (pos 1_000_000 *ℤ u) 1_000_000 ≡ u
unfolding floor_div
million_back (pos n) = rw (pos_times_pos 1_000_000 n) (ap pos (omega arith))
million_back (negsuc n) = rw (million_times_negsuc n) (ap negsuc (omega arith))

-- Without lag a command arrives whole.
delivered-zero : (previous u : ℤ) → delivered 0 previous u ≡ u
unfolding delivered
delivered-zero previous u =
    rw (zero_times previous) (rw (zero_plus (pos 1_000_000 *ℤ u)) (million_back u))

-- No lag, no noise of either kind, and no nuisance.
pub record IsExact (config : GradedFaultConfig) : Type 0 where
  pub no_lag : config.actuation_lag_ppm ≡ 0
  pub no_noise : config.noise_amplitude ≡ 0
  pub no_proportional_noise : config.noise_ppm ≡ 0
  pub no_nuisance : config.nuisance_amplitude ≡ 0

symmetric-zero : (drawn a : ℕ) → a ≡ 0 → symmetric drawn a ≡ pos 0
symmetric-zero drawn a h = rw h refl

quiet : (m k p : ℕ) → k ≡ 0 → p ≡ 0 → k + m * p / 1_000_000 ≡ 0
quiet m k p hk hp = let none : m * p ≡ 0 = grind arith in rw (hk, none) refl

module _ (r : Randomness) (config : GradedFaultConfig) (exact : IsExact config) where
  disturbance-zero : (seed step : ℕ) (x : ℤ) → disturbance r seed step x config ≡ pos 0
  unfolding disturbance
  disturbance-zero seed step x = symmetric-zero (r.noise seed step) (amplitude_at config x) (
      quiet (magnitude x) config.noise_amplitude config.noise_ppm exact.no_noise
        exact.no_proportional_noise)

  run_steps-forward :
      (seed : ℕ) (params : MechanismParams) (left step : ℕ) (x previous : ℤ) (action : List ℤ)
      → (run_steps r config seed params left step x previous action).1
        ≡ forward_steps params left x action
  unfolding run_steps forward_steps
  run_steps-forward seed params zero step x previous action = refl
  run_steps-forward seed params (suc left) step x previous action =
      let u = effective_command (commanded action) params.deadband in
      let whole : delivered config.actuation_lag_ppm previous u ≡ u =
        rw exact.no_lag (delivered-zero previous u) in
      let x' = next_state params x u in
      rw whole (
        rw (disturbance-zero seed step x', plus_zero x')
          (ap (λ rest. x' ∷ rest)
            (run_steps-forward seed params left (suc step) x' u (later_commands action))))

-- The telemetry of a run, or its error.
abbrev pub observed :
    Result GradedLaboratoryError (ℤ × List ℤ) → Result GradedLaboratoryError (List ℤ)
observed (ok (settled, telemetry)) = ok telemetry
observed (err e) = err e

-- If a configuration has no lag, no noise and no nuisance offset, then the plant's telemetry is the
-- forward model's, for every seed, mechanism, severity and action, errors included.
pub graded_run-forward :
    (r : Randomness) (config : GradedFaultConfig) (initial_state : ℤ) (seed : ℕ) (key : String)
    (severity : ℤ) (action : List ℤ)
    → IsExact config
    → observed (graded_run r config initial_state seed key severity action)
      ≡ graded_forward_telemetry r config initial_state key severity action
unfolding graded_run graded_forward_telemetry nuisance_offset
graded_run-forward r config initial_state seed key severity action exact =
    let start : initial_state +ℤ nuisance_offset r seed config.nuisance_amplitude ≡ initial_state =
      rw (symmetric-zero (r.nuisance seed) config.nuisance_amplitude exact.no_nuisance)
        (plus_zero initial_state) in
    elim (Result-cases (graded_transform r key config severity)) [
      | inr (e, refused) ↦ rw refused refl
      | inl (params, given) ↦
          rw (given, start)
            (ap ok (
              run_steps-forward r config exact seed params config.steps 0 initial_state (pos 0)
                action))
    ]

difference-magnitude : (d a : ℕ) → d < 2 * a + 1 → magnitude (difference_of d a) ≤ a
difference-magnitude d a h = elim (Bool-cases (leb a d)) [
  | inl e ↦ rw e (ground arith)
  | inr e ↦ rw e (ground arith)
]

symmetric-magnitude : (drawn a : ℕ) → magnitude (symmetric drawn a) ≤ a
symmetric-magnitude drawn a = elim (Bool-cases (a == 0)) [
  | inl e ↦ rw e (omega arith)
  | inr e ↦ rw e (difference-magnitude (drawn % (2 * a + 1)) a (mod-lt drawn (omega arith)))
]

-- A disturbance is at most its amplitude in magnitude, whatever is drawn.
pub disturbance-magnitude :
    (r : Randomness) (seed step : ℕ) (state : ℤ) (config : GradedFaultConfig)
    → magnitude (disturbance r seed step state config) ≤ amplitude_at config state
unfolding disturbance
disturbance-magnitude r seed step state config =
    symmetric-magnitude (r.noise seed step) (amplitude_at config state)
