-- ===== src/Controller/Bounds.antt =====
-- multipath-orchestrator/libampccl/controller/algo_inverse_proportion.h: the range of alpha.
mod Factor
pub mod Runs
use hy_link.Prelude.{
  ℕ, ◌*◌, ◌^◌, ◌≤◌, ◌≡◌, refl, true, false, ◌&&◌, ◌||◌, Option, none, some, List, [], ◌∷◌, arith,
  if-intro, suc, inl, inr, not, leb, ◌==◌, Option-cases, set, All, if◌then◌else◌,
}
use hy_link.Controller.{
  ExecStat, InverseProportion, min_alpha, max_alpha, initial_alpha, clamp_low, clamp_both,
  inverse_suggest, scaled_alpha, inverse_update, inverse_reset, RateSetting, decrease_factor_for,
  inverse_proportion, inverse_measure,
}
use hy_link.Floats.{Double, DoubleLaws, ScaleLaws, zero_f, one_f}
use hy_link.Cache.{ParamValue}

-- An event of an algorithm: it is asked with cached parameters, told a measurement, or reset with
-- the variable's value.
pub data AlgoEvent (F : Type 0) : Type 0 where
  asked : ParamValue F → AlgoEvent F
  measured : ExecStat F → AlgoEvent F
  was_reset : Option F → AlgoEvent F

module _ (d : Double) where
  -- 0.001 <= alpha <= 0.39, and a failure shrinks alpha by a factor in [0, 1].
  pub record IsBounded (algo : InverseProportion d) : Type 0 where
    pub min-le-alpha : d.le (min_alpha d) algo.alpha ≡ true
    pub alpha-le-max : d.le algo.alpha (max_alpha d) ≡ true
    pub zero-le-factor : d.le (zero_f d) algo.decrease_factor ≡ true
    pub factor-le-one : d.le algo.decrease_factor (one_f d) ≡ true

  abbrev pub run_event : InverseProportion d → AlgoEvent d.F → InverseProportion d
  run_event algo (asked current) = inverse_suggest d algo current
  run_event algo (measured stat) = inverse_update d algo stat
  run_event algo (was_reset initial) = inverse_reset d algo initial

  abbrev pub run_events : InverseProportion d → List (AlgoEvent d.F) → InverseProportion d
  run_events algo [] = algo
  run_events algo (e ∷ es) = run_events (run_event algo e) es

  -- The numbers that an event brings are numbers: no cached alpha, ratio of times or setting is NaN.
  abbrev pub IsNumber : AlgoEvent d.F → Type 0
  IsNumber (asked current) = d.is_nan current.alpha ≡ false
  IsNumber (measured stat) =
      (d.lt (zero_f d) stat.pcie_time && d.lt (zero_f d) stat.fast_time) ≡ true
      → d.is_nan (d.div stat.fast_time stat.pcie_time) ≡ false
  IsNumber (was_reset none) = Unit
  IsNumber (was_reset (some a)) = d.is_nan a ≡ false

module _ (d : Double) (laws : DoubleLaws d) (scale : ScaleLaws d) where
  pub min-le-max : d.le (min_alpha d) (max_alpha d) ≡ true
  min-le-max = scale.decimal_le 1 3 39 2 (omega arith)

  max_refl : d.le (max_alpha d) (max_alpha d) ≡ true
  max_refl = scale.decimal_le 39 2 39 2 (omega arith)

  min_refl : d.le (min_alpha d) (min_alpha d) ≡ true
  min_refl = scale.decimal_le 1 3 1 3 (omega arith)

  pub clamp_low-le : (a : d.F) → d.is_nan a ≡ false → d.le (min_alpha d) (clamp_low d a) ≡ true
  unfolding clamp_low
  clamp_low-le a num =
      if-intro (λ x. d.le (min_alpha d) x ≡ true) (d.lt a (min_alpha d)) (λ _. min_refl)
        (λ h. laws.le_of_not_lt a (min_alpha d) num (laws.decimal_num 1 3) h)

  pub clamp_both_bounds :
      (a : d.F)
      → d.is_nan a ≡ false
      → (d.le (min_alpha d) (clamp_both d a) ≡ true) × (d.le (clamp_both d a) (max_alpha d) ≡ true)
  unfolding clamp_both
  clamp_both_bounds a num =
      let low = clamp_low-le a num in
      if-intro (λ x. (d.le (min_alpha d) x ≡ true) × (d.le x (max_alpha d) ≡ true))
        (d.lt (max_alpha d) (clamp_low d a)) (λ _. (min-le-max, max_refl))
        (λ h. (
          low,
          laws.le_of_not_lt (max_alpha d) (clamp_low d a) (laws.decimal_num 39 2)
              (scale.le_num _ _ low).1 h,
        ))

  pub initial_alpha_bounds :
      (initial : Option d.F) (m k : ℕ)
      → (1 * 10 ^ k ≤ m * 10 ^ 3)
      → (m * 10 ^ 2 ≤ 39 * 10 ^ k)
      → ((a : d.F) → initial ≡ some a → d.is_nan a ≡ false)
      → (d.le (min_alpha d) (initial_alpha d initial (d.decimal m k)) ≡ true)
        × (d.le (initial_alpha d initial (d.decimal m k)) (max_alpha d) ≡ true)
  unfolding initial_alpha
  initial_alpha_bounds none m k lo hi num =
      (scale.decimal_le 1 3 m k lo, scale.decimal_le m k 39 2 hi)
  initial_alpha_bounds (some a) m k lo hi num =
      if-intro (λ x. (d.le (min_alpha d) x ≡ true) × (d.le x (max_alpha d) ≡ true))
        (d.lt a (min_alpha d) || d.lt (max_alpha d) a)
        (λ _. (scale.decimal_le 1 3 m k lo, scale.decimal_le m k 39 2 hi))
        (λ h. (
          laws.le_of_not_lt a (min_alpha d) (num a refl) (laws.decimal_num 1 3) (ground arith),
          laws.le_of_not_lt (max_alpha d) a (laws.decimal_num 39 2) (num a refl) (ground arith),
        ))

  -- The bounds of alpha make it a factor.
  pub alpha_pos : (a : d.F) → d.le (min_alpha d) a ≡ true → d.lt (zero_f d) a ≡ true
  alpha_pos a h =
      scale.lt-le_trans (zero_f d) (min_alpha d) a
        (scale.decimal_pos 1 3 (omega arith) (omega arith)) h

  pub alpha-le-one : (a : d.F) → d.le a (max_alpha d) ≡ true → d.le a (one_f d) ≡ true
  alpha-le-one a h =
      scale.le_trans a (max_alpha d) (one_f d) h (scale.decimal_le 39 2 1 0 (omega arith))

  pub scaled_alpha_num :
      (algo : InverseProportion d) (r a : d.F)
      → IsBounded d algo
      → d.is_nan r ≡ false
      → scaled_alpha d algo r ≡ some a
      → d.is_nan a ≡ false
  unfolding scaled_alpha
  scaled_alpha_num algo r a b num h =
      let num_alpha = (scale.le_num _ _ b.min-le-alpha).1 in
      let half =
        (scale.mul_num (d.decimal 5 1) algo.alpha
          (scale.decimal_pos 5 1 (omega arith) (omega arith))
          (scale.decimal_le 5 1 1 0 (omega arith)) num_alpha).1 in
      let r96 =
        (scale.mul_num (d.decimal 96 2) r (scale.decimal_pos 96 2 (omega arith) (omega arith))
          (scale.decimal_le 96 2 1 0 (omega arith)) num).1 in
      let grown =
        (scale.mul_num algo.alpha (d.mul r (d.decimal 96 2)) (alpha_pos algo.alpha b.min-le-alpha)
          (alpha-le-one algo.alpha b.alpha-le-max) r96).0 in
      ground arith
