-- ===== src/Controller/Bounds/Runs.antt =====
-- multipath-orchestrator/libampccl/controller/algo_inverse_proportion.h: alpha stays in its range.
use hy_link.Controller.Bounds.Factor.{decrease_factor_for_bounds}
use hy_link.Prelude.{
  ℕ, suc, ◌≡◌, inl, inr, true, false, ◌&&◌, ◌||◌, not, Option, none, some, List, [], ◌∷◌, arith,
  leb, ◌==◌, Option-cases, if-intro, set, All,
}
use hy_link.Controller.{
  ExecStat, RateSetting, InverseProportion, min_alpha, max_alpha, inverse_proportion, clamp_low,
  clamp_both, inverse_suggest, scaled_alpha, inverse_measure, inverse_update, inverse_reset,
}
use hy_link.Controller.Bounds.{
  AlgoEvent, asked, measured, was_reset, IsBounded, run_event, run_events, IsNumber, min-le-max,
  clamp_low-le, clamp_both_bounds, initial_alpha_bounds, alpha_pos, alpha-le-one, scaled_alpha_num,
}
use hy_link.Cache.{ParamValue}
use hy_link.Floats.{Double, DoubleLaws, ScaleLaws, zero_f}

module _ (d : Double) (laws : DoubleLaws d) (scale : ScaleLaws d) where
  inverse_suggest-IsBounded :
      (algo : InverseProportion d) (current : ParamValue d.F)
      → d.is_nan current.alpha ≡ false
      → IsBounded d algo
      → IsBounded d (inverse_suggest d algo current)
  unfolding inverse_suggest
  inverse_suggest-IsBounded algo current num b =
      let within = (clamp_both_bounds d laws scale) current.alpha num in
      record {
        min-le-alpha = within.0;
        alpha-le-max = within.1;
        zero-le-factor = b.zero-le-factor;
        factor-le-one = b.factor-le-one;
      }

  setting_num :
      (initial : Option d.F)
      → IsNumber d (was_reset initial)
      → (a : d.F) → initial ≡ some a
      → d.is_nan a ≡ false
  setting_num none num a h = cc
  setting_num (some b) num a h = cc

  inverse_reset-IsBounded :
      (algo : InverseProportion d) (initial : Option d.F)
      → IsNumber d (was_reset initial)
      → IsBounded d algo
      → IsBounded d (inverse_reset d algo initial)
  unfolding inverse_reset
  inverse_reset-IsBounded algo initial num b =
      let within =
        (initial_alpha_bounds d laws scale) initial 5 2 (omega arith) (omega arith)
          (setting_num initial num) in
      record {
        min-le-alpha = within.0;
        alpha-le-max = within.1;
        zero-le-factor = b.zero-le-factor;
        factor-le-one = b.factor-le-one;
      }

  -- A failure shrinks alpha, and not below its least value.
  failed_bounds :
      (algo : InverseProportion d)
      → IsBounded d algo
      → (d.le (min_alpha d) (clamp_low d (d.mul algo.alpha algo.decrease_factor)) ≡ true)
        × (d.le (clamp_low d (d.mul algo.alpha algo.decrease_factor)) (max_alpha d) ≡ true)
  unfolding clamp_low
  failed_bounds algo b =
      let x = d.mul algo.alpha algo.decrease_factor in
      let num =
        (scale.mul_num algo.alpha algo.decrease_factor
          ((alpha_pos d laws scale) algo.alpha b.min-le-alpha)
          ((alpha-le-one d laws scale) algo.alpha b.alpha-le-max)
          (scale.le_num _ _ b.factor-le-one).0).0 in
      let zero-le = scale.le_of_lt _ _ ((alpha_pos d laws scale) algo.alpha b.min-le-alpha) in
      let shrunk =
        scale.mul_le algo.alpha algo.decrease_factor zero-le b.zero-le-factor b.factor-le-one in
      (
        (clamp_low-le d laws scale) (d.mul algo.alpha algo.decrease_factor) num,
        if-intro (λ y. d.le y (max_alpha d) ≡ true)
            (d.lt (d.mul algo.alpha algo.decrease_factor) (min_alpha d))
            (λ _. (min-le-max d laws scale)) (λ _. scale.le_trans _ _ _ shrunk b.alpha-le-max),
      )

  inverse_measure-IsBounded :
      (algo : InverseProportion d) (stat : ExecStat d.F)
      → IsNumber d (measured stat)
      → IsBounded d algo
      → IsBounded d (inverse_measure d algo stat)
  unfolding inverse_measure
  inverse_measure-IsBounded algo stat num b =
      let same = (scale.le_num _ _ b.min-le-alpha).1 in
      let own = (clamp_both_bounds d laws scale) algo.alpha same in
      if-intro (IsBounded d) (leb (suc algo.first_flag) 2)
        (λ _. with_alpha algo.alpha b.min-le-alpha b.alpha-le-max)
        λ _.
          if-intro (IsBounded d) (d.lt (zero_f d) stat.pcie_time && d.lt (zero_f d) stat.fast_time)
            (λ t. elim (Option-cases (scaled_alpha d algo (d.div stat.fast_time stat.pcie_time))) [
              | inl e ↦ rw e (with_alpha algo.alpha b.min-le-alpha b.alpha-le-max)
              | inr (a, e) ↦
                  let within = (clamp_both_bounds d laws scale) a (
                    (scaled_alpha_num d laws scale) algo (d.div stat.fast_time stat.pcie_time) a b
                      (num t) e) in
                  rw e (with_alpha (clamp_both d a) within.0 within.1)
            ])
            (λ _. with_alpha (clamp_both d algo.alpha) own.0 own.1)
    where
      with_alpha :
          (a : d.F)
          → d.le (min_alpha d) a ≡ true
          → d.le a (max_alpha d) ≡ true
          → IsBounded d (record algo { alpha = a; first_flag = suc algo.first_flag })
      with_alpha a lo hi = record {
        min-le-alpha = lo;
        alpha-le-max = hi;
        zero-le-factor = b.zero-le-factor;
        factor-le-one = b.factor-le-one;
      }

  pub inverse_update-IsBounded :
      (algo : InverseProportion d) (stat : ExecStat d.F)
      → IsNumber d (measured stat)
      → IsBounded d algo
      → IsBounded d (inverse_update d algo stat)
  unfolding inverse_update
  inverse_update-IsBounded algo stat num b =
      let within = failed_bounds algo b in
      if-intro (IsBounded d) (not stat.fast_success || not stat.pcie_success)
        (λ _. record {
          min-le-alpha = within.0;
          alpha-le-max = within.1;
          zero-le-factor = b.zero-le-factor;
          factor-le-one = b.factor-le-one;
        })
        λ _.
          if-intro (IsBounded d) (stat.pcie_bytes == 0) (λ _. b)
            (λ _. inverse_measure-IsBounded algo stat num b)

  run_event-IsBounded :
      (algo : InverseProportion d) (e : AlgoEvent d.F)
      → IsNumber d e
      → IsBounded d algo
      → IsBounded d (run_event d algo e)
  run_event-IsBounded algo (asked current) num b = inverse_suggest-IsBounded algo current num b
  run_event-IsBounded algo (measured stat) num b = inverse_update-IsBounded algo stat num b
  run_event-IsBounded algo (was_reset initial) num b = inverse_reset-IsBounded algo initial num b

  run_events_keep :
      (algo : InverseProportion d) (events : List (AlgoEvent d.F))
      → All (IsNumber d) events
      → IsBounded d algo
      → IsBounded d (run_events d algo events)
  run_events_keep algo [] nums b = b
  run_events_keep algo (e ∷ events) nums b =
      run_events_keep (run_event d algo e) events nums.1 (run_event-IsBounded algo e nums.0 b)

  -- From construction on, whatever it is asked, told or reset to, as long as no NaN is brought in, an
  -- algorithm of inverse proportion keeps alpha between 0.001 and 0.39.
  pub run_events-IsBounded :
      (sqrt : d.F → d.F) (nranks : ℕ) (initial : Option d.F) (low high : RateSetting d.F)
      (events : List (AlgoEvent d.F))
      → d.is_nan (d.mul (d.decimal 5 1) (sqrt (d.div (d.decimal 2 0) (d.of_size nranks)))) ≡ false
      → IsNumber d (was_reset initial)
      → All (IsNumber d) events
      → IsBounded d (run_events d (inverse_proportion d sqrt nranks initial low high) events)
  unfolding inverse_proportion
  run_events-IsBounded sqrt nranks initial low high events num set nums =
      let alpha =
        (initial_alpha_bounds d laws scale) initial 1 2 (omega arith) (omega arith)
          (setting_num initial set) in
      let factor = (decrease_factor_for_bounds d laws scale) sqrt nranks num in
      run_events_keep (inverse_proportion d sqrt nranks initial low high) events nums (record {
        min-le-alpha = alpha.0;
        alpha-le-max = alpha.1;
        zero-le-factor = factor.0;
        factor-le-one = factor.1;
      })
