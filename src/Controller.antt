-- ===== src/Controller.antt =====
-- multipath-orchestrator/libampccl/controller: the algorithms that adapt the share of PCIe, alpha,
-- to what was measured, and the controller that keeps one for each operation. The values of
-- environment variables are arguments: none where a variable is unset or its text is not accepted.
mod Bounds
pub mod Adaptive
pub mod SplitRatio
mod Tests
use hy_link.Prelude.{
  ℕ, suc, Bool, ◌&&◌, ◌||◌, not, Option, none, some, ltb, leb, ◌==◌, if◌then◌else◌,
}
use hy_link.Floats.{Double, zero_f, one_f}
use hy_link.Cache.{ParamValue}

-- What was measured of one collective, telemetry/stats.h.
pub record ExecStat (F : Type 0) : Type 0 where
  pub fast_time : F
  pub pcie_time : F
  pub fast_bytes : ℕ
  pub pcie_bytes : ℕ
  pub fast_success : Bool
  pub pcie_success : Bool

-- The environment variable of a rate: unset, not accepted, or a positive number.
pub data RateSetting (F : Type 0) : Type 0 where
  unset refused : RateSetting F
  rate : F → RateSetting F

module _ (d : Double) where
  -- bytes / time / 1024^3, or 0.0.
  pub bandwidth : ℕ → d.F → d.F
  bandwidth bytes time =
      if d.lt (zero_f d) time && ltb 0 bytes
      then d.div (d.div (d.of_size bytes) time) (d.decimal 1073741824 0)
      else zero_f d

  pub fast_bandwidth : ExecStat d.F → d.F
  unfolding bandwidth
  fast_bandwidth stat = bandwidth stat.fast_bytes stat.fast_time

  pub pcie_bandwidth : ExecStat d.F → d.F
  unfolding bandwidth
  pcie_bandwidth stat = bandwidth stat.pcie_bytes stat.pcie_time

  -- InverseProportionAlgo
  pub record InverseProportion : Type 0 where
    pub alpha : d.F
    pub best_alpha : d.F
    pub best_bandwidth : d.F
    pub decrease_factor : d.F
    pub hold_rate_low : d.F
    pub hold_rate_high : d.F
    pub first_flag : ℕ

  -- 0.001 and 0.39
  abbrev pub min_alpha : d.F
  min_alpha = d.decimal 1 3

  abbrev pub max_alpha : d.F
  max_alpha = d.decimal 39 2

  -- InitialAlpha: the value of the variable if it is in range.
  pub initial_alpha : Option d.F → d.F → d.F
  initial_alpha none fallback = fallback
  initial_alpha (some a) fallback = if d.lt a min_alpha || d.lt max_alpha a then fallback else a

  -- ReadPositiveRate: none is NAN.
  pub read_positive_rate : RateSetting d.F → d.F → Option d.F
  read_positive_rate unset fallback = some fallback
  read_positive_rate refused fallback = none
  read_positive_rate (rate r) fallback = some r

  -- The interval of rates at which alpha is held.
  pub hold_rates : Option d.F → Option d.F → d.F × d.F
  hold_rates none high = (d.decimal 95 2, d.decimal 11 1)
  hold_rates (some low) none = (d.decimal 95 2, d.decimal 11 1)
  hold_rates (some low) (some high) =
      if d.le high low then (d.decimal 95 2, d.decimal 11 1) else (low, high)

  -- 0.5 * sqrt(2 / n) within [0.2, 1], or 0.5 for one rank.
  pub decrease_factor_for : (d.F → d.F) → ℕ → d.F
  decrease_factor_for sqrt nranks =
      let factor = d.mul (d.decimal 5 1) (sqrt (d.div (d.decimal 2 0) (d.of_size nranks))) in
      let low = if d.lt factor (d.decimal 2 1) then d.decimal 2 1 else factor in
      if leb nranks 1 then d.decimal 5 1 else if d.lt (one_f d) low then one_f d else low

  pub inverse_proportion :
      (d.F → d.F) → ℕ → Option d.F → RateSetting d.F → RateSetting d.F → InverseProportion
  unfolding initial_alpha read_positive_rate hold_rates
  inverse_proportion sqrt nranks initial low high =
      let rates =
        hold_rates (read_positive_rate low (d.decimal 95 2))
          (read_positive_rate high (d.decimal 11 1)) in
      record {
        alpha = initial_alpha initial (d.decimal 1 2);
        best_alpha = d.decimal 12976 5;
        best_bandwidth = zero_f d;
        decrease_factor = decrease_factor_for sqrt nranks;
        hold_rate_low = rates.0;
        hold_rate_high = rates.1;
        first_flag = 0;
      }

  -- if (alpha < min) alpha = min; if (alpha > max) alpha = max;
  pub clamp_low : d.F → d.F
  clamp_low a = if d.lt a min_alpha then min_alpha else a

  pub clamp_both : d.F → d.F
  unfolding clamp_low
  clamp_both a = if d.lt max_alpha (clamp_low a) then max_alpha else clamp_low a

  pub inverse_suggest : InverseProportion → ParamValue d.F → InverseProportion
  inverse_suggest algo current = record algo {
    alpha = clamp_both current.alpha;
    best_alpha = current.best_alpha;
    best_bandwidth = current.best_bandwidth;
  }

  -- The alpha that a rate of the times leads to, before it is clamped; none where it is held.
  pub scaled_alpha : InverseProportion → d.F → Option d.F
  scaled_alpha algo r =
      if d.lt algo.hold_rate_low r && d.lt r algo.hold_rate_high
      then none
      else if d.le r algo.hold_rate_low
      then some (d.mul algo.alpha (d.decimal 5 1))
      else if d.le algo.hold_rate_high r
      then some (d.mul algo.alpha (d.mul r (d.decimal 96 2)))
      else some algo.alpha

  -- Update once both paths have succeeded with some PCIe traffic.
  pub inverse_measure : InverseProportion → ExecStat d.F → InverseProportion
  inverse_measure algo stat =
      let counted : InverseProportion = record algo { first_flag = suc algo.first_flag } in
      if leb (suc algo.first_flag) 2
      then counted
      else if d.lt (zero_f d) stat.pcie_time && d.lt (zero_f d) stat.fast_time
      then (elim (scaled_alpha algo (d.div stat.fast_time stat.pcie_time)) [
        | none ↦ counted
        | some a ↦ record counted { alpha = clamp_both a }
      ])
      else record counted { alpha = clamp_both algo.alpha }

  pub inverse_update : InverseProportion → ExecStat d.F → InverseProportion
  inverse_update algo stat =
      if not stat.fast_success || not stat.pcie_success
      then record algo { alpha = clamp_low (d.mul algo.alpha algo.decrease_factor) }
      else if stat.pcie_bytes == 0
      then algo
      else inverse_measure algo stat

  pub inverse_reset : InverseProportion → Option d.F → InverseProportion
  inverse_reset algo initial = record algo {
    alpha = initial_alpha initial (d.decimal 5 2);
    best_alpha = zero_f d;
    best_bandwidth = zero_f d;
  }
