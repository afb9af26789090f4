-- ===== src/Controller/SplitRatio.antt =====
-- multipath-orchestrator/libampccl/controller/algo_split_ratio_control.h: the algorithm that moves
-- alpha towards PCIe's part of the bandwidth. What the environment gives for the least alpha, the
-- first alpha, the warm-up, the smoothing and the step is an argument.
pub mod Range
use hy_link.Prelude.{ℕ, suc, ◌&&◌, ◌||◌, not, leb, ◌==◌, if◌then◌else◌}
use hy_link.Controller.{ExecStat, fast_bandwidth, pcie_bandwidth}
use hy_link.Floats.{Double, zero_f, one_f}
use hy_link.Cache.{ParamValue}

-- GetMinAlpha, GetDefaultInitialAlpha, GetWarmupSteps and the Config values.
pub record SplitConfig (F : Type 0) : Type 0 where
  pub min_a : F
  pub default_initial_alpha : F
  pub warmup_steps : ℕ
  pub smooth : F
  pub eta : F

module _ (d : Double) where
  pub record SplitRatio : Type 0 where
    pub alpha : d.F
    pub bp_hat : d.F
    pub best_alpha : d.F
    pub best_bandwidth : d.F
    pub update_count : ℕ

  pub split_ratio : SplitConfig d.F → SplitRatio
  split_ratio cfg = record {
    alpha = cfg.default_initial_alpha;
    bp_hat = zero_f d;
    best_alpha = zero_f d;
    best_bandwidth = zero_f d;
    update_count = 0;
  }

  -- 0.999
  abbrev pub max_share : d.F
  max_share = d.decimal 999 3

  -- std::max(min_a, std::min(max_alpha_, a))
  pub clamp_share : d.F → d.F → d.F
  clamp_share min_a a =
      let capped = if d.lt a max_share then a else max_share in
      if d.lt min_a capped then capped else min_a

  pub split_suggest : SplitConfig d.F → SplitRatio → ParamValue d.F → SplitRatio
  split_suggest cfg algo current = record algo {
    alpha =
        clamp_share cfg.min_a (if d.lt (zero_f d) current.alpha then current.alpha else algo.alpha);
    best_alpha = current.best_alpha;
    best_bandwidth = current.best_bandwidth;
  }

  -- The new average of the PCIe bandwidth.
  pub smoothed : SplitConfig d.F → SplitRatio → ℕ → d.F → d.F
  smoothed cfg algo pcie_bytes bp =
      if leb 4194304 pcie_bytes || d.le algo.bp_hat (zero_f d)
      then (if d.le algo.bp_hat (zero_f d)
          then bp
          else d.add (d.mul cfg.smooth bp) (d.mul (d.sub (one_f d) cfg.smooth) algo.bp_hat))
      else algo.bp_hat

  -- alpha + eta * (x_star - alpha)
  pub towards : SplitConfig d.F → d.F → d.F → d.F
  towards cfg alpha x_star = d.add alpha (d.mul cfg.eta (d.sub x_star alpha))

  -- The step of alpha for the average and the fast bandwidth.
  pub stepped : SplitConfig d.F → SplitRatio → ℕ → d.F → d.F → d.F
  stepped cfg algo pcie_bytes bp_hat bf_hat =
      let x_star = d.div bp_hat (d.add bp_hat bf_hat) in
      let t_pcie = d.div algo.alpha bp_hat in
      let t_fast = d.div (d.sub (one_f d) algo.alpha) bf_hat in
      if not (leb (suc algo.update_count) cfg.warmup_steps)
        && d.lt (d.mul t_fast (d.decimal 105 2)) t_pcie
        && leb 16777216 pcie_bytes
      then d.mul algo.alpha (d.decimal 9 1)
      else towards cfg algo.alpha x_star

  pub split_update : SplitConfig d.F → SplitRatio → ExecStat d.F → SplitRatio
  split_update cfg algo stat =
      let counted : SplitRatio = record algo { update_count = suc algo.update_count } in
      let halved = d.mul algo.alpha (d.decimal 5 1) in
      let bp = pcie_bandwidth d stat in
      let bf = fast_bandwidth d stat in
      let bp_hat = smoothed cfg algo stat.pcie_bytes bp in
      if not stat.fast_success || not stat.pcie_success
      then record counted { alpha = if d.lt halved cfg.min_a then cfg.min_a else halved }
      else if stat.pcie_bytes == 0 || (d.le bp (zero_f d) || d.le bf (zero_f d))
      then counted
      else record counted {
        bp_hat = bp_hat;
        alpha = clamp_share cfg.min_a (stepped cfg algo stat.pcie_bytes bp_hat bf);
      }
