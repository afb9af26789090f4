-- ===== src/Controller/Tests.antt =====
-- Runs of the algorithms on numbers of thousandths, and the theorems about them.
use hy_link.Prelude.{ℕ, ◌≡◌, refl, true, false, none, List, [], ◌∷◌}
use hy_link.Controller.{
  ExecStat, unset, InverseProportion, decrease_factor_for, inverse_proportion, clamp_low,
  clamp_both, scaled_alpha, inverse_measure, inverse_update,
}
use hy_link.Controller.Bounds.{AlgoEvent, measured, was_reset, IsBounded, run_events}
use hy_link.Controller.Bounds.Runs.{run_events-IsBounded}
use hy_link.Controller.SplitRatio.{SplitConfig}
use hy_link.Cache.{ParamValue}
use hy_link.Floats.Thousandths.{thousandths, thousandths-laws, thousandths-scale}

-- A collective of 8 MB of which 2 MB went over PCIe, in 4 and 2 thousandths of a second.
abbrev sample : ExecStat ℕ
sample = record {
  fast_time = 4;
  pcie_time = 2;
  fast_bytes = 6291456;
  pcie_bytes = 2097152;
  fast_success = true;
  pcie_success = true;
}

abbrev failure : ExecStat ℕ
failure = record sample { pcie_success = false }

abbrev fresh : InverseProportion thousandths
fresh = inverse_proportion thousandths (λ x. x) 2 none unset unset

abbrev alpha_after : List (AlgoEvent ℕ) → ℕ
alpha_after events = (run_events thousandths fresh events).alpha

-- 10, and then three times 10 * 2 * 0.96, the first two samples being skipped.
grown : alpha_after (measured sample ∷ measured sample ∷ measured sample ∷ []) ≡ 19
unfolding inverse_proportion inverse_update inverse_measure scaled_alpha clamp_both
grown = refl

shrunk : alpha_after (measured failure ∷ measured failure ∷ []) ≡ 2
unfolding inverse_proportion inverse_update clamp_low decrease_factor_for
shrunk = refl

run_events-IsBounded_example :
    IsBounded thousandths
      (run_events thousandths fresh (measured failure ∷ was_reset none ∷ measured sample ∷ []))
run_events-IsBounded_example =
    run_events-IsBounded thousandths thousandths-laws thousandths-scale (λ x. x) 2 none unset unset
      (measured failure ∷ was_reset none ∷ measured sample ∷ []) refl tt
      ((λ _. refl), (tt, ((λ _. refl), tt)))

abbrev split_config : SplitConfig ℕ
split_config = record {
  min_a = 50;
  default_initial_alpha = 200;
  warmup_steps = 5;
  smooth = 300;
  eta = 200;
}

abbrev cached : ParamValue ℕ
cached = record {
  alpha = 2000;
  use_pcie = true;
  fast_bw = 0;
  pcie_bw = 0;
  best_alpha = 0;
  best_bandwidth = 0;
}
