-- ===== src/Controller/SplitRatio/Range.antt =====
-- multipath-orchestrator/libampccl/controller/algo_split_ratio_control.h: the range of alpha.
use hy_link.Prelude.{
  ◌≡◌, true, ◌||◌, not, arith, if◌then◌else◌, if-intro, inl, inr, ◌==◌, Bool-cases,
}
use hy_link.Controller.SplitRatio.{
  SplitConfig, SplitRatio, max_share, clamp_share, split_suggest, split_update,
}
use hy_link.Controller.{ExecStat, fast_bandwidth, pcie_bandwidth}
use hy_link.Floats.{Double, DoubleLaws, ScaleLaws, zero_f}
use hy_link.Cache.{ParamValue}

module _ (d : Double) (laws : DoubleLaws d) (scale : ScaleLaws d) (cfg : SplitConfig d.F)
    (zero-le-min : d.le (zero_f d) cfg.min_a ≡ true)
    (min-le-max : d.le cfg.min_a (max_share d) ≡ true) where
  -- min_a <= a <= 0.999
  abbrev pub IsShare : d.F → Type 0
  IsShare a = (d.le cfg.min_a a ≡ true) × (d.le a (max_share d) ≡ true)

  min_refl : d.le cfg.min_a cfg.min_a ≡ true
  min_refl =
      laws.le_of_not_lt cfg.min_a cfg.min_a (scale.le_num _ _ min-le-max).0
        (scale.le_num _ _ min-le-max).0 (laws.lt_irrefl cfg.min_a)

  -- Even a NaN is brought into the range.
  clamp_share-IsShare : (a : d.F) → IsShare (clamp_share d cfg.min_a a)
  unfolding clamp_share
  clamp_share-IsShare a =
      if-intro IsShare (d.lt cfg.min_a (if d.lt a (max_share d) then a else max_share d))
        (λ h. (scale.le_of_lt _ _ h, capped)) (λ _. (min_refl, min-le-max))
    where
      capped : d.le (if d.lt a (max_share d) then a else max_share d) (max_share d) ≡ true
      capped =
          if-intro (λ x. d.le x (max_share d) ≡ true) (d.lt a (max_share d))
            (λ h. scale.le_of_lt _ _ h) (λ _. scale.decimal_le 999 3 999 3 (omega arith))

  -- Where the least share lies between 0 and 0.999, every suggestion lies between the two, whatever is
  -- cached, and every update keeps alpha there, whatever was measured.
  pub split_update-IsShare :
      (algo : SplitRatio d) (current : ParamValue d.F) (stat : ExecStat d.F)
      → IsShare (split_suggest d cfg algo current).alpha
        × (IsShare algo.alpha → IsShare (split_update d cfg algo stat).alpha)
  unfolding split_suggest split_update
  split_update-IsShare algo current stat = (
    clamp_share-IsShare _,
    λ h. elim (Bool-cases (not stat.fast_success || not stat.pcie_success)) [
      | inl t ↦ rw t (halved h)
      | inr t ↦
          rw t
            (elim (Bool-cases (
              stat.pcie_bytes == 0
              || (d.le (pcie_bandwidth d stat) (zero_f d)
                  || d.le (fast_bandwidth d stat) (zero_f d)))) [
                    | inl u ↦ rw u h
                    | inr u ↦ rw u (clamp_share-IsShare _)
                  ])
    ],
  )
    where
      halved :
          IsShare algo.alpha
          → IsShare (
              if d.lt (d.mul algo.alpha (d.decimal 5 1)) cfg.min_a
              then cfg.min_a
              else d.mul algo.alpha (d.decimal 5 1))
      halved h =
          if-intro IsShare (d.lt (d.mul algo.alpha (d.decimal 5 1)) cfg.min_a)
            (λ _. (min_refl, min-le-max))
            (λ low.
              let num = (scale.le_num _ _ h.0).1 in
              let half =
                scale.mul_num (d.decimal 5 1) algo.alpha
                  (scale.decimal_pos 5 1 (omega arith) (omega arith))
                  (scale.decimal_le 5 1 1 0 (omega arith)) num in
              let shrunk =
                scale.mul_le algo.alpha (d.decimal 5 1) (scale.le_trans _ _ _ zero-le-min h.0)
                  (scale.decimal_le 0 0 5 1 (omega arith))
                  (scale.decimal_le 5 1 1 0 (omega arith)) in
              (
                laws.le_of_not_lt _ _ half.1 (scale.le_num _ _ min-le-max).0 low,
                scale.le_trans _ _ _ shrunk h.1,
              ))
