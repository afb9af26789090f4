-- ===== src/Controller/Bounds/Factor.antt =====
-- multipath-orchestrator/libampccl/controller/algo_inverse_proportion.h: the factor by which alpha
-- shrinks when a backend fails.
use hy_link.Prelude.{ℕ, ◌≡◌, true, false, arith, leb, if◌then◌else◌, if-intro}
use hy_link.Controller.{decrease_factor_for}
use hy_link.Floats.{Double, DoubleLaws, ScaleLaws, zero_f, one_f}

module _ (d : Double) (laws : DoubleLaws d) (scale : ScaleLaws d) where
  -- The factor by which alpha shrinks lies between 0 and 1.
  pub decrease_factor_for_bounds :
      (sqrt : d.F → d.F) (nranks : ℕ)
      → d.is_nan (d.mul (d.decimal 5 1) (sqrt (d.div (d.decimal 2 0) (d.of_size nranks)))) ≡ false
      → (d.le (zero_f d) (decrease_factor_for d sqrt nranks) ≡ true)
        × (d.le (decrease_factor_for d sqrt nranks) (one_f d) ≡ true)
  unfolding decrease_factor_for
  decrease_factor_for_bounds sqrt nranks num =
      if-intro (λ x. (d.le (zero_f d) x ≡ true) × (d.le x (one_f d) ≡ true)) (leb nranks 1)
        (λ _. (scale.decimal_le 0 0 5 1 (omega arith), scale.decimal_le 5 1 1 0 (omega arith)))
        (λ _. within (d.mul (d.decimal 5 1) (sqrt (d.div (d.decimal 2 0) (d.of_size nranks)))) num)
    where
      above :
          (x : d.F)
          → d.is_nan x ≡ false
          → d.le (d.decimal 2 1) (if d.lt x (d.decimal 2 1) then d.decimal 2 1 else x) ≡ true
      above x n =
          if-intro (λ y. d.le (d.decimal 2 1) y ≡ true) (d.lt x (d.decimal 2 1))
            (λ _. scale.decimal_le 2 1 2 1 (omega arith))
            (λ h. laws.le_of_not_lt x (d.decimal 2 1) n (laws.decimal_num 2 1) h)

      capped :
          (y : d.F)
          → d.le (d.decimal 2 1) y ≡ true
          → (d.le (zero_f d) (if d.lt (one_f d) y then one_f d else y) ≡ true)
            × (d.le (if d.lt (one_f d) y then one_f d else y) (one_f d) ≡ true)
      capped y h =
          if-intro (λ z. (d.le (zero_f d) z ≡ true) × (d.le z (one_f d) ≡ true)) (d.lt (one_f d) y)
            (λ _. (laws.zero-le-one, scale.decimal_le 1 0 1 0 (omega arith)))
            (λ g. (
              scale.le_trans (zero_f d) (d.decimal 2 1) y (scale.decimal_le 0 0 2 1 (omega arith))
                  h,
              laws.le_of_not_lt (one_f d) y (laws.decimal_num 1 0) (scale.le_num _ _ h).1 g,
            ))

      within :
          (x : d.F)
          → d.is_nan x ≡ false
          → (d.le (zero_f d) (
                if d.lt (one_f d) (if d.lt x (d.decimal 2 1) then d.decimal 2 1 else x)
                then one_f d
                else (if d.lt x (d.decimal 2 1) then d.decimal 2 1 else x))
              ≡ true)
            × (d.le
                  (if d.lt (one_f d) (if d.lt x (d.decimal 2 1) then d.decimal 2 1 else x)
                    then one_f d
                    else (if d.lt x (d.decimal 2 1) then d.decimal 2 1 else x))
                  (one_f d)
                ≡ true)
      within x n = capped (if d.lt x (d.decimal 2 1) then d.decimal 2 1 else x) (above x n)
