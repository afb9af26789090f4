-- ===== src/Planner/Split.antt =====
-- What a plan does with the bytes of its message (core/planner.h).
use hy_link.Prelude.{
  ℕ, ◌+◌, ◌%◌, ◌^◌, ◌≤◌, ◌<◌, ◌≡◌, ◌≢◌, ◌⊎◌, Bool, true, false, arith, u64_mod, Bool-cases, inl,
  inr,
}
use hy_link.Floats.{Double, DoubleLaws, zero_f, one_f}
use hy_link.Planner.{Plan, PlanConfig, plan_for, clamp_alpha, create_plan, skips_pcie}

-- The plan sends every byte once, the fast part ends on a 128-byte boundary, the PCIe part is not
-- empty, and the fast part is empty or at least one minimal chunk.
abbrev pub IsExact : ℕ → ℕ → Plan → Type 0
IsExact min_chunk total p =
    (p.fast_bytes + p.pcie_bytes ≡ total)
    × (p.fast_bytes % 128 ≡ 0)
    × (0 < p.pcie_bytes)
    × ((p.fast_bytes ≡ 0) ⊎ (min_chunk ≤ p.fast_bytes))

-- The counters add up to the message modulo 2 ^ 64 only: `pcie_bytes` has wrapped.
abbrev pub HasWrapped : ℕ → Plan → Type 0
HasWrapped total p = (total < p.fast_bytes) × (2 ^ 63 ≤ p.pcie_bytes)

module _ (min_chunk total pcie : ℕ) (fits : pcie ≤ total) (small : total ≤ 2 ^ 53) where
  plan_for-IsExact :
      128 ≤ min_chunk
      → (plan_for min_chunk total pcie).use_pcie ≡ true
      → IsExact min_chunk total (plan_for min_chunk total pcie)
  unfolding plan_for
  plan_for-IsExact h u = (ground arith, ground arith, ground arith, ground arith)

  plan_for-sum :
      ((plan_for min_chunk total pcie).fast_bytes + (plan_for min_chunk total pcie).pcie_bytes)
        % u64_mod
      ≡ total
  unfolding plan_for
  plan_for-sum = ground arith

  plan_for-HasWrapped :
      total % 128 ≢ 0
      → (plan_for min_chunk total pcie).use_pcie ≡ false
      → HasWrapped total (plan_for min_chunk total pcie)
  unfolding plan_for
  plan_for-HasWrapped h u = (ground arith, ground arith)

module _ (d : Double) (laws : DoubleLaws d) where
  clamp_alpha-unit :
      (alpha : d.F)
      → d.is_nan alpha ≡ false
      → (d.le (zero_f d) (clamp_alpha d alpha) ≡ true)
        × (d.le (clamp_alpha d alpha) (one_f d) ≡ true)
  unfolding clamp_alpha
  clamp_alpha-unit alpha num = (
    ground (
      arith,
      laws.zero-le-one,
      laws.lt_irrefl (zero_f d),
      laws.decimal_num 0 0,
      laws.decimal_num 1 0,
      laws.le_of_not_lt (zero_f d) (zero_f d),
      laws.le_of_not_lt alpha (zero_f d),
    ),
    ground (
      arith,
      laws.zero-le-one,
      laws.lt_irrefl (one_f d),
      laws.decimal_num 0 0,
      laws.decimal_num 1 0,
      laws.le_of_not_lt (one_f d) (one_f d),
      laws.le_of_not_lt (one_f d) alpha,
    ),
  )

  module _ (cfg : PlanConfig) (total : ℕ) (alpha : d.F) (hint : Bool) where
    scaled-le :
        d.is_nan alpha ≡ false
        → total ≤ 2 ^ 53
        → d.to_size (d.mul (d.of_size total) (clamp_alpha d alpha)) ≤ total
    scaled-le num small =
        let unit = clamp_alpha-unit alpha num in
        laws.trunc_le total (clamp_alpha d alpha) small unit.0 unit.1

    skipped-fast :
        skips_pcie cfg total hint ≡ true → ¬ ((create_plan d cfg total alpha hint).use_pcie ≡ true)
    unfolding create_plan
    skipped-fast e u = ground arith

    -- Whenever a plan of at most 2^53 bytes with a minimal chunk of 128 bytes or more uses PCIe, it
    -- sends every byte exactly once, the PCIe part starts at a multiple of 128 and is not empty, and
    -- the fast part is empty or at least a minimal chunk, for every alpha that is a number.
    pub create_plan-IsExact :
        d.is_nan alpha ≡ false
        → total ≤ 2 ^ 53
        → 128 ≤ cfg.min_chunk_size
        → (create_plan d cfg total alpha hint).use_pcie ≡ true
        → IsExact cfg.min_chunk_size total (create_plan d cfg total alpha hint)
    unfolding create_plan
    create_plan-IsExact num small chunk = elim (Bool-cases (skips_pcie cfg total hint)) [
      | inl e ↦ λ u. absurd (skipped-fast e u)
      | inr e ↦ rw e (plan_for-IsExact _ total _ (scaled-le num small) small chunk)
    ]

    -- For a message of at most 2^53 bytes and any alpha that is a number, the two byte counts of the
    -- plan add up to the message modulo 2^64, on every branch and for every configuration.
    pub create_plan-sum :
        d.is_nan alpha ≡ false
        → total ≤ 2 ^ 53
        → ((create_plan d cfg total alpha hint).fast_bytes
              + (create_plan d cfg total alpha hint).pcie_bytes)
            % u64_mod
          ≡ total
    unfolding create_plan
    create_plan-sum num small = elim (Bool-cases (skips_pcie cfg total hint)) [
      | inl e ↦ rw e (omega arith)
      | inr e ↦ rw e (plan_for-sum _ total _ (scaled-le num small) small)
    ]

    -- Where the planner looks at the split, gives the PCIe part up, and the message of at most 2^53
    -- bytes is not a multiple of 128, the plan's fast part is larger than the message and its PCIe
    -- count has wrapped below zero, to 2^63 or more, for every alpha that is a number.
    pub create_plan-HasWrapped :
        d.is_nan alpha ≡ false
        → total ≤ 2 ^ 53
        → skips_pcie cfg total hint ≡ false
        → (create_plan d cfg total alpha hint).use_pcie ≡ false
        → total % 128 ≢ 0
        → HasWrapped total (create_plan d cfg total alpha hint)
    unfolding create_plan
    create_plan-HasWrapped num small e =
        rw e (λ u h. plan_for-HasWrapped _ total _ (scaled-le num small) small h u)
