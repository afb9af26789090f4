-- ===== src/Planner.antt =====
-- multipath-orchestrator/libampccl/core/planner.h: how one message is split between the fast
-- backend and the PCIe backend. The configuration values come from the environment and are an
-- argument.
pub mod Split
mod Tests
use hy_link.Prelude.{
  ℕ, ◌+◌, ◌*◌, ◌/◌, Bool, true, false, ◌&&◌, ◌||◌, not, ltb, if◌then◌else◌, add64, sub64,
}
use hy_link.Floats.{Double, zero_f, one_f}

pub record Plan : Type 0 where
  pub fast_bytes : ℕ
  pub pcie_bytes : ℕ
  pub use_pcie : Bool

-- Config::IsPCIeEnabled, GetMinMsgSize and GetMinChunkSize.
pub record PlanConfig : Type 0 where
  pub pcie_enabled : Bool
  pub min_msg_size : ℕ
  pub min_chunk_size : ℕ

pub fast_only : ℕ → Plan
fast_only total = record { fast_bytes = total; pcie_bytes = 0; use_pcie = false }

pub skips_pcie : PlanConfig → ℕ → Bool → Bool
skips_pcie cfg total hint = not cfg.pcie_enabled || ltb total cfg.min_msg_size || not hint

-- Enforce minimum chunk sizes: a small fast part joins the PCIe part.
pub merge_small_fast : ℕ → Plan → Plan
merge_small_fast min_chunk p =
    if ltb 0 p.fast_bytes && ltb p.fast_bytes min_chunk
    then record p { pcie_bytes = add64 p.pcie_bytes p.fast_bytes; fast_bytes = 0 }
    else p

-- Then a small PCIe part joins the fast part.
pub merge_small_pcie : ℕ → Plan → Plan
merge_small_pcie min_chunk p =
    if ltb 0 p.pcie_bytes && ltb p.pcie_bytes min_chunk
    then record p { fast_bytes = add64 p.fast_bytes p.pcie_bytes; pcie_bytes = 0 }
    else p

-- If either chunk is too small, use only one backend.
pub pick_backend : ℕ → ℕ → Plan → Plan
pick_backend min_chunk total p =
    if ltb p.pcie_bytes min_chunk
    then record { fast_bytes = total; pcie_bytes = 0; use_pcie = false }
    else if ltb p.fast_bytes min_chunk
    then record { fast_bytes = 0; pcie_bytes = total; use_pcie = true }
    else record p { use_pcie = true }

-- (x + 127) & ~127
pub align_up : ℕ → ℕ
align_up x = add64 x 127 / 128 * 128

pub align_plan : Plan → Plan
unfolding align_up
align_plan p = record p { fast_bytes = align_up p.fast_bytes; pcie_bytes = align_up p.pcie_bytes }

-- Ensure total doesn't exceed original.
pub cap_plan : ℕ → Plan → Plan
cap_plan total p =
    if ltb total (add64 p.fast_bytes p.pcie_bytes)
    then record p { pcie_bytes = sub64 total p.fast_bytes }
    else p

-- The plan for a first split of `pcie` bytes, lines 42 to 79.
pub plan_for : ℕ → ℕ → ℕ → Plan
unfolding merge_small_fast merge_small_pcie pick_backend align_plan cap_plan
plan_for min_chunk total pcie =
    let p : Plan = record { fast_bytes = sub64 total pcie; pcie_bytes = pcie; use_pcie = false } in
    cap_plan total (
      align_plan
        (pick_backend min_chunk total (merge_small_pcie min_chunk (merge_small_fast min_chunk p))))

module _ (d : Double) where
  -- Clamp alpha to [0, 1].
  pub clamp_alpha : d.F → d.F
  clamp_alpha alpha =
      let low = if d.lt alpha (zero_f d) then zero_f d else alpha in
      if d.lt (one_f d) low then one_f d else low

  pub create_plan : PlanConfig → ℕ → d.F → Bool → Plan
  unfolding fast_only skips_pcie clamp_alpha
  create_plan cfg total alpha hint =
      if skips_pcie cfg total hint
      then fast_only total
      else plan_for cfg.min_chunk_size total
          (d.to_size (d.mul (d.of_size total) (clamp_alpha alpha)))
