-- ===== src/Planner/Tests.antt =====
-- Runs of the planner, with the numbers of thousandths in the place of doubles, and witnesses.
use hy_link.Prelude.{◌≡◌, refl, true, arith}
use hy_link.Floats.Thousandths.{thousandths, thousandths-laws}
use hy_link.Planner.{PlanConfig, create_plan, plan_for, skips_pcie, clamp_alpha}
use hy_link.Planner.Split.{IsExact, HasWrapped, create_plan-IsExact, create_plan-HasWrapped}

abbrev defaults : PlanConfig
defaults = record { pcie_enabled = true; min_msg_size = 4194304; min_chunk_size = 4096 }

half :
    create_plan thousandths defaults 8388613 500 true
    ≡ record { fast_bytes = 4194432; pcie_bytes = 4194181; use_pcie = true }
unfolding create_plan plan_for skips_pcie clamp_alpha
half = refl

create_plan-IsExact_example :
    IsExact 4096 8388613 (create_plan thousandths defaults 8388613 500 true)
unfolding create_plan plan_for skips_pcie clamp_alpha
create_plan-IsExact_example =
    create_plan-IsExact thousandths thousandths-laws defaults 8388613 500 true refl (omega arith)
      (omega arith) refl

create_plan-HasWrapped_example :
    HasWrapped 8388613 (create_plan thousandths defaults 8388613 0 true)
unfolding create_plan plan_for skips_pcie clamp_alpha
create_plan-HasWrapped_example =
    create_plan-HasWrapped thousandths thousandths-laws defaults 8388613 0 true refl (omega arith)
      refl refl (λ e. omega arith)
