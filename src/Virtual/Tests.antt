-- ===== src/Virtual/Tests.antt =====
-- An AllReduce of floats whose PCIe part is ordered by the streams, and one whose waits are refused.
use hy_link.Planner.{Plan, PlanConfig, create_plan}
use hy_link.Virtual.{
  unhandled_error, success_result, Environment, pcie_wait_for_user_input_if_needed,
  pcie_complete_on_user_stream_if_needed, sync_pcie_stream_before_callback_if_enabled, launch_parts,
  launch_both, supported_plan, launch, all_reduce,
}
use hy_link.Virtual.Parts.{parts_of, IsLaunch, all_reduce-create_plan}
use hy_link.Virtual.Order.{is_ordered, all_reduce_ordered}
use hy_link.Floats.Thousandths.{thousandths, thousandths-laws}
use hy_link.Prelude.{◌*◌, ◌≡◌, refl, Bool, true, false, [], ◌∷◌, arith}

abbrev defaults : PlanConfig
defaults = record { pcie_enabled = true; min_msg_size = 4194304; min_chunk_size = 4096 }

abbrev machine : Bool → Environment
machine waits = record {
  elem_size = 4;
  supports_collective = true;
  has_user_stream = true;
  has_pcie_stream = true;
  fast_only_bw_log = false;
  sync_before_callback = false;
  has_submission = true;
  input_ready_ok = true;
  input_wait_ok = waits;
  complete_write_ok = true;
  complete_wait_ok = true;
  synchronize_ok = waits;
  event_wait_ok = true;
  fast_result = success_result;
  pcie_result = success_result;
}

abbrev halves : Plan
halves = record { fast_bytes = 4194304; pcie_bytes = 4194304; use_pcie = true }

two_parts :
    parts_of (all_reduce (machine true) 2097152 halves).1 ≡ (0, 1048576) ∷ (4194304, 1048576) ∷ []
unfolding parts_of all_reduce supported_plan launch launch_both launch_parts
    pcie_wait_for_user_input_if_needed pcie_complete_on_user_stream_if_needed
    sync_pcie_stream_before_callback_if_enabled
two_parts = refl

refused : (all_reduce (machine false) 2097152 halves).0.code ≡ unhandled_error
unfolding all_reduce supported_plan launch launch_both pcie_wait_for_user_input_if_needed
refused = refl

all_reduce_ordered_example :
    is_ordered (machine true) false (all_reduce (machine true) 2097152 halves).1 ≡ true
all_reduce_ordered_example = all_reduce_ordered (machine true) 2097152 halves refl

all_reduce-create_plan_example :
    IsLaunch
      (machine true)
      2097153
      (all_reduce (machine true) 2097153 (create_plan thousandths defaults (2097153 * 4) 500 true))
all_reduce-create_plan_example =
    all_reduce-create_plan thousandths thousandths-laws defaults 500 true (machine true) 2097153
      refl (omega arith) (omega arith) (omega arith) (omega arith)
