-- ===== src/Domain/ShmStore/Tests.antt =====
-- Two ranks of which the second failed on PCIe, and the round that rank 0 makes of their statistics.
use hy_link.Prelude.Int.{pos}
use hy_link.Keys.{all_reduce, OpKey, op_key_eq}
use hy_link.Cache.{ParamTable, lookup}
use hy_link.Floats.Thousandths.{thousandths, thousandths-laws, thousandths-scale}
use hy_link.Controller.{ExecStat, unset}
use hy_link.Controller.Adaptive.{inverse_kind, AlgoConfig, AlgoTable, controller_update}
use hy_link.Domain.ShmStore.{
  StatSlot, ShmParamStore, nothing, waits, aggregated, write_my_stat, is_current, any_current,
  all_current, all_success, write_params, signal_param_written, read_params, max_time, global_stat,
  next_epoch, read_all_stats_and_aggregate, shm_round_begin,
}
use hy_link.Domain.ShmStore.Agreement.{
  IsJoint, read_all_stats_and_aggregate-IsJoint, shm_round_begin-read_params,
}
use hy_link.Prelude.{ℕ, ◌<◌, ◌≡◌, refl, Bool, true, false, none, [], if◌then◌else◌, some}

abbrev key : OpKey
key = record {
  op = all_reduce;
  bytes = 8388608;
  bucket_bytes = 0;
  datatype = pos 0;
  nranks = pos 2;
  topology_hash = 1;
}

abbrev report : ℕ → Bool → ExecStat ℕ
report time success = record {
  fast_time = time;
  pcie_time = 2;
  fast_bytes = 6291456;
  pcie_bytes = 2097152;
  fast_success = true;
  pcie_success = success;
}

abbrev empty_slot : StatSlot ℕ
empty_slot = record { valid = false; epoch = 0; key = key; stat = report 0 true }

abbrev empty_store : ShmParamStore ℕ
empty_store = record {
  nranks = 2;
  stat_epoch = 7;
  slots = λ r. empty_slot;
  param_read_count = 0;
  param_version = 0;
  entries = [];
}

abbrev one_written : ShmParamStore ℕ
one_written = write_my_stat empty_store (pos 0) key (report 4 true)

abbrev two_written : ShmParamStore ℕ
two_written = write_my_stat one_written (pos 1) key (report 5 false)

abbrev taken_stat : ExecStat ℕ
taken_stat = record (report 5 false) { pcie_time = 2 }

late : read_all_stats_and_aggregate thousandths one_written ≡ waits
unfolding read_all_stats_and_aggregate any_current all_current is_current write_my_stat
late = refl

took :
    read_all_stats_and_aggregate thousandths two_written
    ≡ aggregated taken_stat key (next_epoch thousandths two_written)
unfolding read_all_stats_and_aggregate any_current all_current is_current write_my_stat global_stat
    max_time all_success
took = refl

read_all_stats_and_aggregate-IsJoint_example :
    ((r : ℕ)
      → r < 2
      → IsJoint thousandths thousandths-laws thousandths-scale two_written taken_stat r)
    × (read_all_stats_and_aggregate thousandths (next_epoch thousandths two_written) ≡ nothing)
unfolding write_my_stat
read_all_stats_and_aggregate-IsJoint_example =
    read_all_stats_and_aggregate-IsJoint thousandths thousandths-laws thousandths-scale two_written
      (next_epoch thousandths two_written) taken_stat key took

abbrev config : AlgoConfig ℕ
config = record {
  kind = inverse_kind;
  sqrt = λ x. x;
  nranks = 2;
  initial = none;
  low = unset;
  high = unset;
  split_config = record {
    min_a = 50;
    default_initial_alpha = 200;
    warmup_steps = 5;
    smooth = 300;
    eta = 200;
  };
  static_alpha = 0;
  pcie_enabled = true;
}

abbrev updated : AlgoTable thousandths × ParamTable ℕ
updated = controller_update thousandths config [] key taken_stat []

abbrev written : ShmParamStore ℕ
written =
    signal_param_written
      (write_params (next_epoch thousandths two_written) key (lookup thousandths (updated.1) key))

round :
    shm_round_begin thousandths config [] [] two_written
    ≡ some (updated.0, (read_params true written (updated.1)).0, written)
unfolding shm_round_begin read_all_stats_and_aggregate any_current all_current is_current
    write_my_stat global_stat max_time all_success
round = refl

shm_round_begin-read_params_example : lookup thousandths (read_params false written []).0 key ≡ (
    if op_key_eq key key
    then lookup thousandths (read_params true written (updated.1)).0 key
    else lookup thousandths [] key)
shm_round_begin-read_params_example =
    shm_round_begin-read_params thousandths config [] (updated.0) []
      (read_params true written (updated.1)).0 [] two_written (next_epoch thousandths two_written)
      written taken_stat key key took round
