-- ===== src/Domain/ShmStore.antt =====
-- multipath-orchestrator/libampccl/core/shm_store.cc: the statistics that the ranks of a communicator
-- put into shared memory, and the parameters that rank 0 makes of them. A store is attached here. A
-- call is one step: a wait for another rank is the answer `waits`, and the parameters, which rank 0
-- writes only when all have read the last ones, are read as they stand. The logged bandwidths are left
-- out.
pub mod Agreement
mod Tests
use hy_link.Controller.Adaptive.{AlgoConfig, AlgoTable, controller_update}
use hy_link.Prelude.Int.{ℤ, is_nonneg, to_nat}
use hy_link.Keys.{OpKey}
use hy_link.Cache.{ParamValue, ParamTable, merge_one, lookup}
use hy_link.Floats.{Double, zero_f}
use hy_link.Controller.{ExecStat}
use hy_link.Prelude.{
  List, ℕ, zero, suc, ◌-◌, Bool, true, false, ◌&&◌, ◌||◌, not, [], ◌∷◌, ltb, leb, ◌==◌,
  if◌then◌else◌, add64, ◌+◌, ◌%◌, ◌^◌, Option, none, some,
}

pub record StatSlot (F : Type 0) : Type 0 where
  pub valid : Bool
  pub epoch : ℕ
  pub key : OpKey
  pub stat : ExecStat F

pub record ShmParamStore (F : Type 0) : Type 0 where
  pub nranks : ℕ
  pub stat_epoch : ℕ
  pub slots : ℕ → StatSlot F
  pub param_read_count : ℕ
  pub param_version : ℕ
  pub entries : List (OpKey × ParamValue F)

pub data Aggregate (F : Type 0) : Type 0 where
  nothing waits : Aggregate F
  aggregated : ExecStat F → OpKey → ShmParamStore F → Aggregate F

module _ {F : Type 0} where
  pub write_my_stat : ShmParamStore F → ℤ → OpKey → ExecStat F → ShmParamStore F
  write_my_stat st my_rank key stat =
      if not (is_nonneg my_rank) || leb st.nranks (to_nat my_rank) then st else record st {
        slots = λ r.
            if r == to_nat my_rank
            then record { valid = true; epoch = st.stat_epoch; key = key; stat = stat }
            else st.slots r;
      }

  unfoldable pub is_current : ShmParamStore F → ℕ → Bool
  is_current st r = (st.slots r).valid && (st.slots r).epoch == st.stat_epoch

  -- Whether some rank below `n`, or every one, has a valid slot of the epoch.
  unfoldable pub any_current : ShmParamStore F → ℕ → Bool
  unfolding is_current
  any_current st zero = false
  any_current st (suc n) = any_current st n || is_current st n

  unfoldable pub all_current : ShmParamStore F → ℕ → Bool
  unfolding is_current
  all_current st zero = true
  all_current st (suc n) = all_current st n && is_current st n

  -- Whether all ranks below `n` report success.
  unfoldable pub all_success : (ExecStat F → Bool) → ShmParamStore F → ℕ → Bool
  all_success success st zero = true
  all_success success st (suc n) = all_success success st n && success (st.slots n).stat

  pub write_params : ShmParamStore F → OpKey → ParamValue F → ShmParamStore F
  write_params st key value = record st {
    entries = (key, value) ∷ [];
    param_version = add64 st.param_version 1;
  }

  -- SignalParamWritten of rank 0.
  pub signal_param_written : ShmParamStore F → ShmParamStore F
  signal_param_written st = record st {
    param_read_count = if ltb 1 st.nranks then st.nranks - 1 else 0;
  }

  -- ReadParams: the entries are merged, and a rank but 0 has consumed them.
  unfoldable pub merge_entries : List (OpKey × ParamValue F) → ParamTable F → ParamTable F
  merge_entries [] cache = cache
  merge_entries ((key, value) ∷ entries) cache = merge_entries entries (merge_one cache key value)

  pub read_params : Bool → ShmParamStore F → ParamTable F → ParamTable F × ShmParamStore F
  unfolding merge_entries
  read_params is_rank0 st cache = (
    merge_entries st.entries cache,
    if is_rank0
        then st
        else record st { param_read_count = (st.param_read_count + (2 ^ 32 - 1)) % 2 ^ 32 },
  )

module _ (d : Double) where
  -- The largest of the ranks' times, from rank 0 on.
  unfoldable pub max_time : (ExecStat d.F → d.F) → ShmParamStore d.F → ℕ → d.F
  max_time time st zero = zero_f d
  max_time time st (suc n) =
      let best = max_time time st n in
      if d.lt best (time (st.slots n).stat) then time (st.slots n).stat else best

  unfoldable pub global_stat : ShmParamStore d.F → ExecStat d.F
  unfolding max_time all_success
  global_stat st = record {
    fast_time = max_time (λ s. s.fast_time) st st.nranks;
    pcie_time = max_time (λ s. s.pcie_time) st st.nranks;
    fast_bytes = (st.slots 0).stat.fast_bytes;
    pcie_bytes = (st.slots 0).stat.pcie_bytes;
    fast_success = all_success (λ s. s.fast_success) st st.nranks;
    pcie_success = all_success (λ s. s.pcie_success) st st.nranks;
  }

  -- The slots are given back and the next epoch begins.
  unfoldable pub next_epoch : ShmParamStore d.F → ShmParamStore d.F
  next_epoch st = record st {
    slots = λ r. if ltb r st.nranks then record (st.slots r) { valid = false } else st.slots r;
    stat_epoch = add64 st.stat_epoch 1;
  }

  unfoldable pub read_all_stats_and_aggregate : ShmParamStore d.F → Aggregate d.F
  unfolding any_current all_current global_stat next_epoch
  read_all_stats_and_aggregate st =
      if not (any_current st st.nranks)
      then nothing
      else if not (all_current st st.nranks)
      then waits
      else aggregated (global_stat st) (st.slots 0).key (next_epoch st)

  -- ShmRoundBegin of rank 0 in core/virtual_collective.h, which goes on only when all ranks have read
  -- the last parameters and none is late with its statistics.
  unfoldable pub shm_round_begin :
      AlgoConfig d.F
      → AlgoTable d
      → ParamTable d.F
      → ShmParamStore d.F
      → Option (AlgoTable d × ParamTable d.F × ShmParamStore d.F)
  unfolding read_all_stats_and_aggregate
  shm_round_begin cfg t cache st =
      let round =
        elim (read_all_stats_and_aggregate st)
          as (λ a. Option (AlgoTable d × ParamTable d.F × ShmParamStore d.F)) [
            | waits ↦ none
            | nothing ↦
                let st' = signal_param_written st in some (t, (read_params true st' cache).0, st')
            | aggregated stat key next ↦
                let (t', updated) = controller_update d cfg t key stat cache in
                let st' = signal_param_written (write_params next key (lookup d updated key)) in
                some (t', (read_params true st' updated).0, st')
          ] in
      if st.param_read_count == 0 then round else none
