-- ===== src/Cache.antt =====
-- multipath-orchestrator/libampccl/cache/param_cache.h: the adaptive parameters of each operation.
-- The hash table is an association list under the equality of keys; a write to a present key keeps
-- the stored key, as `table_[key] = value` does. The order in which the code copies entries out is
-- unspecified, and is the list's here. Each operation holds the cache's mutex, so it is one step.
pub mod Laws
mod Tests
use hy_link.Prelude.{ℕ, Bool, true, false, List, [], ◌∷◌, length, if◌then◌else◌}
use hy_link.Floats.{Double}
use hy_link.Keys.{OpKey, op_key_eq}

pub record ParamValue (F : Type 0) : Type 0 where
  pub alpha : F
  pub use_pcie : Bool
  pub fast_bw : F
  pub pcie_bw : F
  pub best_alpha : F
  pub best_bandwidth : F

abbrev pub ParamTable : Type 0 → Type 0
ParamTable F = List (OpKey × ParamValue F)

module _ {F : Type 0} where
  pub contains : ParamTable F → OpKey → Bool
  contains [] key = false
  contains ((k, v) ∷ t) key = if op_key_eq k key then true else contains t key

  pub lookup_or : ParamValue F → ParamTable F → OpKey → ParamValue F
  lookup_or default [] key = default
  lookup_or default ((k, v) ∷ t) key = if op_key_eq k key then v else lookup_or default t key

  pub update : ParamTable F → OpKey → ParamValue F → ParamTable F
  update [] key value = (key, value) ∷ []
  update ((k, v) ∷ t) key value =
      if op_key_eq k key then (k, value) ∷ t else (k, v) ∷ update t key value

  -- Merge one entry from shared memory.
  unfoldable pub merge_one : ParamTable F → OpKey → ParamValue F → ParamTable F
  unfolding update
  merge_one = update

  pub clear : ParamTable F → ParamTable F
  clear t = []

  pub size : ParamTable F → ℕ
  size = length

  pub get_all : ParamTable F → List (OpKey × ParamValue F)
  get_all t = t

  pub set_from : ParamTable F → List (OpKey × ParamValue F) → ParamTable F
  set_from t [] = t
  set_from t ((k, v) ∷ entries) = set_from (update t k v) entries

-- 50% split, PCIe enabled, no measurements.
pub default_param : (d : Double) → ParamValue d.F
default_param d = record {
  alpha = d.decimal 5 1;
  use_pcie = true;
  fast_bw = d.decimal 0 0;
  pcie_bw = d.decimal 0 0;
  best_alpha = d.decimal 0 0;
  best_bandwidth = d.decimal 0 0;
}

pub lookup : (d : Double) → ParamTable d.F → OpKey → ParamValue d.F
unfolding default_param lookup_or
lookup d t key = lookup_or (default_param d) t key
