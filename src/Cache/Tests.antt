-- ===== src/Cache/Tests.antt =====
-- A table of two operations, and witnesses.
use hy_link.Floats.Thousandths.{thousandths}
use hy_link.Prelude.{ℕ, ◌+◌, ◌≡◌, refl, true, [], ◌∷◌, if◌then◌else◌}
use hy_link.Prelude.Int.{pos}
use hy_link.Keys.{OpKey, all_reduce, param_bytes, op_key_eq}
use hy_link.Cache.{ParamValue, ParamTable, contains, update, size, lookup}
use hy_link.Cache.Laws.{Distinct, lookup-update_lem}

abbrev value : ℕ → ParamValue ℕ
value n = record {
  alpha = n;
  use_pcie = true;
  fast_bw = 0;
  pcie_bw = 0;
  best_alpha = 0;
  best_bandwidth = 0;
}

abbrev key_of : ℕ → OpKey
key_of bytes = record {
  op = all_reduce;
  bytes = bytes;
  bucket_bytes = 0;
  datatype = pos 7;
  nranks = pos 4;
  topology_hash = 0;
}

abbrev table : ParamTable ℕ
table = (key_of 1024, value 1) ∷ (key_of 2048, value 2) ∷ []

table-Distinct : Distinct table
unfolding contains op_key_eq param_bytes
table-Distinct = (refl, (refl, tt))

lookup-update_lem_example :
    let t = update table (key_of 2048) (value 3) in
    (lookup thousandths t (key_of 2048) ≡ (
      if op_key_eq (key_of 2048) (key_of 2048)
      then value 3
      else lookup thousandths table (key_of 2048)))
    × (size t ≡ (if contains table (key_of 2048) then size table else size table + 1))
    × (Distinct table → Distinct t)
lookup-update_lem_example =
    lookup-update_lem thousandths table (key_of 2048) (key_of 2048) (value 3)
