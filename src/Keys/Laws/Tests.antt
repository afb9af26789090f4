-- ===== src/Keys/Laws/Tests.antt =====
-- Two keys that differ in their exact size only, and witnesses.
use hy_link.Prelude.{ℕ, ◌≡◌, ◌↔◌, true}
use hy_link.Prelude.Int.{ℤ, pos}
use hy_link.Keys.{OpKey, all_reduce, op_key_eq, op_key_hash}
use hy_link.Keys.Laws.{key_view, op_key_eq-op_key_hash}

abbrev bucketed : ℕ → OpKey
bucketed bytes = record {
  op = all_reduce;
  bytes = bytes;
  bucket_bytes = 1048576;
  datatype = pos 7;
  nranks = pos 4;
  topology_hash = 99;
}

abbrev int_code : ℤ → ℕ
int_code (pos n) = n
int_code (ℤ.negsuc n) = n

op_key_eq-op_key_hash_example :
    let a = bucketed 1000000 in
    let b = bucketed 1000001 in
    ((op_key_eq a b ≡ true) ↔ (key_view a ≡ key_view b))
    × (op_key_eq a b ≡ true → op_key_hash int_code (λ n. n) a ≡ op_key_hash int_code (λ n. n) b)
op_key_eq-op_key_hash_example =
    op_key_eq-op_key_hash int_code (λ n. n) (bucketed 1000000) (bucketed 1000001)
