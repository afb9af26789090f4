-- ===== src/Keys.antt =====
-- multipath-orchestrator/libampccl/common/op_key.h and common/intercept_policy.h: the key under
-- which adaptive parameters are kept, and which calls the hooks take over.
pub mod Laws
pub mod Intercept
use Prim.Native.Nat.{bit_xor}
use hy_link.Prelude.{
  ℕ, ◌*◌, ◌%◌, ◌^◌, ◌≤◌, ◌≡◌, Bool, true, false, ◌&&◌, ◌==◌, if◌then◌else◌, u64_mod,
}
use hy_link.Prelude.Int.{ℤ, int_eq}

pub data CollectiveType : Type 0 where
  all_reduce all_gather reduce_scatter all_to_all : CollectiveType

-- static_cast<int>(op)
abbrev pub op_code : CollectiveType → ℕ
op_code all_reduce = 0
op_code all_gather = 1
op_code reduce_scatter = 2
op_code all_to_all = 3

pub record OpKey : Type 0 where
  pub op : CollectiveType
  pub bytes : ℕ
  pub bucket_bytes : ℕ
  pub datatype : ℤ
  pub nranks : ℤ
  pub topology_hash : ℕ

unfoldable pub param_bytes : OpKey → ℕ
param_bytes k = if k.bucket_bytes == 0 then k.bytes else k.bucket_bytes

unfoldable pub op_key_eq : OpKey → OpKey → Bool
op_key_eq a b =
    op_code a.op == op_code b.op
    && param_bytes a == param_bytes b
    && int_eq a.datatype b.datatype
    && int_eq a.nranks b.nranks
    && a.topology_hash == b.topology_hash

-- x << k in a size_t
pub shl64 : ℕ → ℕ → ℕ
shl64 x k = (x * 2 ^ k) % u64_mod

-- std::hash of an `int` and of a 64-bit number belong to the standard library.
module _ (hash_int : ℤ → ℕ) (hash_u64 : ℕ → ℕ) where
  pub op_key_hash : OpKey → ℕ
  unfolding shl64
  op_key_hash k =
      bit_xor
        (bit_xor
          (bit_xor (bit_xor (hash_int (ℤ.pos (op_code k.op))) (shl64 (hash_u64 (param_bytes k)) 1))
            (shl64 (hash_int k.datatype) 2))
          (shl64 (hash_int k.nranks) 3))
        (shl64 (hash_u64 k.topology_hash) 4)
