-- ===== src/Keys/Laws.antt =====
-- Equality of operation keys, and the hash that the tables use with it.
mod Tests
use hy_link.Prelude.{ℕ, ◌≡◌, ◌↔◌, true, arith}
use hy_link.Prelude.Int.{ℤ, int_eq_iff}
use hy_link.Keys.{OpKey, op_code, param_bytes, op_key_eq, op_key_hash}

-- What an operation key is compared by.
pub key_view : OpKey → ℕ × ℕ × ℤ × ℤ × ℕ
key_view k = (op_code k.op, param_bytes k, k.datatype, k.nranks, k.topology_hash)

-- Two keys are equal for the tables exactly when operation, parameter size, datatype, ranks and
-- topology agree.
pub op_key_eq_iff : (a b : OpKey) → (op_key_eq a b ≡ true) ↔ (key_view a ≡ key_view b)
unfolding op_key_eq key_view
op_key_eq_iff a b = (
  λ h. ground (arith, int_eq_iff a.datatype b.datatype, int_eq_iff a.nranks b.nranks),
  λ h. ground (arith, int_eq_iff a.datatype b.datatype, int_eq_iff a.nranks b.nranks),
)

-- Keys that the tables take for equal have equal hashes, whatever the standard hashes are.
pub op_key_hash-eq :
    (hash_int : ℤ → ℕ) (hash_u64 : ℕ → ℕ) (a b : OpKey)
    → op_key_eq a b ≡ true
    → op_key_hash hash_int hash_u64 a ≡ op_key_hash hash_int hash_u64 b
unfolding op_key_hash key_view
op_key_hash-eq hash_int hash_u64 a b h = cc ((op_key_eq_iff a b).0 h)

-- Two keys are equal for the tables exactly when operation, parameter size, datatype, ranks and
-- topology agree, and keys that the tables take for equal have equal hashes, whatever the standard
-- hashes are.
pub op_key_eq-op_key_hash :
    (hash_int : ℤ → ℕ) (hash_u64 : ℕ → ℕ) (a b : OpKey)
    → ((op_key_eq a b ≡ true) ↔ (key_view a ≡ key_view b))
      × (op_key_eq a b ≡ true → op_key_hash hash_int hash_u64 a ≡ op_key_hash hash_int hash_u64 b)
op_key_eq-op_key_hash hash_int hash_u64 a b =
    (op_key_eq_iff a b, op_key_hash-eq hash_int hash_u64 a b)
