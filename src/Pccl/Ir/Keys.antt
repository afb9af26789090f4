-- ===== src/Pccl/Ir/Keys.antt =====
-- Equality of progress keys.
use hy_link.Prelude.{◌≡◌, refl, ◌↔◌, Bool, true, arith, ◌==◌, ◌&&◌}
use hy_link.Prelude.Int.{int_eq, int_eq_iff}
use hy_link.Pccl.Ir.{ProgressSpace, ProgressKey, space_code, key_eq}

space_code-injective : (a b : ProgressSpace) → space_code a ≡ space_code b → a ≡ b
space_code-injective ProgressSpace.host b h = ground arith
space_code-injective ProgressSpace.input b h = ground arith
space_code-injective ProgressSpace.output b h = ground arith
space_code-injective ProgressSpace.scratch b h = ground arith
space_code-injective ProgressSpace.internal b h = ground arith

-- Keys are the same for the maps exactly when they are equal.
pub key_eq_iff : (a b : ProgressKey) → (key_eq a b ≡ true) ↔ (a ≡ b)
unfolding key_eq
key_eq_iff a b = (
  λ h. ground (
    arith,
    space_code-injective a.space b.space,
    int_eq_iff a.owner b.owner,
    int_eq_iff a.chunk b.chunk,
  ),
  λ h. ground (arith, int_eq_iff a.owner b.owner, int_eq_iff a.chunk b.chunk),
)

pub key_eq_refl : (a : ProgressKey) → key_eq a a ≡ true
key_eq_refl a = (key_eq_iff a a).1 refl

-- The key of a chunk before its first write.
unfoldable pub base_of : ProgressKey → ProgressKey
base_of k = record k { version = 0 }

unfoldable pub same_base_key : ProgressKey → ProgressKey → Bool
same_base_key a b =
    space_code a.space == space_code b.space && int_eq a.owner b.owner && int_eq a.chunk b.chunk

pub same_base_key_iff : (a b : ProgressKey) → (same_base_key a b ≡ true) ↔ (base_of a ≡ base_of b)
unfolding same_base_key base_of
same_base_key_iff a b = (
  λ h. ground (
    arith,
    space_code-injective a.space b.space,
    int_eq_iff a.owner b.owner,
    int_eq_iff a.chunk b.chunk,
  ),
  λ h. ground (arith, int_eq_iff a.owner b.owner, int_eq_iff a.chunk b.chunk),
)

pub base_version-eq : (a b : ProgressKey) → base_of a ≡ base_of b → a.version ≡ b.version → a ≡ b
unfolding base_of
base_version-eq a b h v = ground arith
