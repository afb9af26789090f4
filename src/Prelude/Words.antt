-- ===== src/Prelude/Words.antt =====
-- `size_t` and `uint64_t`: numbers below 2 ^ 64 with the wrap-around written out.
use mathlib.Core.Logic.{◌≢◌, inl, inr}
use hy_link.Prelude.Tests.{Bool-cases, ltb, ltb→lt, ltb→le}
use native.Mathlib.Nat.{div-add-mod}
use Prim.Native.Nat.{ℕ, ◌+◌, ◌-◌, ◌*◌, ◌/◌, ◌%◌, ◌^◌, ◌≤◌, ◌<◌}
use mathlib.Core.Path.{◌≡◌}
use native.Mathlib.Omega.{arith}

abbrev pub u64_mod : ℕ
u64_mod = 2 ^ 64

abbrev pub add64 : ℕ → ℕ → ℕ
add64 a b = (a + b) % u64_mod

-- `-` stops at 0, so the modulus is added first.
abbrev pub sub64 : ℕ → ℕ → ℕ
sub64 a b = (a + u64_mod - b) % u64_mod

abbrev pub mul64 : ℕ → ℕ → ℕ
mul64 a b = (a * b) % u64_mod

pub add64-eq : (a b : ℕ) → a + b < u64_mod → add64 a b ≡ a + b
add64-eq a b h = omega arith

pub sub64-eq : (a b : ℕ) → b ≤ a → a < u64_mod → sub64 a b ≡ a - b
sub64-eq a b h k = omega arith

-- Indices less than a capacity apart are in different slots.
pub slot_distinct : (c a d : ℕ) → 0 < d → d < c → a % c ≢ (a + d) % c
slot_distinct c a d h k e =
    let low = div-add-mod a c in
    let high = div-add-mod (a + d) c in
    elim (Bool-cases (ltb (a / c) ((a + d) / c))) [
      | inl t ↦
          let lt = ltb→lt _ _ t in
          let p : c * (a / c + 1) ≤ c * ((a + d) / c) = grind arith in
          let q : c * (a / c + 1) ≡ c * (a / c) + c = grind arith in
          omega (arith, low, high, e, k, p, q)
      | inr t ↦
          let le = ltb→le _ _ t in
          let p : c * ((a + d) / c) ≤ c * (a / c) = grind arith in omega (arith, low, high, e, h, p)
    ]

pub mul_mono : (a b c : ℕ) → a ≤ b → a * c ≤ b * c
mul_mono a b c h = grind arith
