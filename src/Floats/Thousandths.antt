-- ===== src/Floats/Thousandths.antt =====
-- Numbers of thousandths in the place of doubles, for tests: they satisfy the laws.
use native.Mathlib.Nat.{pow-suc, le-div_iff_mul-le, le_of_mul-le-mul_right, le_refl}
use hy_link.Prelude.{
  ℕ, ◌+◌, ◌-◌, ◌*◌, ◌/◌, ◌^◌, ◌≤◌, ◌<◌, refl, false, arith, ltb, leb, zero, suc, lt→ltb, le→leb,
  mul_mono,
}
use hy_link.Floats.{Double, DoubleLaws, ScaleLaws}

-- The number m / 10 ^ k in thousandths, rounded down; there are no NaNs.
abbrev pub thousandths : Double
thousandths = record {
  F = ℕ;
  lt = ltb;
  le = leb;
  is_nan = λ a. false;
  add = λ a b. a + b;
  sub = λ a b. a - b;
  mul = λ a b. a * b / 1000;
  div = λ a b. a * 1000 / b;
  of_size = λ n. n * 1000;
  to_size = λ a. a / 1000;
  decimal = λ m k. m * 1000 / 10 ^ k;
}

thousandths-trunc : (n a : ℕ) → a ≤ 1000 → n * 1000 * a / 1000 / 1000 ≤ n
thousandths-trunc n a h = let p : n * a ≤ n * 1000 = grind arith in omega (arith, p)

pub thousandths-laws : DoubleLaws thousandths
thousandths-laws = record {
  decimal_num = λ m k. refl;
  zero-le-one = refl;
  lt_irrefl = λ a. ground arith;
  le_of_not_lt = λ a b _ _ h. ground arith;
  trunc_le = λ n a _ _ h. thousandths-trunc n a (ground arith);
}

pow_pos : (k : ℕ) → 0 < 10 ^ k
pow_pos zero = omega arith
pow_pos (suc k) = let h = pow_pos k in rw (pow-suc 10 k) (omega arith)

div_mono : (a b p q : ℕ) → a * q ≤ b * p → 0 < p → 0 < q → a * 1000 / p ≤ b * 1000 / q
div_mono a b p q h hp hq =
    let x = a * 1000 / p in
    let xp : x * p ≤ a * 1000 = (le-div_iff_mul-le hp).0 (le_refl x) in
    let xpq = mul_mono (x * p) (a * 1000) q xp in
    let hk = mul_mono (a * q) (b * p) 1000 h in
    let whole : x * q * p ≤ b * 1000 * p = grind arith in
    (le-div_iff_mul-le hq).1 (le_of_mul-le-mul_right whole hp)

pos_decimal : (m k : ℕ) → 0 < m → k ≤ 3 → 0 < m * 1000 / 10 ^ k
pos_decimal m zero h hk = ground arith
pos_decimal m (suc zero) h hk = ground arith
pos_decimal m (suc (suc zero)) h hk = ground arith
pos_decimal m (suc (suc (suc zero))) h hk = ground arith
pos_decimal m (suc (suc (suc (suc k)))) h hk = absurd (omega arith)

mul_thousandths : (a f : ℕ) → f ≤ 1000 → a * f / 1000 ≤ a
mul_thousandths a f h = let p : a * f ≤ a * 1000 = grind arith in omega (arith, p)

pub thousandths-scale : ScaleLaws thousandths
thousandths-scale = record {
  le_trans = λ a b c h k. ground arith;
  le_num = λ a b h. (refl, refl);
  not_lt_of_le = λ a b h. ground arith;
  le_of_lt = λ a b h. ground arith;
  lt-le_trans = λ a b c h k. ground arith;
  decimal_le = λ m k n j h. le→leb _ _ (div_mono m n (10 ^ k) (10 ^ j) h (pow_pos k) (pow_pos j));
  decimal_pos = λ m k hm hk. lt→ltb _ _ (pos_decimal m k hm hk);
  mul_num = λ f a h k n. (refl, refl);
  mul_le = λ a f _ _ h. le→leb _ _ (mul_thousandths a f (ground arith));
}
