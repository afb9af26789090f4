-- ===== src/Floats.antt =====
-- The `double` arithmetic that the orchestrator uses. The machine's operations are not code of the
-- repository: they are a parameter, and what the code relies on of IEEE 754 is `DoubleLaws`.
pub mod Thousandths
use hy_link.Prelude.{ℕ, ◌^◌, ◌≤◌, ◌≡◌, Bool, true, false, ◌*◌, ◌<◌}

pub record Double : Type 1 where
  pub F : Type 0
  pub lt : F → F → Bool
  pub le : F → F → Bool
  pub is_nan : F → Bool
  pub add : F → F → F
  pub sub : F → F → F
  pub mul : F → F → F
  pub div : F → F → F
  -- static_cast<double> of a size_t and static_cast<size_t> of a double
  pub of_size : ℕ → F
  pub to_size : F → ℕ
  -- the literal m / 10 ^ k
  pub decimal : ℕ → ℕ → F

-- 0.0 and 1.0
abbrev pub zero_f : (d : Double) → d.F
zero_f d = d.decimal 0 0

abbrev pub one_f : (d : Double) → d.F
one_f d = d.decimal 1 0

-- Comparisons of numbers are total, literals are numbers, and the product with a factor in [0, 1],
-- truncated, does not pass a size that a double holds exactly.
pub record DoubleLaws (d : Double) : Type 0 where
  pub decimal_num : (m k : ℕ) → d.is_nan (d.decimal m k) ≡ false
  pub zero-le-one : d.le (zero_f d) (one_f d) ≡ true
  pub lt_irrefl : (a : d.F) → d.lt a a ≡ false
  pub le_of_not_lt :
      (a b : d.F) → d.is_nan a ≡ false → d.is_nan b ≡ false → d.lt a b ≡ false → d.le b a ≡ true
  pub trunc_le :
      (n : ℕ) (a : d.F)
      → n ≤ 2 ^ 53
      → d.le (zero_f d) a ≡ true
      → d.le a (one_f d) ≡ true
      → d.to_size (d.mul (d.of_size n) a) ≤ n

-- Comparisons are transitive and false for what is no number, literals are ordered as the numbers
-- that they are rounded from, and a product with a factor in (0, 1] is a number and, from 0 on, no
-- larger.
pub record ScaleLaws (d : Double) : Type 0 where
  pub le_trans : (a b c : d.F) → d.le a b ≡ true → d.le b c ≡ true → d.le a c ≡ true
  pub le_num : (a b : d.F) → d.le a b ≡ true → (d.is_nan a ≡ false) × (d.is_nan b ≡ false)
  pub not_lt_of_le : (a b : d.F) → d.le a b ≡ true → d.lt b a ≡ false
  pub le_of_lt : (a b : d.F) → d.lt a b ≡ true → d.le a b ≡ true
  pub lt-le_trans : (a b c : d.F) → d.lt a b ≡ true → d.le b c ≡ true → d.lt a c ≡ true
  pub decimal_le :
      (m k n j : ℕ) → m * 10 ^ j ≤ n * 10 ^ k → d.le (d.decimal m k) (d.decimal n j) ≡ true
  pub decimal_pos : (m k : ℕ) → 0 < m → k ≤ 3 → d.lt (zero_f d) (d.decimal m k) ≡ true
  pub mul_num :
      (f a : d.F)
      → d.lt (zero_f d) f ≡ true
      → d.le f (one_f d) ≡ true
      → d.is_nan a ≡ false
      → (d.is_nan (d.mul f a) ≡ false) × (d.is_nan (d.mul a f) ≡ false)
  pub mul_le :
      (a f : d.F)
      → d.le (zero_f d) a ≡ true
      → d.le (zero_f d) f ≡ true
      → d.le f (one_f d) ≡ true
      → d.le (d.mul a f) a ≡ true
