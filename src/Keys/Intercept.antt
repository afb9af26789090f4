-- ===== src/Keys/Intercept.antt =====
-- multipath-orchestrator/libampccl/common/intercept_policy.h: the hook takes a collective over when
-- its largest user-visible buffer is big enough. Result pointers are never null in the callers, so
-- `none` stands for a return of false.
mod Tests
use hy_link.Prelude.{
  ℕ, ◌*◌, ◌/◌, ◌-◌, ◌≤◌, ◌<◌, ◌≡◌, ◌≢◌, ◌↔◌, Option, none, some, Bool, true, false, ◌&&◌, ◌||◌, not,
  ◌==◌, ltb, leb, if◌then◌else◌, u64_mod, mul64, arith, Option-cases, Bool-cases, inl, inr, zero,
  suc, ltb→lt, ltb→le, refl,
}
use native.Mathlib.Nat.{div-lt_iff_lt-mul}
use hy_link.Keys.{CollectiveType, all_reduce, all_gather, reduce_scatter, all_to_all}

abbrev pub eight_rank_intercept_min_bytes : ℕ
eight_rank_intercept_min_bytes = 256 * 1024 * 1024

pub multiply_size_t : ℕ → ℕ → Option ℕ
multiply_size_t lhs rhs =
    if not (lhs == 0) && ltb ((u64_mod - 1) / lhs) rhs then none else some (mul64 lhs rhs)

-- `min_msg_size` is Config::GetMinMsgSize().
pub hook_intercept_min_bytes : ℕ → CollectiveType → ℕ → ℕ
hook_intercept_min_bytes min_msg_size op nranks =
    if nranks == 8 then eight_rank_intercept_min_bytes else min_msg_size

elements_of : CollectiveType → ℕ → ℕ → ℕ → ℕ → Option ℕ
elements_of all_reduce nranks sendcount recvcount count = some count
elements_of all_gather nranks sendcount recvcount count = multiply_size_t sendcount nranks
elements_of reduce_scatter nranks sendcount recvcount count = multiply_size_t recvcount nranks
elements_of all_to_all nranks sendcount recvcount count = multiply_size_t count nranks

infixl 5 ◌>>=◌
abbrev ◌>>=◌ : Option ℕ → (ℕ → Option ℕ) → Option ℕ
none >>= f = none
some a >>= f = f a

pub largest_collective_buffer_bytes : CollectiveType → ℕ → ℕ → ℕ → ℕ → ℕ → Option ℕ
unfolding elements_of
largest_collective_buffer_bytes op nranks dtype_size sendcount recvcount count =
    if nranks == 0 || dtype_size == 0 then none else do
      elements ← elements_of op nranks sendcount recvcount count
      multiply_size_t elements dtype_size

pub should_intercept_collective : ℕ → CollectiveType → ℕ → ℕ → ℕ → ℕ → ℕ → Bool
unfolding hook_intercept_min_bytes
should_intercept_collective min_msg_size op nranks dtype_size sendcount recvcount count =
    elim (largest_collective_buffer_bytes op nranks dtype_size sendcount recvcount count) [
      | none ↦ false
      | some bytes ↦ leb (hook_intercept_min_bytes min_msg_size op nranks) bytes
    ]

-- The size of the largest user-visible buffer, in unbounded arithmetic.
abbrev pub buffer_bytes : CollectiveType → ℕ → ℕ → ℕ → ℕ → ℕ → ℕ
buffer_bytes all_reduce nranks size sendcount recvcount count = count * size
buffer_bytes all_gather nranks size sendcount recvcount count = sendcount * nranks * size
buffer_bytes reduce_scatter nranks size sendcount recvcount count = recvcount * nranks * size
buffer_bytes all_to_all nranks size sendcount recvcount count = count * nranks * size

multiply-some : (a b : ℕ) → a * b < u64_mod → multiply_size_t a b ≡ some (a * b)
unfolding multiply_size_t
multiply-some zero b h = ground arith
multiply-some (suc a) b h =
    let fits = (div-lt_iff_lt-mul {k = suc a} {x = u64_mod - 1} {y = b} (omega arith)).0 in
    ground (arith, fits)

multiply-none : (a b : ℕ) → u64_mod ≤ a * b → multiply_size_t a b ≡ none
unfolding multiply_size_t
multiply-none zero b h = absurd (omega arith)
multiply-none (suc a) b h =
    let over = (div-lt_iff_lt-mul {k = suc a} {x = u64_mod - 1} {y = b} (omega arith)).1 in
    ground (arith, over)

-- The multiplication succeeds exactly when the product fits a size_t, and is then exact.
pub multiply_size_t_lem :
    (a b : ℕ) → multiply_size_t a b ≡ (if ltb (a * b) u64_mod then some (a * b) else none)
multiply_size_t_lem a b = elim (Bool-cases (ltb (a * b) u64_mod)) [
  | inl e ↦ rw e (multiply-some a b (ltb→lt _ _ e))
  | inr e ↦ rw e (multiply-none a b (ltb→le _ _ e))
]

scaled : (x y size : ℕ) → 0 < size → u64_mod ≤ x * y → u64_mod ≤ x * y * size
scaled x y size h k = let p : x * y * 1 ≤ x * y * size = grind arith in omega (arith, p)

-- The largest buffer is computed exactly when both factors are non-zero and its size in unbounded
-- arithmetic fits a size_t, for every operation.
largest_lem :
    (op : CollectiveType) (nranks size sendcount recvcount count : ℕ)
    → 0 < nranks
    → 0 < size
    → largest_collective_buffer_bytes op nranks size sendcount recvcount count ≡ (
        if ltb (buffer_bytes op nranks size sendcount recvcount count) u64_mod
        then some (buffer_bytes op nranks size sendcount recvcount count)
        else none)
unfolding largest_collective_buffer_bytes
largest_lem all_reduce nranks size s r c h k = ground (arith, multiply_size_t_lem c size)
largest_lem all_gather nranks size s r c h k = ground (
  arith,
  multiply_size_t_lem s nranks,
  multiply_size_t_lem (s * nranks) size,
  scaled s nranks size,
)
largest_lem reduce_scatter nranks size s r c h k = ground (
  arith,
  multiply_size_t_lem r nranks,
  multiply_size_t_lem (r * nranks) size,
  scaled r nranks size,
)
largest_lem all_to_all nranks size s r c h k = ground (
  arith,
  multiply_size_t_lem c nranks,
  multiply_size_t_lem (c * nranks) size,
  scaled c nranks size,
)

module _ (m : ℕ) (op : CollectiveType) (nranks size s r c : ℕ) where
  abbrev Wanted : Type 0
  Wanted =
      (nranks ≢ 0)
      × (size ≢ 0)
      × (buffer_bytes op nranks size s r c < u64_mod)
      × (hook_intercept_min_bytes m op nranks ≤ buffer_bytes op nranks size s r c)

  should-zero :
      (nranks == 0 || size == 0) ≡ true
      → (should_intercept_collective m op nranks size s r c ≡ true) ↔ Wanted
  unfolding should_intercept_collective largest_collective_buffer_bytes
  should-zero h = (λ e. cc (h, e), λ w. ground arith)

  should-suc :
      0 < nranks → 0 < size → (should_intercept_collective m op nranks size s r c ≡ true) ↔ Wanted
  unfolding should_intercept_collective
  should-suc h k = (
    λ e. ground (arith, largest_lem op nranks size s r c h k),
    λ w. ground (arith, largest_lem op nranks size s r c h k),
  )

-- A collective is intercepted exactly when it has ranks, a known element size, and its largest
-- buffer, computed without overflow, fits a size_t and reaches the threshold of its rank count.
pub should_intercept_iff :
    (min_msg_size : ℕ) (op : CollectiveType) (nranks size sendcount recvcount count : ℕ)
    → (should_intercept_collective min_msg_size op nranks size sendcount recvcount count ≡ true) ↔ (
        (nranks ≢ 0)
        × (size ≢ 0)
        × (buffer_bytes op nranks size sendcount recvcount count < u64_mod)
        × (hook_intercept_min_bytes min_msg_size op nranks
            ≤ buffer_bytes op nranks size sendcount recvcount count))
should_intercept_iff m op zero size s r c = should-zero m op zero size s r c refl
should_intercept_iff m op (suc n) zero s r c = should-zero m op (suc n) zero s r c (ground arith)
should_intercept_iff m op (suc n) (suc k) s r c =
    should-suc m op (suc n) (suc k) s r c (omega arith) (omega arith)
