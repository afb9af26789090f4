-- ===== src/Keys/Intercept/Tests.antt =====
-- Runs of the interception policy and witnesses.
use hy_link.Prelude.{◌≡◌, refl, true, false, ◌≢◌, ◌<◌, ◌≤◌, ◌↔◌, u64_mod, ℕ}
use hy_link.Keys.{all_reduce, all_gather}
use hy_link.Keys.Intercept.{
  should_intercept_collective, largest_collective_buffer_bytes, hook_intercept_min_bytes,
  multiply_size_t, buffer_bytes, should_intercept_iff,
}

-- Eight ranks, floats: 64 Mi elements make the 256 MiB threshold.
at_threshold : should_intercept_collective 4194304 all_reduce 8 4 0 0 67108864 ≡ true
unfolding should_intercept_collective largest_collective_buffer_bytes hook_intercept_min_bytes
    multiply_size_t
at_threshold = refl

overflow_is_left_alone :
    should_intercept_collective 4194304 all_gather 8 4 (2305843009213693952) 0 0 ≡ false
unfolding should_intercept_collective largest_collective_buffer_bytes hook_intercept_min_bytes
    multiply_size_t
overflow_is_left_alone = refl

should_intercept_iff_example :
    (should_intercept_collective 4194304 all_gather 4 2 1048576 0 0 ≡ true) ↔ (
      (◌≢◌ {A = ℕ} 4 0)
      × (◌≢◌ {A = ℕ} 2 0)
      × (buffer_bytes all_gather 4 2 1048576 0 0 < u64_mod)
      × (hook_intercept_min_bytes 4194304 all_gather 4 ≤ buffer_bytes all_gather 4 2 1048576 0 0))
should_intercept_iff_example = should_intercept_iff 4194304 all_gather 4 2 1048576 0 0
