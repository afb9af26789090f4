-- ===== src/Pccl/Slice/Tests.antt =====
-- Slices of a small chunk, and witnesses.
use hy_link.Prelude.{ℕ, ◌+◌, ◌*◌, ◌≤◌, ◌≡◌, ◌<◌, ◌/◌, ◌%◌, ◌≢◌, ◌⊎◌, refl, true, arith}
use hy_link.Pccl.Slice.{
  double_while, subchunk_slice_for, num_subchunks, subchunk_size, host_sub_offset,
}
use hy_link.Pccl.Slice.Bounds.{slices_sum, Holds, slices_sum-host_sub_offset}

large_slice : subchunk_slice_for 0 (1024 * 1024 * 1024) ≡ 16 * 1024 * 1024
unfolding subchunk_slice_for double_while
large_slice = refl

abbrev middle : ℕ
middle = 1

abbrev last : ℕ
last = 2

slices_sum-host_sub_offset_example :
    (slices_sum 4096 9000 (num_subchunks 4096 10000) ≡ 9000)
    × (8200 < 9000
        → (8200 / 4096 < num_subchunks 4096 10000)
          × Holds 4096 10000 (omega arith) (omega arith) 9000 (omega arith) (8200 / 4096) 8200)
    × (Holds 4096 10000 (omega arith) (omega arith) 9000 (omega arith) 2 8200
        → Holds 4096 10000 (omega arith) (omega arith) 9000 (omega arith) 1 8200
        → last ≡ middle)
    × (host_sub_offset 4096 2 true 2 + subchunk_size 4096 9000 2 ≤ 10000)
    × (last % 2 ≢ middle % 2
        → (host_sub_offset 4096 2 true 2 + subchunk_size 4096 9000 2
            ≤ host_sub_offset 4096 2 true 1)
          ⊎ (host_sub_offset 4096 2 true 1 + subchunk_size 4096 9000 1
              ≤ host_sub_offset 4096 2 true 2))
unfolding num_subchunks
slices_sum-host_sub_offset_example =
    slices_sum-host_sub_offset 4096 10000 (omega arith) (omega arith) 9000 (omega arith) 2 true 2 1
      8200 (omega arith) (omega arith) (omega arith)
