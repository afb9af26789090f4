-- ===== src/Pccl/Slice.antt =====
-- pcie-ccl-cuda/src/ir/ir.hpp: the slice size and the ring slots of a graph.
mod Tests
pub mod Bounds
use hy_link.Prelude.{
  ℕ, ◌+◌, ◌*◌, ◌/◌, ◌^◌, Bool, true, false, ◌&&◌, leb, ltb, if◌then◌else◌, zero, suc, Option, none,
  some, add64, sub64, mul64, min, ◌-◌, ◌%◌, ◌==◌,
}
use hy_link.Prelude.Int.{ℤ}

-- while (s * 2 <= target && s * 2 <= hi) s *= 2, on fuel.
pub double_while : ℕ → ℕ → ℕ → ℕ → ℕ
double_while zero target hi s = s
double_while (suc fuel) target hi s =
    let next = double_while fuel target hi (s * 2) in
    if leb (s * 2) target && leb (s * 2) hi then next else s

-- 512 KB doubles at most three times to 4 MB and from there twice to 16 MB.
abbrev slice_fuel : ℕ
slice_fuel = 6

-- `forced` is the value of PCCL_SUBCHUNK_SLICE_SIZE, if it parses to 4096 or more; 0 if not.
pub subchunk_slice_for : ℕ → ℕ → ℕ
unfolding double_while
subchunk_slice_for forced chunk_size =
    if ltb 0 forced
    then forced
    else let s = double_while slice_fuel (chunk_size / 8) (4 * 2 ^ 20) (512 * 2 ^ 10) in
      if leb (512 * 2 ^ 20) chunk_size
      then double_while slice_fuel (chunk_size / 64) (16 * 2 ^ 20) s
      else s

-- `host_ring_slots` is pcclHostRingSlots(), 0 or at least 2.
pub ring_slots_for : ℕ → ℕ
ring_slots_for host_ring_slots = if leb 2 host_ring_slots then host_ring_slots else 2

-- The number of slices of a chunk; at least one.
pub num_subchunks : ℕ → ℕ → ℕ
num_subchunks slice chunk_size =
    let n = add64 chunk_size (sub64 slice 1) / slice in if n == 0 then 1 else n

-- The bytes of one slice of a node that moves `work_bytes`.
unfoldable pub subchunk_size : ℕ → ℕ → ℕ → ℕ
subchunk_size slice work_bytes subchunk_idx =
    let offset = mul64 subchunk_idx slice in
    if leb work_bytes offset then 0 else min slice (work_bytes - offset)

-- Where a slice lies in its host chunk; a ring-buffered chunk reuses its slots.
pub host_sub_offset : ℕ → ℕ → Bool → ℕ → ℕ
host_sub_offset slice slots ring_buffered subchunk_idx =
    if ring_buffered then mul64 (subchunk_idx % slots) slice else mul64 subchunk_idx slice
