-- ===== src/Pccl/Slice/Bounds.antt =====
-- Bounds of the slice size, and slices in their chunk (ir/ir.hpp and executor/graph_executor.cpp).
use native.Mathlib.Nat.{mod-lt, lt-div-mul-add, div-mul-le_self, mod-eq_of_lt, pow-suc, mod-le}
use hy_link.Prelude.{
  ℕ, ◌+◌, ◌-◌, ◌*◌, ◌/◌, ◌%◌, ◌≤◌, ◌<◌, ◌≡◌, refl, Bool, true, false, arith, zero, suc, min,
  if◌then◌else◌, u64_mod, add64, sub64, mul64, ◌==◌, Bool-cases, ltb, inl, ltb→lt, inr, ltb→le, ◌^◌,
  ◌⊎◌, ◌≢◌, mul_mono,
}
use hy_link.Pccl.Slice.{
  double_while, subchunk_slice_for, num_subchunks, subchunk_size, host_sub_offset,
}

double_while-bounds :
    (fuel target hi s lo : ℕ)
    → lo ≤ s
    → s ≤ hi
    → (lo ≤ double_while fuel target hi s) × (double_while fuel target hi s ≤ hi)
unfolding double_while
double_while-bounds zero target hi s lo h k = (h, k)
double_while-bounds (suc fuel) target hi s lo h k =
    ground (arith, double_while-bounds fuel target hi (s * 2) lo)

-- Without a forced size, a slice is 512 KB or more, 4 MB or less for chunks below 512 MB, and
-- 16 MB or less for any chunk.
pub slice_bounds :
    (chunk_size : ℕ)
    → (524288 ≤ subchunk_slice_for 0 chunk_size)
      × (subchunk_slice_for 0 chunk_size ≤ 16777216)
      × (chunk_size < 536870912 → subchunk_slice_for 0 chunk_size ≤ 4194304)
unfolding subchunk_slice_for
slice_bounds c =
    let small = double_while-bounds 6 (c / 8) 4194304 524288 524288 (omega arith) (omega arith) in
    let s = double_while 6 (c / 8) 4194304 524288 in
    let big = double_while-bounds 6 (c / 64) 16777216 s 524288 small.0 (omega (arith, small.1)) in
    (ground (arith, small, big), ground (arith, small, big), ground (arith, small, big))

-- With enough fuel the loop ends by its own test.
double_while-done :
    (fuel target hi s : ℕ)
    → 0 < s
    → hi < s * 2 ^ fuel
    → (target < double_while fuel target hi s * 2) ⊎ (hi < double_while fuel target hi s * 2)
unfolding double_while
double_while-done zero target hi s pos h = inr (omega (arith, h, pos))
double_while-done (suc fuel) target hi s pos h =
    let p : 2 ^ suc fuel ≡ 2 ^ fuel * 2 = pow-suc 2 fuel in
    let q : s * 2 * 2 ^ fuel ≡ s * 2 ^ suc fuel = rw p (grind arith) in
    let ih = double_while-done fuel target hi (s * 2) (omega (arith, pos)) (omega (arith, q, h)) in
    ground (arith, ih)

-- Without a forced size, the slice size cannot be doubled again: twice a slice is more than an eighth
-- of the chunk or than 4 MB, and for chunks of 512 MB or more, than a 64th of the chunk or than
-- 16 MB.
pub slice_maximal :
    (chunk_size : ℕ)
    → (chunk_size < 536870912
        → (chunk_size / 8 < subchunk_slice_for 0 chunk_size * 2)
          ⊎ (4194304 < subchunk_slice_for 0 chunk_size * 2))
      × (536870912 ≤ chunk_size
          → (chunk_size / 64 < subchunk_slice_for 0 chunk_size * 2)
            ⊎ (16777216 < subchunk_slice_for 0 chunk_size * 2))
unfolding subchunk_slice_for
slice_maximal c =
    let small = double_while-bounds 6 (c / 8) 4194304 524288 524288 (omega arith) (omega arith) in
    let s = double_while 6 (c / 8) 4194304 524288 in
    let first = double_while-done 6 (c / 8) 4194304 524288 (omega arith) (omega arith) in
    let second =
      double_while-done 6 (c / 64) 16777216 s (omega (arith, small)) (omega (arith, small)) in
    (λ h. ground (arith, first, h), λ h. ground (arith, second, h))

-- The bytes that the first `n` slices of a node move.
abbrev pub slices_sum : ℕ → ℕ → ℕ → ℕ
slices_sum slice work zero = 0
slices_sum slice work (suc n) = slices_sum slice work n + subchunk_size slice work n

module _ (slice chunk : ℕ) (pos : 0 < slice) (small : chunk + slice < u64_mod) where
  num_subchunks-eq :
      num_subchunks slice chunk
      ≡ (if (chunk + slice - 1) / slice == 0 then 1 else (chunk + slice - 1) / slice)
  unfolding num_subchunks
  num_subchunks-eq =
      let e : add64 chunk (sub64 slice 1) ≡ chunk + slice - 1 = omega arith in rw e refl

  -- The slices of a chunk cover it.
  covers : chunk ≤ num_subchunks slice chunk * slice
  covers = ground (arith, num_subchunks-eq, lt-div-mul-add {a = chunk + slice - 1} pos)

  -- A slice that is counted begins inside the chunk, or is the only one.
  inside : (idx : ℕ) → idx < num_subchunks slice chunk → idx * slice ≤ chunk
  inside idx h =
      let least : (idx + 1) * slice ≤ num_subchunks slice chunk * slice = grind arith in
      let top : num_subchunks slice chunk * slice ≤ chunk + slice =
        ground (arith, num_subchunks-eq, div-mul-le_self (chunk + slice - 1) slice) in
      omega (arith, least, top, pos)

  module _ (work : ℕ) (fits : work ≤ chunk) where
    slices_sum-min :
        (n : ℕ) → n ≤ num_subchunks slice chunk → slices_sum slice work n ≡ min (n * slice) work
    unfolding subchunk_size
    slices_sum-min zero h = ground arith
    slices_sum-min (suc n) h =
        let ih = slices_sum-min n (omega (arith, h)) in
        let off = inside n h in
        let e : mul64 n slice ≡ n * slice = omega (arith, off, small) in rw e (ground (arith, ih))

    -- For a positive slice size and a chunk that does not come within a slice of 2^64 bytes, the
    -- slices of a node that moves at most a chunk together move its bytes, each once.
    pub slices_sum-work : slices_sum slice work (num_subchunks slice chunk) ≡ work
    slices_sum-work = ground (arith, slices_sum-min (num_subchunks slice chunk), covers)

    -- For a positive slice size and a chunk that does not come within a slice of 2^64 bytes, every
    -- slice of a node that moves at most a chunk stays inside the host chunk, at its own offset or
    -- in a ring of any positive number of slots, whether or not the slots fit in the chunk.
    pub host_sub_offset-bounded :
        (slots : ℕ) (ring_buffered : Bool) (idx : ℕ)
        → idx < num_subchunks slice chunk
        → 0 < slots
        → host_sub_offset slice slots ring_buffered idx + subchunk_size slice work idx ≤ chunk
    unfolding host_sub_offset subchunk_size
    host_sub_offset-bounded slots true idx h k =
        let off = inside idx h in
        let e : mul64 idx slice ≡ idx * slice = omega (arith, off, small) in
        elim (Bool-cases (ltb idx slots)) [
          | inl t ↦
              let m : idx % slots ≡ idx = mod-eq_of_lt (ltb→lt _ _ t) in
              rw (m, e) (ground (arith, off))
          | inr t ↦
              let slot : (idx % slots + 1) * slice ≤ idx * slice =
                let below = mod-lt idx k in let late = ltb→le _ _ t in grind arith in
              let d : mul64 (idx % slots) slice ≡ idx % slots * slice =
                omega (arith, slot, off, small) in
              rw (d, e) (ground (arith, slot, off))
        ]
    host_sub_offset-bounded slots false idx h k =
        let off = inside idx h in
        let e : mul64 idx slice ≡ idx * slice = omega (arith, off, small) in
        rw e (ground (arith, off))

    -- Where a slice lies, without the wrap-around.
    host_sub_offset-eq :
        (slots : ℕ) (ring_buffered : Bool) (idx : ℕ)
        → idx < num_subchunks slice chunk
        → 0 < slots
        → host_sub_offset slice slots ring_buffered idx
          ≡ (if ring_buffered then idx % slots * slice else idx * slice)
    unfolding host_sub_offset
    host_sub_offset-eq slots true idx h k =
        let off = inside idx h in
        let low : idx % slots * slice ≤ idx * slice =
          mul_mono (idx % slots) idx slice (mod-le idx slots) in
        omega (arith, off, low, small)
    host_sub_offset-eq slots false idx h k = let off = inside idx h in omega (arith, off, small)

    subchunk_size-le : (idx : ℕ) → subchunk_size slice work idx ≤ slice
    unfolding subchunk_size
    subchunk_size-le idx = ground arith

    -- Slices in different places of `slice` bytes each do not overlap.
    apart :
        (a b i j : ℕ)
        → a ≢ b
        → (a * slice + subchunk_size slice work i ≤ b * slice)
          ⊎ (b * slice + subchunk_size slice work j ≤ a * slice)
    apart a b i j ne = elim (Bool-cases (ltb a b)) [
      | inl t ↦
          let p : suc a * slice ≤ b * slice = mul_mono (suc a) b slice (ground arith) in
          let q : suc a * slice ≡ a * slice + slice = grind arith in
          inl (omega (arith, p, q, subchunk_size-le i))
      | inr t ↦
          let p : suc b * slice ≤ a * slice = mul_mono (suc b) a slice (ground (arith, ne)) in
          let q : suc b * slice ≡ b * slice + slice = grind arith in
          inr (omega (arith, p, q, subchunk_size-le j))
    ]

    -- Byte `b` of a node's work lies in slice `b / slice` of a chunk without a ring.
    abbrev pub Holds : (idx b : ℕ) → Type 0
    Holds idx b =
        (host_sub_offset slice 1 false idx ≤ b)
        × (b < host_sub_offset slice 1 false idx + subchunk_size slice work idx)

    byte-Holds : (b : ℕ) → b < work → (b / slice < num_subchunks slice chunk) × Holds (b / slice) b
    unfolding subchunk_size
    byte-Holds b h =
        let low : b / slice * slice ≤ b = div-mul-le_self b slice in
        let high : b < b / slice * slice + slice = lt-div-mul-add {a = b} pos in
        let within : b / slice < num_subchunks slice chunk =
          elim (Bool-cases (ltb (b / slice) (num_subchunks slice chunk))) [
            | inl t ↦ ltb→lt _ _ t
            | inr t ↦
                let p : num_subchunks slice chunk * slice ≤ b / slice * slice =
                  mul_mono (num_subchunks slice chunk) (b / slice) slice (ground arith) in
                absurd (omega (arith, p, low, covers, h, fits))
          ] in
        let at = host_sub_offset-eq 1 false (b / slice) within (omega arith) in
        let e : mul64 (b / slice) slice ≡ b / slice * slice = omega (arith, low, h, fits, small) in
        (within, (omega (arith, at, low), rw (at, e) (ground (arith, low, high, h))))

    -- For a positive slice size and a chunk that does not come within a slice of 2^64 bytes, a node
    -- that moves at most a chunk: the slices' sizes sum to its work; every byte of its work lies in one of the slices of the chunk and
    -- in no other; every slice stays inside the host chunk, at its own offset or in a ring of any
    -- positive number of slots; two slices do not overlap if they are different, or in a ring if
    -- they have different slots.
    pub slices_sum-host_sub_offset :
        (slots : ℕ) (ring_buffered : Bool) (i j b : ℕ)
        → 0 < slots
        → i < num_subchunks slice chunk
        → j < num_subchunks slice chunk
        → (slices_sum slice work (num_subchunks slice chunk) ≡ work)
          × (b < work → (b / slice < num_subchunks slice chunk) × Holds (b / slice) b)
          × (Holds i b → Holds j b → i ≡ j)
          × (host_sub_offset slice slots ring_buffered i + subchunk_size slice work i ≤ chunk)
          × ((if ring_buffered then i % slots else i) ≢ (if ring_buffered then j % slots else j)
              → (host_sub_offset slice slots ring_buffered i + subchunk_size slice work i
                  ≤ host_sub_offset slice slots ring_buffered j)
                ⊎ (host_sub_offset slice slots ring_buffered j + subchunk_size slice work j
                    ≤ host_sub_offset slice slots ring_buffered i))
    slices_sum-host_sub_offset slots ring_buffered i j b k hi hj = (
      slices_sum-work,
      byte-Holds b,
      λ (l1, u1) (l2, u2).
          let at_i = host_sub_offset-eq 1 false i hi (omega arith) in
          let at_j = host_sub_offset-eq 1 false j hj (omega arith) in
          elim (Bool-cases (i == j)) [
            | inl t ↦ ground arith
            | inr t ↦ elim (apart i j i j (ground arith)) [
              | inl o ↦ absurd (omega (arith, o, l1, u1, l2, u2, at_i, at_j))
              | inr o ↦ absurd (omega (arith, o, l1, u1, l2, u2, at_i, at_j))
            ]
          ],
      host_sub_offset-bounded slots ring_buffered i hi k,
      λ ne.
          rw
            (
              host_sub_offset-eq slots ring_buffered i hi k,
              host_sub_offset-eq slots ring_buffered j hj k,
            )
            (elim (Bool-cases ring_buffered) [
              | inl t ↦ rw t (apart (i % slots) (j % slots) i j (λ e. ne (rw t e)))
              | inr t ↦ rw t (apart i j i j (λ e. ne (rw t e)))
            ]),
    )

-- Without a forced size, a slice is 512 KB or more, 4 MB or less for chunks below 512 MB and 16 MB or
-- less for any chunk, and it cannot be doubled again: twice a slice is more than an eighth of the
-- chunk or than 4 MB, and for chunks of 512 MB or more, than a 64th of the chunk or than 16 MB.
pub subchunk_slice_for_lem :
    (chunk_size : ℕ)
    → let slice = subchunk_slice_for 0 chunk_size in
      (524288 ≤ slice)
      × (slice ≤ 16777216)
      × (chunk_size < 536870912
          → (slice ≤ 4194304) × ((chunk_size / 8 < slice * 2) ⊎ (4194304 < slice * 2)))
      × (536870912 ≤ chunk_size → (chunk_size / 64 < slice * 2) ⊎ (16777216 < slice * 2))
subchunk_slice_for_lem c =
    let (low, high, small) = slice_bounds c in
    let (below, above) = slice_maximal c in (low, high, λ h. (small h, below h), above)
