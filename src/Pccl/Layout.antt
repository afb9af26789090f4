-- ===== src/Pccl/Layout.antt =====
-- pcie-ccl-cuda/src/ir/compiler.cpp: where the chunks of a user buffer lie. Counts are `int` in the
-- source and at least 1 after its std::max, so they are natural numbers here.
pub mod Bounds
mod Tests
use hy_link.Prelude.{
  ℕ, ◌+◌, ◌*◌, ◌/◌, ◌%◌, ◌==◌, List, [], ◌∷◌, zero, suc, max, add64, sub64, mul64, if◌then◌else◌,
}

pub div_up : ℕ → ℕ → ℕ
div_up a b = if b == 0 then 0 else sub64 (add64 a b) 1 / b

pub record LayoutDesc : Type 0 where
  pub segment_size : ℕ
  pub stride_offset : ℕ
  pub chunk_size : ℕ
  pub chunks_per_segment : ℕ
  pub chunk_offsets : List ℕ
  pub chunk_sizes : List ℕ

pub make_layout : ℕ → ℕ → ℕ → ℕ → LayoutDesc
make_layout segment_size stride_offset chunk_size chunks_per_segment = record {
  segment_size = segment_size;
  stride_offset = stride_offset;
  chunk_size = chunk_size;
  chunks_per_segment = max 1 chunks_per_segment;
  chunk_offsets = [];
  chunk_sizes = [];
}

-- The first element of chunk `j` of a segment.
pub begin_elem : ℕ → ℕ → ℕ → ℕ
begin_elem active_elems cps j = mul64 active_elems j / cps

pub chunk_offset : ℕ → ℕ → ℕ → ℕ → ℕ
chunk_offset element_size active_elems cps c =
    mul64 (begin_elem active_elems cps (c % cps)) element_size

pub chunk_size_of : ℕ → ℕ → ℕ → ℕ → ℕ
chunk_size_of element_size active_elems cps c =
    mul64
      (sub64 (begin_elem active_elems cps (c % cps + 1)) (begin_elem active_elems cps (c % cps)))
      element_size

-- f c, f (c + 1), ... for `n` chunks.
pub for_chunks : (ℕ → ℕ) → ℕ → ℕ → List ℕ
for_chunks f c zero = []
for_chunks f c (suc n) = f c ∷ for_chunks f (suc c) n

pub make_device_layout : ℕ → ℕ → ℕ → ℕ → ℕ → ℕ → ℕ → LayoutDesc
make_device_layout segment_size stride_offset element_size active total_chunks cps slot_size =
    record {
      segment_size = segment_size;
      stride_offset = stride_offset;
      chunk_size = slot_size;
      chunks_per_segment = max 1 cps;
      chunk_offsets = for_chunks (chunk_offset element_size active (max 1 cps)) 0 total_chunks;
      chunk_sizes = for_chunks (chunk_size_of element_size active (max 1 cps)) 0 total_chunks;
    }

pub max_chunk_bytes : ℕ → ℕ → ℕ → ℕ
max_chunk_bytes active_elems element_size cps = mul64 (div_up active_elems (max 1 cps)) element_size
