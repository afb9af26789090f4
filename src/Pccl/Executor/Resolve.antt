-- ===== src/Pccl/Executor/Resolve.antt =====
-- pcie-ccl-cuda/src/executor/graph_executor.cpp: the addresses of slices, the lane of a copy and the
-- small predicates of the executor. Chunk indices of resolved keys are not negative.
use hy_link.Prelude.{
  ℕ, ◌/◌, ◌%◌, max, ◌==◌, Bool, ◌&&◌, not, Option, none, some, get_elem?, mul64, add64,
}
use hy_link.Prelude.Int.{ℤ, pos, int_eq, is_nonneg, int_lt, to_nat}
use hy_link.Pccl.Ir.{OpCode, ProgressKey, ProgressSpace, max_ranks}
use hy_link.Pccl.Layout.{LayoutDesc}
use hy_link.Pccl.Slice.{host_sub_offset}
use hy_link.Pccl.Executor.NodeTypes.{InstructionNode, D2DPlacement}

-- The base addresses of a collective; none for a null pointer.
pub record RuntimeBinding : Type 0 where
  pub host_base : ℤ → Option ℕ
  pub device_base : ProgressSpace → ℤ → Option ℕ
  pub layout : ProgressSpace → LayoutDesc

pub device_chunk_offset : LayoutDesc → ℕ → ℕ
device_chunk_offset layout chunk =
    let cps = max 1 layout.chunks_per_segment in
    add64 (add64 (mul64 (chunk / cps) layout.segment_size) layout.stride_offset)
      (elim (get_elem? layout.chunk_offsets chunk) [
        | some offset ↦ offset
        | none ↦ mul64 (chunk % cps) layout.chunk_size
      ])

pub resolve : RuntimeBinding → ℕ → ℕ → ℕ → ProgressKey → ℕ → Bool → Option ℕ
unfolding device_chunk_offset
resolve binding chunk_size slice slots key subchunk_idx ring_buffered = elim key.space [
  | ProgressSpace.host ↦ elim (binding.host_base key.owner) [
    | none ↦ none
    | some base ↦ some (
        add64 (add64 base (mul64 (to_nat key.chunk) chunk_size))
          (host_sub_offset slice slots ring_buffered subchunk_idx))
  ]
  | space ↦ elim (binding.device_base space key.owner) [
    | none ↦ none
    | some base ↦ some (
        add64 (add64 base (device_chunk_offset (binding.layout space) (to_nat key.chunk)))
          (mul64 subchunk_idx slice))
  ]
]

-- DMA_LANE_D2H is 0, _H2D 1, _D2D_PEER 2, _D2D_LOCAL 3 and _D2D_REDUCE 4.
pub select_dma_lane : InstructionNode → ℕ
select_dma_lane node = elim node.op [
  | OpCode.d2h ↦ 0
  | OpCode.h2d ↦ 1
  | OpCode.d2d ↦ elim node.d2d_placement [ D2DPlacement.local ↦ 3 | _ ↦ 2 ]
  | OpCode.d2d_reduce ↦ 4
  | _ ↦ 1
]

-- The rank has published this collective's sequence number in the slot.
pub remote_user_ready : (ℤ → ℤ → ℕ) → ℤ → ℕ → ℤ → ℤ → ℕ → Bool
remote_user_ready user_ready_seq rank max_depth source_rank slot work_seq =
    is_nonneg source_rank
    && int_lt source_rank (pos max_ranks)
    && not (int_eq source_rank rank)
    && is_nonneg slot
    && int_lt slot (pos max_depth)
    && user_ready_seq source_rank slot == work_seq
