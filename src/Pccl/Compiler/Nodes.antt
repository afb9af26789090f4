-- ===== src/Pccl/Compiler/Nodes.antt =====
-- pcie-ccl-cuda/src/ir/compiler.cpp, the second half of pass 1: which rank runs an instruction, and
-- the nodes that a rank takes from the program. The work bytes and ring flags come from the layout
-- and the host chunks' metadata, as arguments. resource_key, a label, is left out.
pub mod Partition
mod Tests
use hy_link.Prelude.{ℕ, ◌==◌, Bool, ◌&&◌, not, Option, none, some, List, [], ◌∷◌, if◌then◌else◌}
use hy_link.Prelude.Int.{ℤ, int_eq}
use hy_link.Pccl.Ir.{OpCode, ProgressKey, Instruction}
use hy_link.Pccl.Ir.Keys.{same_base_key}
use hy_link.Pccl.Compiler.{source_rank}
use hy_link.Pccl.Compiler.Trace.{Access}
use hy_link.Pccl.Executor.NodeTypes.{D2DPlacement, NodeInput, InstructionNode}

-- Where a copy between devices runs; `remote_d2d_push` is PCCL_D2D_PUSH.
pub placement : Bool → Instruction → ℤ × D2DPlacement
placement remote_d2d_push inst = elim inst.op [
  | OpCode.d2d ↦
      if int_eq (source_rank inst) inst.rank
      then (inst.rank, D2DPlacement.local)
      else if remote_d2d_push
      then (source_rank inst, D2DPlacement.remote_write)
      else (inst.rank, D2DPlacement.remote_read)
  | _ ↦ (inst.rank, D2DPlacement.local)
]

-- The inputs of a node with their reader ids.
pub node_inputs : (ProgressKey → Bool) → List ProgressKey → List ℤ → List NodeInput
node_inputs is_ring [] ids = []
node_inputs is_ring (key ∷ keys) [] = []
node_inputs is_ring (key ∷ keys) (id ∷ ids) =
    record { key = key; reader_id = id; ring_buffered = is_ring key } ∷ node_inputs is_ring keys ids

pub overwrite_guard_of : Access → Option ProgressKey
overwrite_guard_of access =
    if same_base_key access.old_output access.output
      && not (access.old_output.version == access.output.version)
    then some access.old_output
    else none

pub node_of : Bool → (ProgressKey → Bool) → (ProgressKey → ℕ) → Access → InstructionNode
unfolding placement node_inputs overwrite_guard_of
node_of remote_d2d_push is_ring chunk_bytes access = record {
  op = access.instruction.op;
  source_rank = source_rank access.instruction;
  destination_rank = access.instruction.rank;
  d2d_placement = (placement remote_d2d_push access.instruction).1;
  inputs = node_inputs is_ring access.inputs access.input_reader_ids;
  output = access.output;
  output_ring_buffered = is_ring access.output;
  work_bytes = chunk_bytes access.output;
  overwrite_guard = overwrite_guard_of access;
}

pub nodes_for :
    Bool → (ProgressKey → Bool) → (ProgressKey → ℕ) → ℤ → List Access → List InstructionNode
unfolding node_of placement
nodes_for remote_d2d_push is_ring chunk_bytes rank [] = []
nodes_for remote_d2d_push is_ring chunk_bytes rank (access ∷ rest) =
    let others = nodes_for remote_d2d_push is_ring chunk_bytes rank rest in
    if int_eq (placement remote_d2d_push access.instruction).0 rank
    then node_of remote_d2d_push is_ring chunk_bytes access ∷ others
    else others
