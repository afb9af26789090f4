-- ===== src/Pccl/Compiler/Nodes/Tests.antt =====
-- A push from rank 0 to rank 1 and a copy of rank 1 to the host, and witnesses.
use hy_link.Pccl.Ir.Keys.{base_of}
use hy_link.Prelude.{ℕ, ◌≡◌, refl, true, false, List, [], ◌∷◌, arith, All, length}
use hy_link.Prelude.Int.{pos}
use hy_link.Pccl.Ir.{
  OpCode, DeviceBufferKind, ProgressSpace, ProgressKey, ChunkAddress, Instruction,
}
use hy_link.Pccl.Compiler.{source_rank}
use hy_link.Pccl.Compiler.Trace.{Access}
use hy_link.Pccl.Compiler.Nodes.{placement, nodes_for}
use hy_link.Pccl.Compiler.Nodes.Partition.{HasGuard, nodes_total, nodes_for_lem}

abbrev at_numa : ℕ → ChunkAddress
at_numa c = record { numa_id = pos 0; chunk_idx = pos c }

abbrev key_at : ProgressSpace → ℕ → ProgressKey
key_at space version = record { space = space; owner = pos 1; chunk = pos 0; version = version }

abbrev instruction_of : OpCode → Instruction
instruction_of op = record {
  op = op;
  rank = pos 1;
  src_rank = pos 0;
  src_buf = DeviceBufferKind.input;
  dst_buf = DeviceBufferKind.output;
  src = at_numa 0;
  src2 = at_numa 0;
  dst = at_numa 0;
}

abbrev access_of : OpCode → ProgressSpace → Access
access_of op space = record {
  instruction = instruction_of op;
  inputs = key_at ProgressSpace.input 0 ∷ [];
  input_reader_ids = pos 0 ∷ [];
  output = key_at space 2;
  old_output = key_at space 1;
}

abbrev two : List Access
two = access_of OpCode.d2d ProgressSpace.output ∷ access_of OpCode.d2h ProgressSpace.host ∷ []

pushed_by_source : (placement true (instruction_of OpCode.d2d)).0 ≡ pos 0
unfolding placement source_rank
pushed_by_source = refl

nodes_for_lem_example :
    (nodes_total true (λ k. false) (λ k. 4096) 2 two ≡ length two)
    × All HasGuard (nodes_for true (λ k. false) (λ k. 4096) (pos 1) two)
unfolding placement base_of
nodes_for_lem_example =
    nodes_for_lem true (λ k. false) (λ k. 4096) 2 (pos 1) two
      ((0, pushed_by_source, omega arith), ((1, refl, omega arith), tt))
      ((refl, refl), ((refl, refl), tt))
