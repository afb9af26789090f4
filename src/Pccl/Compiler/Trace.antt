-- ===== src/Pccl/Compiler/Trace.antt =====
-- pcie-ccl-cuda/src/ir/compiler.cpp, the loop of pass 1: the accesses of every instruction of the
-- program, of all ranks, in order. `none` stands for the exception on too many readers.
pub mod Versions
pub mod Writes
pub mod Readers
pub mod Ranks
mod Tests
use hy_link.Prelude.{
  ℕ, suc, leb, Bool, false, ◌&&◌, Option, none, some, List, [], ◌∷◌, if◌then◌else◌, ◌==◌, max, true,
  zero,
}
use hy_link.Prelude.Int.{ℤ, pos, negsuc, to_nat, int_suc, int_eq}
use hy_link.Pccl.Ir.{
  OpCode, ProgressKey, Instruction, max_progress_readers, IrProgram, DeviceBufferKind, kind_eq,
}
use hy_link.Pccl.Ir.Keys.{same_base_key}
use hy_link.Pccl.Compiler.{
  KeyMap, assign, produced_base, read_bases, latest, latest_existing, produce, final_produced,
  device_key, emplace,
}

pub record CompileState : Type 0 where
  pub latest_by_base : KeyMap ProgressKey
  pub reader_counts : KeyMap ℕ

-- What one instruction reads and writes; reader id -1 is the accumulator of a reduction.
pub record Access : Type 0 where
  pub instruction : Instruction
  pub inputs : List ProgressKey
  pub input_reader_ids : List ℤ
  pub output : ProgressKey
  pub old_output : ProgressKey

pub read_all :
    KeyMap ProgressKey
    → KeyMap ProgressKey
    → List ProgressKey
    → List ProgressKey × KeyMap ProgressKey
unfolding latest
read_all finals latest_by_base [] = ([], latest_by_base)
read_all finals latest_by_base (base ∷ bases) =
    let first = latest finals latest_by_base base in
    let rest = read_all finals first.1 bases in (first.0 ∷ rest.0, rest.1)

-- inst.op == OpCode::D2DReduce && input_idx == 1 && sameBaseKey(input, output)
pub self_rmw_input : OpCode → ℕ → ProgressKey → ProgressKey → Bool
self_rmw_input op input_idx input output = elim op [
  | OpCode.d2d_reduce ↦ input_idx == 1 && same_base_key input output
  | _ ↦ false
]

pub count_of : KeyMap ℕ → ProgressKey → ℕ
count_of counts key = elim (counts key) [ none ↦ 0 | some n ↦ n ]

pub assign_readers :
    OpCode → ProgressKey → ℕ → List ProgressKey → KeyMap ℕ → Option (List ℤ × KeyMap ℕ)
unfolding self_rmw_input count_of assign
assign_readers op output input_idx [] counts = some ([], counts)
assign_readers op output input_idx (input ∷ inputs) counts =
    if self_rmw_input op input_idx input output
    then elim (assign_readers op output (suc input_idx) inputs counts) [
      | none ↦ none
      | some (ids, after) ↦ some (negsuc 0 ∷ ids, after)
    ]
    else if leb max_progress_readers (count_of counts input)
    then none
    else elim (assign_readers op output (suc input_idx) inputs
        (assign counts input (suc (count_of counts input)))) [
          | none ↦ none
          | some (ids, after) ↦ some (pos (count_of counts input) ∷ ids, after)
        ]

-- The number of input chunks of a rank that the program reads.
pub max_input_chunk_count : ℤ → ℕ → List Instruction → ℕ
max_input_chunk_count rank count [] = count
max_input_chunk_count rank count (inst ∷ rest) =
    let reads : Bool = elim inst.op [ OpCode.d2d ↦ true | OpCode.d2d_reduce ↦ true | _ ↦ false ] in
    max_input_chunk_count rank
      (if reads && kind_eq inst.src_buf DeviceBufferKind.input && int_eq inst.src_rank rank
        then max count (to_nat (int_suc inst.src.chunk_idx))
        else count)
      rest

-- Enter version 0 of the input chunks `c`, `c + 1`, ... of one rank.
pub enter_chunks :
    (KeyMap ProgressKey → ProgressKey → ProgressKey → KeyMap ProgressKey)
    → KeyMap ProgressKey
    → ℤ
    → ℕ
    → ℕ
    → KeyMap ProgressKey
unfolding device_key
enter_chunks put m owner c zero = m
enter_chunks put m owner c (suc n) =
    let key = device_key DeviceBufferKind.input owner (pos c) 0 in
    enter_chunks put (put m key key) owner (suc c) n

pub enter_ranks : IrProgram → KeyMap ProgressKey → ℕ → ℕ → KeyMap ProgressKey
unfolding max_input_chunk_count enter_chunks
enter_ranks program m r zero = m
enter_ranks program m r (suc n) =
    let count = max_input_chunk_count (pos r) program.input_chunk_count program.all_instructions in
    enter_ranks program (enter_chunks emplace m (pos r) 0 count) (suc r) n

-- This rank's input chunks, then those of every rank.
pub initial_latest : IrProgram → ℕ → ℕ → KeyMap ProgressKey
unfolding enter_ranks
initial_latest program rank world_size =
    let count =
      max_input_chunk_count (pos rank) program.input_chunk_count program.all_instructions in
    enter_ranks program (enter_chunks assign (λ k. none) (pos rank) 0 count) 0 world_size

module _ (staged : ℤ → ℤ → Bool) (finals : KeyMap ProgressKey) where
  -- One instruction that writes `base`.
  pub access_for : Instruction → ProgressKey → CompileState → Option (Access × CompileState)
  unfolding read_all latest_existing produce assign_readers read_bases
  access_for inst base st =
      let reads = read_all finals st.latest_by_base (read_bases staged inst) in
      let written = produce reads.1 base in
      elim (assign_readers inst.op written.0 0 reads.0 st.reader_counts) [
        | none ↦ none
        | some (ids, counts) ↦ some (
          record {
            instruction = inst;
            inputs = reads.0;
            input_reader_ids = ids;
            output = written.0;
            old_output = latest_existing reads.1 base;
          },
          record { latest_by_base = written.1; reader_counts = counts },
        )
      ]

  -- The whole program; a NOP accesses nothing.
  pub assign_all : List Instruction → CompileState → Option (List Access × CompileState)
  unfolding access_for produced_base
  assign_all [] st = some ([], st)
  assign_all (inst ∷ rest) st = elim (produced_base staged inst) [
    | none ↦ assign_all rest st
    | some base ↦ elim (access_for inst base st) [
      | none ↦ none
      | some (access, next) ↦ elim (assign_all rest next) [
        | none ↦ none
        | some (accesses, final) ↦ some (access ∷ accesses, final)
      ]
    ]
  ]

-- Pass 1 as one rank runs it.
pub compile_trace : (ℤ → ℤ → Bool) → IrProgram → ℕ → ℕ → Option (List Access × CompileState)
unfolding initial_latest assign_all final_produced
compile_trace staged program rank world_size =
    assign_all staged (final_produced staged (λ k. none) program.all_instructions)
      program.all_instructions
      (record {
        latest_by_base = initial_latest program rank world_size;
        reader_counts = λ k. none;
      })
