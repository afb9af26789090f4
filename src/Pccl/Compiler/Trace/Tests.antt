-- ===== src/Pccl/Compiler/Trace/Tests.antt =====
-- A three-step schedule for two ranks: each rank copies its chunk to the host, and rank 0 copies the
-- host chunk that it staged twice to its output. Witnesses.
use hy_link.Prelude.{ℕ, ◌≤◌, ◌≡◌, refl, Bool, false, Option, some, List, [], ◌∷◌, arith, All, true}
use hy_link.Prelude.Int.{ℤ, pos, negsuc}
use hy_link.Pccl.Ir.{
  OpCode, DeviceBufferKind, ProgressSpace, ChunkAddress, Instruction, IrProgram, key_eq,
  max_progress_readers, progress_space_for_device_buffer,
}
use hy_link.Pccl.Ir.Keys.{base_of, same_base_key}
use hy_link.Pccl.Compiler.{
  assign, emplace, host_key, device_key, source_rank, produced_base, read_bases, with_version,
  final_produced, latest, latest_existing, produce, visible_dst_buf, visible_src_buf, staged_on,
}
use hy_link.Pccl.Compiler.Trace.{
  CompileState, Access, compile_trace, assign_all, access_for, read_all, assign_readers,
  self_rmw_input, count_of, max_input_chunk_count, enter_chunks, enter_ranks, initial_latest,
}
use hy_link.Pccl.Compiler.Trace.Writes.{IsGuarded, Distinct}
use hy_link.Pccl.Compiler.Trace.Ranks.{
  compile_trace-rank, compile_trace-IsGuarded, compile_trace-Distinct,
}
use hy_link.Pccl.Compiler.Trace.Readers.{compile_trace-readers, ids_of, upto}

abbrev at_numa : ℕ → ℕ → ChunkAddress
at_numa n c = record { numa_id = pos n; chunk_idx = pos c }

abbrev none_staged : ℤ → ℤ → Bool
none_staged owner chunk = false

abbrev copy_out : ℕ → ℕ → Instruction
copy_out rank chunk = record {
  op = OpCode.d2h;
  rank = pos rank;
  src_rank = negsuc 0;
  src_buf = DeviceBufferKind.input;
  dst_buf = DeviceBufferKind.output;
  src = at_numa 0 chunk;
  src2 = at_numa 0 0;
  dst = at_numa 0 0;
}

abbrev copy_in : ℕ → Instruction
copy_in rank = record {
  op = OpCode.h2d;
  rank = pos rank;
  src_rank = negsuc 0;
  src_buf = DeviceBufferKind.input;
  dst_buf = DeviceBufferKind.output;
  src = at_numa 0 0;
  src2 = at_numa 0 0;
  dst = at_numa 0 0;
}

abbrev relay : IrProgram
relay = record {
  input_chunk_count = 2;
  output_chunk_count = 1;
  all_instructions = copy_out 0 0 ∷ copy_in 1 ∷ copy_out 0 1 ∷ copy_in 1 ∷ [];
}

abbrev empty : List Access × CompileState
empty = ([], record { latest_by_base = λ k. Option.none; reader_counts = λ k. Option.none })

-- The result of a compilation, or an empty trace.
abbrev result_of : Option (List Access × CompileState) → List Access × CompileState
result_of Option.none = empty
result_of (some r) = r

abbrev relay_accesses : List Access
relay_accesses = (result_of (compile_trace none_staged relay 0 2)).0

abbrev relay_final : CompileState
relay_final = (result_of (compile_trace none_staged relay 0 2)).1

abbrev versions_of : List Access → List ℕ
versions_of [] = []
versions_of (a ∷ others) = a.output.version ∷ versions_of others

abbrev is_some : Option (List Access × CompileState) → Bool
is_some Option.none = false
is_some (some r) = true

result_of-eq :
    (o : Option (List Access × CompileState))
    → is_some o ≡ true
    → o ≡ some ((result_of o).0, (result_of o).1)
result_of-eq Option.none h = absurd (ground (arith, h))
result_of-eq (some r) h = refl

relay_succeeds : is_some (compile_trace none_staged relay 0 2) ≡ true
unfolding compile_trace assign_all access_for read_all assign_readers self_rmw_input count_of
    enter_chunks enter_ranks initial_latest max_input_chunk_count produced_base read_bases
    with_version final_produced latest latest_existing produce visible_dst_buf visible_src_buf
    assign emplace host_key device_key source_rank key_eq same_base_key base_of
    progress_space_for_device_buffer
relay_succeeds = refl

relay_compiles : compile_trace none_staged relay 0 2 ≡ some (relay_accesses, relay_final)
relay_compiles = result_of-eq (compile_trace none_staged relay 0 2) relay_succeeds

relay_versions : versions_of relay_accesses ≡ 1 ∷ 1 ∷ 2 ∷ 2 ∷ []
unfolding compile_trace assign_all access_for read_all assign_readers self_rmw_input count_of
    enter_chunks enter_ranks initial_latest max_input_chunk_count produced_base read_bases
    with_version final_produced latest latest_existing produce visible_dst_buf visible_src_buf
    assign emplace host_key device_key source_rank key_eq same_base_key base_of
    progress_space_for_device_buffer
relay_versions = refl

abbrev all_staged : ℤ → ℤ → Bool
all_staged owner chunk = true

compile_trace-rank_example :
    compile_trace (staged_on true all_staged) relay 0 2
    ≡ compile_trace (staged_on true all_staged) relay 1 2
compile_trace-rank_example =
    compile_trace-rank all_staged true true relay 2 0 1 (omega arith) (omega arith) refl

abbrev spaces_of : List Access → List ProgressSpace
spaces_of [] = []
spaces_of (a ∷ others) = a.output.space ∷ spaces_of others

-- A rank in place and one out of place name the same write by different keys.
in_place_spaces :
    spaces_of (result_of (compile_trace (staged_on true all_staged) relay 0 2)).0
    ≡ ProgressSpace.host ∷ ProgressSpace.internal ∷ ProgressSpace.host ∷ ProgressSpace.internal ∷ []
unfolding compile_trace assign_all access_for read_all assign_readers self_rmw_input count_of
    enter_chunks enter_ranks initial_latest max_input_chunk_count produced_base read_bases
    with_version final_produced latest latest_existing produce visible_dst_buf visible_src_buf
    assign emplace host_key device_key source_rank key_eq same_base_key base_of
    progress_space_for_device_buffer
in_place_spaces = refl

out_of_place_spaces :
    spaces_of (result_of (compile_trace (staged_on false all_staged) relay 1 2)).0
    ≡ ProgressSpace.host ∷ ProgressSpace.output ∷ ProgressSpace.host ∷ ProgressSpace.output ∷ []
unfolding compile_trace assign_all access_for read_all assign_readers self_rmw_input count_of
    enter_chunks enter_ranks initial_latest max_input_chunk_count produced_base read_bases
    with_version final_produced latest latest_existing produce visible_dst_buf visible_src_buf
    assign emplace host_key device_key source_rank key_eq same_base_key base_of
    progress_space_for_device_buffer
out_of_place_spaces = refl

compile_trace-IsGuarded_example : All IsGuarded relay_accesses
compile_trace-IsGuarded_example =
    compile_trace-IsGuarded none_staged relay 0 2 relay_accesses relay_final (omega arith)
      relay_compiles

compile_trace-Distinct_example : Distinct relay_accesses
compile_trace-Distinct_example =
    compile_trace-Distinct none_staged relay 0 2 relay_accesses relay_final (omega arith)
      relay_compiles

compile_trace-readers_example :
    (ids_of (host_key (pos 0) (pos 0) 1) relay_accesses
      ≡ upto (count_of relay_final.reader_counts (host_key (pos 0) (pos 0) 1)))
    × (count_of relay_final.reader_counts (host_key (pos 0) (pos 0) 1) ≤ max_progress_readers)
compile_trace-readers_example =
    compile_trace-readers none_staged relay 0 2 relay_accesses relay_final
      (host_key (pos 0) (pos 0) 1) relay_compiles
