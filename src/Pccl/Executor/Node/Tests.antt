-- ===== src/Pccl/Executor/Node/Tests.antt =====
-- A copy to the host that overwrites version 1 of a chunk with two readers, and witnesses.
use hy_link.Prelude.{ℕ, ◌-◌, ◌<◌, ◌≡◌, refl, true, false, some, [], ◌∷◌, arith, All}
use hy_link.Prelude.Int.{pos}
use hy_link.Pccl.Ir.{OpCode, ProgressKey, ProgressSpace}
use hy_link.Pccl.Slice.{subchunk_size}
use hy_link.Pccl.Progress.{
  ProgressState, progress_version_index, slot_of, get_write_progress, get_consume_progress,
  get_num_readers,
}
use hy_link.Pccl.Executor.NodeTypes.{
  D2DPlacement, InstructionNode, NodeState, Environment, idle, dma_submitted,
}
use hy_link.Pccl.Executor.Node.{
  inputs_ready, ring_ready, guard_ready, overwrite_ready, needs_no_work, is_copy, lead_blocked,
  is_host_op, submit_dma, is_in_place, remote_blocked, try_submit_node, complete_dma, complete_h2h,
  nodes_complete, outputs_complete, terminals_complete,
}
use hy_link.Pccl.Executor.Node.Ready.{IsSafe, try_submit_node-IsSafe}
use hy_link.Pccl.Executor.Node.Accounting.{
  IsBalanced, dma_after, terminals_complete-quiet, try_submit_node_complete,
}

abbrev key_at : ProgressSpace → ℕ → ProgressKey
key_at space version = record { space = space; owner = pos 0; chunk = pos 0; version = version }

-- Every chunk version is written and drained up to slice 3.
abbrev three_slices : ProgressState
three_slices = record {
  write_progress = λ k e. 3;
  consume_progress = λ k e. 3;
  reader_done = λ k i e. 3;
  num_readers = λ k. 2;
}

abbrev copy_out : InstructionNode
copy_out = record {
  op = OpCode.d2h;
  source_rank = pos 0;
  destination_rank = pos 0;
  d2d_placement = D2DPlacement.local;
  inputs =
      record { key = key_at ProgressSpace.input 0; reader_id = pos 0; ring_buffered = false } ∷ [];
  output = key_at ProgressSpace.host 2;
  output_ring_buffered = false;
  work_bytes = 16384;
  overwrite_guard = some (key_at ProgressSpace.host 1);
}

abbrev machine : Environment
machine = record {
  num_subchunks = 4;
  slice = 4096;
  ring_slots = 2;
  epoch = 1;
  skip_dma = false;
  d2h_lead_window_enabled = false;
  has_h2h_engine = true;
  h2h_user_ready = true;
  h2h_expected = 1;
  ring_full = false;
  src = some 4096;
  dst = some 65536;
  remote_ready = λ r. true;
  copy_succeeds = true;
  record_succeeds = true;
}

abbrev at_slice : ℕ → NodeState
at_slice n = record { next_subchunk = n; completed_subchunks = n; h2h_pending = 0 }

submits : (try_submit_node machine three_slices copy_out (at_slice 2)).0 ≡ dma_submitted
unfolding try_submit_node inputs_ready overwrite_ready ring_ready guard_ready needs_no_work is_copy
    lead_blocked is_host_op submit_dma is_in_place remote_blocked subchunk_size get_write_progress
    get_consume_progress get_num_readers slot_of progress_version_index
submits = refl

waits : (try_submit_node machine three_slices copy_out (at_slice 3)).0 ≡ idle
unfolding try_submit_node inputs_ready get_write_progress slot_of progress_version_index
waits = refl

try_submit_node-IsSafe_example :
    ((at_slice 2).next_subchunk < machine.num_subchunks)
    × IsSafe three_slices machine.epoch machine.ring_slots copy_out (at_slice 2).next_subchunk
try_submit_node-IsSafe_example =
    try_submit_node-IsSafe machine three_slices copy_out (at_slice 2)
      (λ slot ep reader h. omega arith) (λ e. ground (arith, submits, e))

terminals_complete-quiet_example :
    All
      (λ (s : NodeState × ℕ). (s.1 ≡ 0) × (s.0.h2h_pending ≡ 0) × (s.0.next_subchunk ≡ 3))
      ((at_slice 3, 0) ∷ [])
unfolding terminals_complete nodes_complete outputs_complete get_write_progress slot_of
    progress_version_index
terminals_complete-quiet_example =
    terminals_complete-quiet three_slices 1 3 ((at_slice 3, 0) ∷ [])
      (key_at ProgressSpace.output 1 ∷ []) ((omega arith, omega arith), tt) refl

try_submit_node_complete_example :
    let r = try_submit_node machine three_slices copy_out (at_slice 2) in
    let c = complete_dma three_slices 1 copy_out (at_slice 2) 1 in
    let h = complete_h2h three_slices 1 copy_out (at_slice 2) 1 in
    IsBalanced machine.num_subchunks r.2 (dma_after r.0 0)
    × (0 < 0 → IsBalanced machine.num_subchunks c.1 (0 - 1))
    × (0 < (at_slice 2).h2h_pending → IsBalanced machine.num_subchunks h.1 0)
try_submit_node_complete_example =
    try_submit_node_complete machine three_slices copy_out (at_slice 2) 1 0
      (omega arith, omega arith)
