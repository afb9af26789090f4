-- ===== src/Pccl/Executor/Node.antt =====
-- pcie-ccl-cuda/src/executor/graph_executor.cpp: when the next slice of a node may run, and what a
-- submission and a completion do to the node and to the shared progress.
pub mod Ready
pub mod Accounting
mod Tests
use hy_link.Pccl.Executor.NodeTypes.{
  D2DPlacement, NodeInput, InstructionNode, NodeState, Outcome, idle, published, h2h_submitted,
  dma_submitted, failed, Environment,
}
use hy_link.Prelude.{
  ℕ, ◌+◌, ◌-◌, suc, leb, ltb, ◌==◌, Bool, true, false, ◌&&◌, ◌||◌, not, Option, none, some, List,
  [], ◌∷◌, if◌then◌else◌,
}
use hy_link.Prelude.Int.{ℤ, pos, negsuc, is_nonneg, int_lt}
use hy_link.Pccl.Ir.{OpCode, ProgressKey, max_ranks}
use hy_link.Pccl.Slice.{subchunk_size}
use hy_link.Pccl.Progress.{
  ProgressState, get_write_progress, get_consume_progress, get_num_readers, advance_write_progress,
  advance_reader_done,
}

abbrev pub d2h_lead_window : ℕ
d2h_lead_window = 4

pub inputs_ready : ProgressState → ℕ → List NodeInput → ℕ → Bool
inputs_ready st epoch [] subchunk_idx = true
inputs_ready st epoch (input ∷ inputs) subchunk_idx =
    if ltb (get_write_progress st input.key epoch) (subchunk_idx + 1)
    then false
    else inputs_ready st epoch inputs subchunk_idx

-- Slot reuse in a ring: the readers have drained the slice that lay in the slot.
pub ring_ready : ProgressState → ℕ → ℕ → InstructionNode → ℕ → Bool
ring_ready st epoch slots node subchunk_idx = not (
    node.output_ring_buffered
    && leb slots subchunk_idx
    && ltb 0 (get_num_readers st node.output)
    && ltb (get_consume_progress st node.output epoch) (subchunk_idx - slots + 1))

pub guard_ready : ProgressState → ℕ → ProgressKey → ℕ → Bool
guard_ready st epoch guard subchunk_idx =
    if ltb 0 guard.version && ltb (get_write_progress st guard epoch) (subchunk_idx + 1)
    then false
    else if get_num_readers st guard == 0
    then true
    else leb (subchunk_idx + 1) (get_consume_progress st guard epoch)

pub overwrite_ready : ProgressState → ℕ → ℕ → InstructionNode → ℕ → Bool
unfolding ring_ready guard_ready
overwrite_ready st epoch slots node subchunk_idx =
    ring_ready st epoch slots node subchunk_idx && elim node.overwrite_guard [
      | none ↦ true
      | some guard ↦ guard_ready st epoch guard subchunk_idx
    ]

pub publish_input_readers : ProgressState → ℕ → List NodeInput → ℕ → ProgressState
publish_input_readers st epoch [] subchunk_idx = st
publish_input_readers st epoch (input ∷ inputs) subchunk_idx =
    let next =
      if is_nonneg input.reader_id
      then advance_reader_done st input.key input.reader_id (subchunk_idx + 1) epoch
      else st in
    publish_input_readers next epoch inputs subchunk_idx

-- publishNodeProgress, then publishInputReaders.
pub publish : ProgressState → ℕ → InstructionNode → ℕ → ProgressState
unfolding publish_input_readers
publish st epoch node subchunk_idx =
    publish_input_readers (advance_write_progress st node.output (subchunk_idx + 1) epoch) epoch
      node.inputs subchunk_idx

pub is_copy : OpCode → Bool
is_copy op = elim op [
  | OpCode.d2h ↦ true
  | OpCode.h2d ↦ true
  | OpCode.d2d ↦ true
  | OpCode.d2d_reduce ↦ true
  | _ ↦ false
]

pub is_host_op : OpCode → Bool
is_host_op op = elim op [ OpCode.h2h ↦ true | OpCode.h2h_reduce ↦ true | _ ↦ false ]

-- The window by which D2H may lead its readers.
pub lead_blocked : Environment → ProgressState → InstructionNode → ℕ → Bool
lead_blocked env st node sc =
    env.d2h_lead_window_enabled
    && elim node.op [ OpCode.d2h ↦ true | _ ↦ false ]
    && ltb 0 (get_num_readers st node.output)
    && leb (get_consume_progress st node.output env.epoch + d2h_lead_window) sc

-- A copy between devices first waits until the other rank has reached the collective.
pub remote_blocked : Environment → InstructionNode → Bool
remote_blocked env node = elim node.op [
  | OpCode.d2d ↦
      let remote : ℤ = elim node.d2d_placement [
        | D2DPlacement.local ↦ negsuc 0
        | D2DPlacement.remote_read ↦ node.source_rank
        | D2DPlacement.remote_write ↦ node.destination_rank
      ] in
      is_nonneg remote && int_lt remote (pos max_ranks) && not (env.remote_ready remote)
  | _ ↦ false
]

-- A local copy onto itself needs no copy.
pub is_in_place : Environment → InstructionNode → ℕ → ℕ → Bool
is_in_place env node src dst = elim node.op [
  | OpCode.d2d ↦ elim node.d2d_placement [ D2DPlacement.local ↦ src == dst | _ ↦ false ]
  | _ ↦ false
]

-- A slice that needs no work counts as done at once.
pub finish_now :
    ProgressState → ℕ → InstructionNode → NodeState → Outcome × ProgressState × NodeState
unfolding publish
finish_now st epoch node state = (
  published,
  publish st epoch node state.next_subchunk,
  record state {
    next_subchunk = suc state.next_subchunk;
    completed_subchunks = suc state.completed_subchunks;
  },
)

pub submit_h2h : Environment → ProgressState → NodeState → Outcome × ProgressState × NodeState
submit_h2h env st state =
    if not env.has_h2h_engine || not env.h2h_user_ready || (env.h2h_expected == 0)
    then (failed, st, state)
    else (
      h2h_submitted,
      st,
      record state { next_subchunk = suc state.next_subchunk; h2h_pending = suc state.h2h_pending },
    )

pub submit_dma :
    Environment → ProgressState → InstructionNode → NodeState → Outcome × ProgressState × NodeState
unfolding finish_now is_in_place remote_blocked
submit_dma env st node state = if env.ring_full then (idle, st, state) else elim env.dst [
  | none ↦ (failed, st, state)
  | some dst ↦ elim env.src [
    | none ↦ (failed, st, state)
    | some src ↦
        if is_in_place env node src dst
        then finish_now st env.epoch node state
        else if remote_blocked env node
        then (idle, st, state)
        else if env.copy_succeeds && env.record_succeeds
        then (dma_submitted, st, record state { next_subchunk = suc state.next_subchunk })
        else (failed, st, state)
  ]
]

pub needs_no_work : Environment → InstructionNode → ℕ → Bool
unfolding is_copy
needs_no_work env node sc =
    elim node.op [ OpCode.nop ↦ true | _ ↦ false ]
    || (env.skip_dma && is_copy node.op)
    || (subchunk_size env.slice node.work_bytes sc == 0)

pub try_submit_node :
    Environment → ProgressState → InstructionNode → NodeState → Outcome × ProgressState × NodeState
unfolding inputs_ready overwrite_ready needs_no_work lead_blocked is_host_op finish_now submit_h2h
    submit_dma
try_submit_node env st node state =
    let sc = state.next_subchunk in
    if leb env.num_subchunks sc
    then (idle, st, state)
    else if not (inputs_ready st env.epoch node.inputs sc)
        || not (overwrite_ready st env.epoch env.ring_slots node sc)
    then (idle, st, state)
    else if needs_no_work env node sc
    then finish_now st env.epoch node state
    else if lead_blocked env st node sc
    then (idle, st, state)
    else if is_host_op node.op
    then submit_h2h env st state
    else submit_dma env st node state

-- A completed copy of slice `sc`, as pollCudaLane handles it.
pub complete_dma : ProgressState → ℕ → InstructionNode → NodeState → ℕ → ProgressState × NodeState
unfolding publish
complete_dma st epoch node state sc =
    (publish st epoch node sc, record state { completed_subchunks = suc state.completed_subchunks })

-- A completed host task of slice `sc`, as pollH2HCompletions handles it.
pub complete_h2h : ProgressState → ℕ → InstructionNode → NodeState → ℕ → ProgressState × NodeState
unfolding publish
complete_h2h st epoch node state sc = (
  publish st epoch node sc,
  record state {
    completed_subchunks = suc state.completed_subchunks;
    h2h_pending = state.h2h_pending - 1;
  },
)

-- Every node has run all its slices and every terminal output is written.
pub nodes_complete : ℕ → List NodeState → Bool
nodes_complete num_subchunks [] = true
nodes_complete num_subchunks (state ∷ states) =
    if ltb state.completed_subchunks num_subchunks
    then false
    else nodes_complete num_subchunks states

pub outputs_complete : ProgressState → ℕ → ℕ → List ProgressKey → Bool
outputs_complete st epoch num_subchunks [] = true
outputs_complete st epoch num_subchunks (key ∷ keys) =
    if ltb (get_write_progress st key epoch) num_subchunks
    then false
    else outputs_complete st epoch num_subchunks keys

pub terminals_complete : ProgressState → ℕ → ℕ → List NodeState → List ProgressKey → Bool
unfolding nodes_complete outputs_complete
terminals_complete st epoch num_subchunks states terminal_outputs =
    nodes_complete num_subchunks states && outputs_complete st epoch num_subchunks terminal_outputs
