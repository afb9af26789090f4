-- ===== src/Pccl/Executor/NodeTypes.antt =====
-- pcie-ccl-cuda/src/executor/graph_executor.cpp: the nodes of a rank's graph. The device runtime, the
-- H2H engine and the other ranks answer through the fields of `Environment`.
use hy_link.Prelude.Int.{ℤ}
use hy_link.Pccl.Ir.{OpCode, ProgressKey}
use hy_link.Prelude.{List, ℕ, Bool, Option}

pub data D2DPlacement : Type 0 where
  local remote_read remote_write : D2DPlacement

pub record NodeInput : Type 0 where
  pub key : ProgressKey
  pub reader_id : ℤ
  pub ring_buffered : Bool

-- `overwrite_guard` is none where has_overwrite_guard is false.
pub record InstructionNode : Type 0 where
  pub op : OpCode
  pub source_rank : ℤ
  pub destination_rank : ℤ
  pub d2d_placement : D2DPlacement
  pub inputs : List NodeInput
  pub output : ProgressKey
  pub output_ring_buffered : Bool
  pub work_bytes : ℕ
  pub overwrite_guard : Option ProgressKey

pub record NodeState : Type 0 where
  pub next_subchunk : ℕ
  pub completed_subchunks : ℕ
  pub h2h_pending : ℕ

pub data Outcome : Type 0 where
  idle published h2h_submitted dma_submitted failed : Outcome

-- What a submission asks of the rest of the program; `src` and `dst` are what resolve() returns,
-- and `remote_ready` is remote_user_ready_seen_ or else remoteUserReady.
pub record Environment : Type 0 where
  pub num_subchunks : ℕ
  pub slice : ℕ
  pub ring_slots : ℕ
  pub epoch : ℕ
  pub skip_dma : Bool
  pub d2h_lead_window_enabled : Bool
  pub has_h2h_engine : Bool
  pub h2h_user_ready : Bool
  pub h2h_expected : ℕ
  pub ring_full : Bool
  pub src : Option ℕ
  pub dst : Option ℕ
  pub remote_ready : ℤ → Bool
  pub copy_succeeds : Bool
  pub record_succeeds : Bool
