-- ===== src/Pccl/Completion/State.antt =====
-- pcie-ccl-cuda/src/memory/completion_flag.hpp: the state of the flag, and the calls of the device
-- runtime.
use hy_link.Prelude.{ℕ, Bool, List}

pub data Stream : Type 0 where
  reset_stream signal_stream : Stream
  user_stream : ℕ → Stream

-- The events of a slot.
pub data Event : Type 0 where
  reset_event wait_done_event : ℕ → Event

-- The calls of the device runtime, with the slot whose words they name.
pub data Call : Type 0 where
  malloc_host_zero malloc_host_one : Call
  free_host_zero free_host_one : Call
  create_stream destroy_stream synchronize_stream : Stream → Call
  malloc_flag malloc_complete_seq malloc_ready_seq : ℕ → Call
  create_event : Event → Call
  record_event : Event → Stream → Call
  wait_event : Stream → Event → Call
  write_ready_seq wait_complete_seq : Stream → ℕ → ℕ → Call
  copy_zero copy_one : Stream → ℕ → Call
  launch_kernel : Stream → ℕ → ℕ → Call

-- The host's part of a slot: the two mapped words and what was prepared.
pub record Slot : Type 0 where
  pub ready_seq : ℕ
  pub complete_seq : ℕ
  pub prepared_seq : ℕ
  pub wait_done_recorded : Bool

pub record CompletionFlag : Type 0 where
  pub initialized : Bool
  pub multi_process : Bool
  pub use_stream_mem_ops : Bool
  pub flush_remote_writes : Bool
  pub compat_seq : ℕ
  pub queue_depth : ℕ
  pub slots : ℕ → Slot
  pub issued : List Call
