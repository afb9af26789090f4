-- ===== src/Pccl/Ir.antt =====
-- pcie-ccl-cuda/src/ir/ir.hpp: the schedule language and the keys under which progress is kept.
pub mod Keys
use hy_link.Prelude.{ℕ, Bool, true, false, ◌&&◌, not, ◌==◌, List}
use hy_link.Prelude.Int.{ℤ, int_eq}

abbrev pub max_chunks : ℕ
max_chunks = 128

abbrev pub max_ranks : ℕ
max_ranks = 8

abbrev pub max_numa_nodes : ℕ
max_numa_nodes = 8

abbrev pub max_progress_versions : ℕ
max_progress_versions = 16

abbrev pub max_progress_readers : ℕ
max_progress_readers = 32

pub data OpCode : Type 0 where
  nop d2d d2h h2d h2h h2h_reduce d2d_reduce : OpCode

pub data DeviceBufferKind : Type 0 where
  input output scratch internal : DeviceBufferKind

pub data ProgressSpace : Type 0 where
  host input output scratch internal : ProgressSpace

-- static_cast<int>(space)
abbrev pub space_code : ProgressSpace → ℕ
space_code ProgressSpace.host = 0
space_code ProgressSpace.input = 1
space_code ProgressSpace.output = 2
space_code ProgressSpace.scratch = 3
space_code ProgressSpace.internal = 4

abbrev pub kind_code : DeviceBufferKind → ℕ
kind_code DeviceBufferKind.input = 0
kind_code DeviceBufferKind.output = 1
kind_code DeviceBufferKind.scratch = 2
kind_code DeviceBufferKind.internal = 3

abbrev pub kind_eq : DeviceBufferKind → DeviceBufferKind → Bool
kind_eq a b = kind_code a == kind_code b

-- Versions count up from 0, so they are natural numbers.
pub record ProgressKey : Type 0 where
  pub space : ProgressSpace
  pub owner : ℤ
  pub chunk : ℤ
  pub version : ℕ

unfoldable pub key_eq : ProgressKey → ProgressKey → Bool
key_eq a b =
    space_code a.space == space_code b.space
    && int_eq a.owner b.owner
    && int_eq a.chunk b.chunk
    && a.version == b.version

unfoldable pub progress_space_for_device_buffer : DeviceBufferKind → ProgressSpace
progress_space_for_device_buffer DeviceBufferKind.input = ProgressSpace.input
progress_space_for_device_buffer DeviceBufferKind.output = ProgressSpace.output
progress_space_for_device_buffer DeviceBufferKind.scratch = ProgressSpace.scratch
progress_space_for_device_buffer DeviceBufferKind.internal = ProgressSpace.internal

pub record ChunkAddress : Type 0 where
  pub numa_id : ℤ
  pub chunk_idx : ℤ

pub record Instruction : Type 0 where
  pub op : OpCode
  pub rank : ℤ
  pub src_rank : ℤ
  pub src_buf : DeviceBufferKind
  pub dst_buf : DeviceBufferKind
  pub src : ChunkAddress
  pub src2 : ChunkAddress
  pub dst : ChunkAddress

-- `name`, `nranks` and this rank's own instructions are not read by the compiler.
pub record IrProgram : Type 0 where
  pub input_chunk_count : ℕ
  pub output_chunk_count : ℕ
  pub all_instructions : List Instruction
