-- ===== src/Pccl/Compiler.antt =====
-- pcie-ccl-cuda/src/ir/compiler.cpp, pass 1 of Compiler::compileGraph: which version of a chunk each
-- instruction reads, writes and overwrites, and who reads it. A std::map is a function into Option.
-- `staged` says which output chunks the compiling rank takes to be staged, by its own options.
pub mod Trace
pub mod Nodes
use hy_link.Prelude.{
  ℕ, ◌+◌, ◌-◌, zero, suc, max, ltb, leb, ◌==◌, Bool, true, false, ◌&&◌, ◌||◌, not, Option, none,
  some, List, [], ◌∷◌, if◌then◌else◌,
}
use hy_link.Prelude.Int.{ℤ, pos, int_eq, is_nonneg}
use hy_link.Pccl.Ir.{
  OpCode, DeviceBufferKind, ProgressSpace, ProgressKey, ChunkAddress, Instruction, IrProgram,
  key_eq, progress_space_for_device_buffer, max_progress_readers, kind_eq,
}
use hy_link.Pccl.Ir.Keys.{same_base_key, base_of}

abbrev pub KeyMap : Type 0 → Type 0
KeyMap A = ProgressKey → Option A

pub assign : {A : Type 0} → KeyMap A → ProgressKey → A → KeyMap A
assign m key value = λ k. if key_eq key k then some value else m k

pub emplace : {A : Type 0} → KeyMap A → ProgressKey → A → KeyMap A
unfolding assign
emplace m key value = elim (m key) [ none ↦ assign m key value | some v ↦ m ]

pub host_key : ℤ → ℤ → ℕ → ProgressKey
host_key numa chunk version = record {
  space = ProgressSpace.host;
  owner = numa;
  chunk = chunk;
  version = version;
}

pub device_key : DeviceBufferKind → ℤ → ℤ → ℕ → ProgressKey
device_key kind owner chunk version = record {
  space = progress_space_for_device_buffer kind;
  owner = owner;
  chunk = chunk;
  version = version;
}

-- The rank that an instruction reads from.
unfoldable pub source_rank : Instruction → ℤ
source_rank inst = if is_nonneg inst.src_rank then inst.src_rank else inst.rank

-- What a rank takes to be staged: nothing, unless its own call is in place (is_in_place of its
-- options); `stage_output` is the lookup in stage_output_chunk_by_rank with its range tests.
abbrev pub staged_on : Bool → (ℤ → ℤ → Bool) → ℤ → ℤ → Bool
staged_on is_in_place stage_output owner chunk = is_in_place && stage_output owner chunk

module _ (staged : ℤ → ℤ → Bool) where
  visible_dst_buf : Instruction → DeviceBufferKind
  visible_dst_buf inst =
      if kind_eq inst.dst_buf DeviceBufferKind.output && staged inst.rank inst.dst.chunk_idx
      then DeviceBufferKind.internal
      else inst.dst_buf

  visible_src_buf : DeviceBufferKind → ℤ → ℤ → DeviceBufferKind
  visible_src_buf buf owner chunk =
      if kind_eq buf DeviceBufferKind.output && staged owner chunk
      then DeviceBufferKind.internal
      else buf

  -- The chunk that an instruction writes, at version 0; none for a NOP.
  pub produced_base : Instruction → Option ProgressKey
  unfolding host_key device_key visible_dst_buf
  produced_base inst = elim inst.op [
    | OpCode.nop ↦ none
    | OpCode.d2h ↦ some (host_key inst.dst.numa_id inst.dst.chunk_idx 0)
    | OpCode.h2h ↦ some (host_key inst.dst.numa_id inst.dst.chunk_idx 0)
    | OpCode.h2h_reduce ↦ some (host_key inst.dst.numa_id inst.dst.chunk_idx 0)
    | _ ↦ some (device_key (visible_dst_buf inst) inst.rank inst.dst.chunk_idx 0)
  ]

  -- The chunks that an instruction reads, at version 0, in the order of the code.
  pub read_bases : Instruction → List ProgressKey
  unfolding host_key device_key visible_src_buf visible_dst_buf source_rank
  read_bases inst = elim inst.op [
    | OpCode.nop ↦ []
    | OpCode.d2h ↦
        device_key (visible_src_buf inst.src_buf inst.rank inst.src.chunk_idx) inst.rank
          inst.src.chunk_idx 0
        ∷ []
    | OpCode.h2d ↦ host_key inst.src.numa_id inst.src.chunk_idx 0 ∷ []
    | OpCode.h2h ↦ host_key inst.src.numa_id inst.src.chunk_idx 0 ∷ []
    | OpCode.h2h_reduce ↦
        host_key inst.src.numa_id inst.src.chunk_idx 0
        ∷ host_key inst.src2.numa_id inst.src2.chunk_idx 0
        ∷ []
    | OpCode.d2d ↦
        device_key (visible_src_buf inst.src_buf (source_rank inst) inst.src.chunk_idx)
          (source_rank inst) inst.src.chunk_idx 0
        ∷ []
    | OpCode.d2d_reduce ↦
        device_key (visible_src_buf inst.src_buf (source_rank inst) inst.src.chunk_idx)
          (source_rank inst) inst.src.chunk_idx 0
        ∷ device_key (visible_dst_buf inst) inst.rank inst.dst.chunk_idx 0
        ∷ []
  ]

pub with_version : ProgressKey → ℕ → ProgressKey
with_version key v = record { space = key.space; owner = key.owner; chunk = key.chunk; version = v }

-- The version that the last instruction to write each chunk will give it.
pub final_produced :
    (staged : ℤ → ℤ → Bool) → KeyMap ProgressKey → List Instruction → KeyMap ProgressKey
unfolding with_version assign produced_base
final_produced staged finals [] = finals
final_produced staged finals (inst ∷ rest) = elim (produced_base staged inst) [
  | none ↦ final_produced staged finals rest
  | some base ↦
      let count : ℕ = elim (finals base) [ none ↦ 0 | some key ↦ key.version ] in
      final_produced staged (assign finals base (with_version base (suc count))) rest
]

-- A read: the latest version so far; failing that, the final one; failing that, version 0, which
-- is then entered.
pub latest :
    KeyMap ProgressKey → KeyMap ProgressKey → ProgressKey → ProgressKey × KeyMap ProgressKey
unfolding emplace
latest finals latest_by_base base = elim (latest_by_base (base_of base)) [
  | some key ↦ (key, latest_by_base)
  | none ↦ elim (finals (base_of base)) [
    | some key ↦ (key, latest_by_base)
    | none ↦ (base_of base, emplace latest_by_base (base_of base) (base_of base))
  ]
]

pub latest_existing : KeyMap ProgressKey → ProgressKey → ProgressKey
latest_existing latest_by_base base = elim (latest_by_base (base_of base)) [
  | some key ↦ key
  | none ↦ base_of base
]

-- A write: one version more than the latest.
pub produce : KeyMap ProgressKey → ProgressKey → ProgressKey × KeyMap ProgressKey
unfolding assign with_version
produce latest_by_base key =
    let written : ProgressKey = elim (latest_by_base (base_of key)) [
      | none ↦ with_version key 1
      | some old ↦ with_version key (suc old.version)
    ] in
    (written, assign latest_by_base (base_of key) written)
