-- ===== src/Pccl/Loader.antt =====
-- pcie-ccl-cuda/src/ir/ir_loader.cpp: schedules are read from XML. The parser of the XML is another
-- library; here stands the tree that it gives, with the attributes of an element as functions of
-- their names: `int_attribute` is none where the library gives the default that it is called with.
-- A thrown error is a value. The members of an instruction that the loader leaves as they are
-- constructed have their default values.
pub mod Parse
mod Words
mod Small
pub mod Counts
pub mod Files
mod Tests
use hy_link.Prelude.Int.{ℤ, pos, negsuc, int_eq, int_lt, is_nonneg, to_nat, int_suc}
use hy_link.Pccl.Ir.{OpCode, DeviceBufferKind, kind_eq, ChunkAddress, Instruction, IrProgram}
use Prim.Native.String.{String}
use text.Mathlib.Text.{◌==◌}
use hy_link.Prelude.{
  List, Bool, false, Option, none, some, [], ◌∷◌, ◌++◌, if◌then◌else◌, ℕ, ◌^◌, leb,
}

pub record Element : Type 0 where
  pub attribute : String → Option String
  pub int_attribute : String → Option ℤ

-- A <rank> with its <instruction>s.
pub record RankElement : Type 0 where
  pub element : Element
  pub instruction_elements : List Element

-- The <ir_program> with its <rank>s.
pub record RootElement : Type 0 where
  pub element : Element
  pub rank_elements : List RankElement

pub data LoadError : Type 0 where
  missing_op missing_root : LoadError
  unknown_op unknown_buffer_kind : String → LoadError
  no_rank : ℤ → LoadError

pub data Loaded (A : Type 0) : Type 0 where
  ok : A → Loaded A
  failed : LoadError → Loaded A

infixl 5 ◌>>=◌
abbrev pub ◌>>=◌ : {A B : Type 0} → Loaded A → (A → Loaded B) → Loaded B
ok a >>= f = f a
failed e >>= f = failed e

pub parse_op_code : Option String → Loaded OpCode
parse_op_code none = failed missing_op
parse_op_code (some s) =
    if s == "NOP"
    then ok OpCode.nop
    else if s == "D2D"
    then ok OpCode.d2d
    else if s == "D2H"
    then ok OpCode.d2h
    else if s == "H2D"
    then ok OpCode.h2d
    else if s == "H2H"
    then ok OpCode.h2h
    else if s == "H2HReduce"
    then ok OpCode.h2h_reduce
    else if s == "D2DReduce"
    then ok OpCode.d2d_reduce
    else failed (unknown_op s)

pub parse_device_buffer_kind : Option String → DeviceBufferKind → Loaded DeviceBufferKind
parse_device_buffer_kind none default_kind = ok default_kind
parse_device_buffer_kind (some s) default_kind =
    if s == "input"
    then ok DeviceBufferKind.input
    else if s == "output"
    then ok DeviceBufferKind.output
    else if s == "scratch"
    then ok DeviceBufferKind.scratch
    else if s == "internal"
    then ok DeviceBufferKind.internal
    else failed (unknown_buffer_kind s)

-- IntAttribute(name, default_value)
abbrev pub int_attribute_or : Element → String → ℤ → ℤ
int_attribute_or elem name default_value = elim (elem.int_attribute name) [
  | none ↦ default_value
  | some n ↦ n
]

-- The address that two attributes give; a node below 0 stands for the rank's own.
pub address_from : Element → String → String → ℤ → ChunkAddress
address_from elem chunk numa default_numa =
    let numa_id = int_attribute_or elem numa (negsuc 0) in
    record {
      numa_id = if is_nonneg numa_id then numa_id else default_numa;
      chunk_idx = int_attribute_or elem chunk (pos 0);
    }

pub parse_instruction_common : Element → ℤ → ℤ → Loaded Instruction
unfolding parse_op_code parse_device_buffer_kind address_from
parse_instruction_common elem rank default_numa = do
  op ← parse_op_code (elem.attribute "op")
  src_buf ← parse_device_buffer_kind (elem.attribute "src_buf") DeviceBufferKind.input
  dst_buf ← parse_device_buffer_kind (elem.attribute "dst_buf") DeviceBufferKind.output
  ok record {
    op = op;
    rank = rank;
    src_rank = int_attribute_or elem "src_rank" rank;
    src_buf = src_buf;
    dst_buf = dst_buf;
    src = elim op [
      | OpCode.h2h_reduce ↦ address_from elem "src1_chunk" "src1_numa" default_numa
      | _ ↦ address_from elem "src_chunk" "src_numa" default_numa
    ];
    src2 = elim op [
      | OpCode.h2h_reduce ↦ address_from elem "src2_chunk" "src2_numa" default_numa
      | _ ↦ record { numa_id = negsuc 0; chunk_idx = negsuc 0 }
    ];
    dst = address_from elem "dst_chunk" "dst_numa" default_numa;
  }

-- The source is a chunk of the rank's input.
pub reads_input : Instruction → Bool
reads_input inst = elim inst.op [
  | OpCode.d2h ↦ kind_eq inst.src_buf DeviceBufferKind.input
  | OpCode.d2d ↦ kind_eq inst.src_buf DeviceBufferKind.input
  | OpCode.d2d_reduce ↦ kind_eq inst.src_buf DeviceBufferKind.input
  | _ ↦ false
]

-- The target is a chunk of the rank's output.
pub writes_output : Instruction → Bool
writes_output inst = elim inst.op [
  | OpCode.h2d ↦ kind_eq inst.dst_buf DeviceBufferKind.output
  | OpCode.d2d ↦ kind_eq inst.dst_buf DeviceBufferKind.output
  | OpCode.d2d_reduce ↦ kind_eq inst.dst_buf DeviceBufferKind.output
  | _ ↦ false
]

-- std::max
abbrev pub int_max : ℤ → ℤ → ℤ
int_max a b = if int_lt a b then b else a

-- The largest chunks so far, and the instructions read so far.
pub record Tally : Type 0 where
  pub max_src_chunk : ℤ
  pub max_dst_chunk : ℤ
  pub read : List Instruction

pub count_instruction : Tally → Instruction → Tally
unfolding reads_input writes_output
count_instruction t inst = record {
  max_src_chunk =
      if reads_input inst then int_max t.max_src_chunk inst.src.chunk_idx else t.max_src_chunk;
  max_dst_chunk =
      if writes_output inst then int_max t.max_dst_chunk inst.dst.chunk_idx else t.max_dst_chunk;
  read = t.read ++ inst ∷ [];
}

-- The loop over the instructions of a rank.
pub read_instructions : List Element → ℤ → ℤ → Tally → Loaded Tally
unfolding parse_instruction_common count_instruction
read_instructions [] rank default_numa t = ok t
read_instructions (elem ∷ elems) rank default_numa t =
    parse_instruction_common elem rank default_numa >>= λ inst.
    read_instructions elems rank default_numa (count_instruction t inst)

abbrev rank_id : RankElement → ℤ
rank_id r = int_attribute_or r.element "id" (negsuc 0)

-- The loop over all ranks; `numa_of` gives the node of a rank, getNUMAForGPU or 0.
pub read_ranks : List RankElement → (ℤ → ℤ) → Tally → Loaded Tally
unfolding read_instructions
read_ranks [] numa_of t = ok t
read_ranks (r ∷ ranks) numa_of t =
    read_instructions r.instruction_elements (rank_id r) (numa_of (rank_id r)) t >>= λ after.
    read_ranks ranks numa_of after

-- The first <rank> with the id.
pub find_rank : List RankElement → ℤ → Loaded RankElement
find_rank [] rank = failed (no_rank rank)
find_rank (r ∷ ranks) rank =
    let rest = find_rank ranks rank in if int_eq (rank_id r) rank then ok r else rest

-- The largest index plus one, as an int: past 2^31 - 1, which C++ leaves undefined, the sum is taken
-- to wrap to a negative count, and a negative count is 0 here.
pub chunk_count : ℤ → ℕ
chunk_count m = let n = to_nat (int_suc m) in if leb (2 ^ 31) n then 0 else n

-- IRProgram with the fields that only the loader's callers read.
pub record LoadedProgram : Type 0 where
  pub name : String
  pub nranks : ℤ
  pub instructions : List Instruction
  pub program : IrProgram

pub parse_document : Option RootElement → ℤ → (ℤ → ℤ) → Loaded LoadedProgram
unfolding find_rank read_instructions read_ranks chunk_count
parse_document none rank numa_of = failed missing_root
parse_document (some root) rank numa_of = do
  r ← find_rank root.rank_elements rank
  own ←
      read_instructions r.instruction_elements rank (numa_of rank)
        (record { max_src_chunk = negsuc 0; max_dst_chunk = negsuc 0; read = [] })
  all ← read_ranks root.rank_elements numa_of (record own { read = [] })
  ok record {
    name = elim (root.element.attribute "name") [ none ↦ "" | some s ↦ s ];
    nranks = int_attribute_or root.element "nranks" (pos 0);
    instructions = own.read;
    program = record {
      input_chunk_count = chunk_count all.max_src_chunk;
      output_chunk_count = chunk_count all.max_dst_chunk;
      all_instructions = all.read;
    };
  }
