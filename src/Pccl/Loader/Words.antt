-- ===== src/Pccl/Loader/Words.antt =====
-- pcie-ccl-cuda/src/ir/ir_loader.cpp: the words for the codes and the buffers. opName is that of
-- executor/graph_executor.cpp.
use text.Mathlib.TextEquality.{eq_iff}
use Prim.Native.String.{String}
use hy_link.Pccl.Loader.{ok, parse_op_code, parse_device_buffer_kind}
use hy_link.Pccl.Ir.{OpCode, DeviceBufferKind}
use hy_link.Prelude.{◌≡◌, ◌↔◌, some, arith}

pub op_name : OpCode → String
op_name OpCode.nop = "NOP"
op_name OpCode.d2d = "D2D"
op_name OpCode.d2h = "D2H"
op_name OpCode.h2d = "H2D"
op_name OpCode.h2h = "H2H"
op_name OpCode.h2h_reduce = "H2HReduce"
op_name OpCode.d2d_reduce = "D2DReduce"

-- The words for the buffers.
abbrev pub kind_name : DeviceBufferKind → String
kind_name DeviceBufferKind.input = "input"
kind_name DeviceBufferKind.output = "output"
kind_name DeviceBufferKind.scratch = "scratch"
kind_name DeviceBufferKind.internal = "internal"

-- A text parses as an instruction's code exactly if it is the name under which the executor prints
-- that code.
pub parse_op_code-op_name :
    (s : String) (op : OpCode) → (parse_op_code (some s) ≡ ok op) ↔ (s ≡ op_name op)
unfolding parse_op_code op_name
parse_op_code-op_name s op = (read s op, print op)
  where
    read : (s : String) (op : OpCode) → parse_op_code (some s) ≡ ok op → s ≡ op_name op
    read s op h = ground (
      arith,
      eq_iff s "NOP",
      eq_iff s "D2D",
      eq_iff s "D2H",
      eq_iff s "H2D",
      eq_iff s "H2H",
      eq_iff s "H2HReduce",
      eq_iff s "D2DReduce",
    )

    print : (op : OpCode) → s ≡ op_name op → parse_op_code (some s) ≡ ok op
    print OpCode.nop e = rw e
    print OpCode.d2d e = rw e
    print OpCode.d2h e = rw e
    print OpCode.h2d e = rw e
    print OpCode.h2h e = rw e
    print OpCode.h2h_reduce e = rw e
    print OpCode.d2d_reduce e = rw e

pub kind_read :
    (s : String) (d k : DeviceBufferKind)
    → parse_device_buffer_kind (some s) d ≡ ok k
    → s ≡ kind_name k
unfolding parse_device_buffer_kind
kind_read s d k h =
    ground (arith, eq_iff s "input", eq_iff s "output", eq_iff s "scratch", eq_iff s "internal")

pub kind_print :
    (s : String) (d k : DeviceBufferKind)
    → s ≡ kind_name k
    → parse_device_buffer_kind (some s) d ≡ ok k
unfolding parse_device_buffer_kind
kind_print s d DeviceBufferKind.input e = rw e
kind_print s d DeviceBufferKind.output e = rw e
kind_print s d DeviceBufferKind.scratch e = rw e
kind_print s d DeviceBufferKind.internal e = rw e
