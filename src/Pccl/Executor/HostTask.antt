-- ===== src/Pccl/Executor/HostTask.antt =====
-- pcie-ccl-cuda/src/executor/h2h_engine.cpp: a slice that the host copies or reduces, split over the
-- worker threads of one NUMA node.
pub mod Cover
mod Tests
use hy_link.Prelude.{
  ℕ, ◌+◌, ◌*◌, ◌/◌, suc, zero, min, max, ◌==◌, Bool, true, false, List, [], ◌∷◌, if◌then◌else◌,
  Option, none, some, ◌-◌,
}
use hy_link.Prelude.Int.{ℤ}
use hy_link.Pccl.Ir.{OpCode}

pub data ScalarDataType : Type 0 where
  int8 uint8 float16 bfloat16 int32 uint32 float32 int64 uint64 float64 : ScalarDataType

pub scalar_element_size : ScalarDataType → ℕ
scalar_element_size ScalarDataType.int8 = 1
scalar_element_size ScalarDataType.uint8 = 1
scalar_element_size ScalarDataType.float16 = 2
scalar_element_size ScalarDataType.bfloat16 = 2
scalar_element_size ScalarDataType.int32 = 4
scalar_element_size ScalarDataType.uint32 = 4
scalar_element_size ScalarDataType.float32 = 4
scalar_element_size ScalarDataType.int64 = 8
scalar_element_size ScalarDataType.uint64 = 8
scalar_element_size ScalarDataType.float64 = 8

-- One thread's part of a task.
pub record HostWorkItem : Type 0 where
  pub is_copy : Bool
  pub scalar_type : ScalarDataType
  pub element_size : ℕ
  pub tid : ℕ
  pub num_threads : ℕ
  pub graph_bytes : ℕ

pub work_unit : HostWorkItem → ℕ
unfolding scalar_element_size
work_unit item =
    if item.is_copy
    then 1
    else max 1
        (if item.element_size == 0 then scalar_element_size item.scalar_type else item.element_size)

-- The wrap-around of size_t is out of reach: these sizes are those of a slice.
pub per_thread_units : HostWorkItem → ℕ
unfolding work_unit
per_thread_units item =
    (item.graph_bytes / work_unit item + item.num_threads - 1) / item.num_threads

-- The bytes from `my_start` up to `my_end` are this thread's.
pub my_start : HostWorkItem → ℕ
unfolding per_thread_units work_unit
my_start item = min (item.tid * per_thread_units item * work_unit item) item.graph_bytes

pub my_end : HostWorkItem → ℕ
unfolding my_start per_thread_units work_unit
my_end item = min (my_start item + per_thread_units item * work_unit item) item.graph_bytes

-- The items of the threads `tid`, `tid` + 1, ..., `n` of them.
pub thread_items : HostWorkItem → ℕ → ℕ → List HostWorkItem
thread_items item tid zero = []
thread_items item tid (suc n) = record item { tid = tid } ∷ thread_items item (suc tid) n

-- One item per thread is queued when every pointer that the operation needs resolves; their number
-- is returned, 0 if one does not. `max_threads` is the smaller of the two limits on threads.
pub queue_items : ℕ → HostWorkItem → Bool → Option ℕ → Option ℕ → Option ℕ → ℕ × List HostWorkItem
unfolding thread_items
queue_items max_threads item is_copy (some dst) (some src1) (some src2) =
    let num_threads = max 1 max_threads in
    (
      num_threads,
      thread_items (record item { is_copy = is_copy; num_threads = num_threads }) 0 num_threads,
    )
queue_items max_threads item is_copy dst src1 src2 = (0, [])

-- The second source of a reduction.
pub second_source : List (Option ℕ) → Option ℕ
second_source [] = none
second_source (src2 ∷ srcs) = src2

-- The source of a copy stands in for the second source, which a copy does not read.
pub submit_graph_work :
    ℕ → OpCode → Option ℕ → List (Option ℕ) → HostWorkItem → ℕ × List HostWorkItem
unfolding queue_items second_source
submit_graph_work max_threads op dst [] item = (0, [])
submit_graph_work max_threads op dst (src1 ∷ srcs) item = elim op [
  | OpCode.h2h ↦ queue_items max_threads item true dst src1 src1
  | OpCode.h2h_reduce ↦ queue_items max_threads item false dst src1 (second_source srcs)
  | _ ↦ (0, [])
]
