-- ===== src/Pccl/Executor/HostTask/Tests.antt =====
-- A task of ten floats on four threads, and witnesses.
use hy_link.Prelude.{◌≡◌, refl, false}
use hy_link.Pccl.Executor.HostTask.{
  HostWorkItem, ScalarDataType, my_start, per_thread_units, work_unit, scalar_element_size,
}
use hy_link.Pccl.Executor.HostTask.Cover.{at}

abbrev ten_floats : HostWorkItem
ten_floats = record {
  is_copy = false;
  scalar_type = ScalarDataType.float32;
  element_size = 0;
  tid = 0;
  num_threads = 4;
  graph_bytes = 40;
}

third_start : my_start (at ten_floats 2) ≡ 24
unfolding my_start per_thread_units work_unit scalar_element_size
third_start = refl
