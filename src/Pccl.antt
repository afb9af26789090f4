-- ===== src/Pccl.antt =====
-- pcie-ccl-cuda/src: PCIe CCL. The schedule language and its types, the slicing and layout of
-- chunks, the compiler from schedules to graphs, the shared progress state and the executor.
pub mod Compiler
pub mod Executor
pub mod Ir
pub mod Layout
pub mod Progress
pub mod Completion
pub mod Shared
pub mod Slice
pub mod Topology
pub mod Loader
