-- ===== src/Pccl/Executor.antt =====
-- pcie-ccl-cuda/src/executor: the event rings that track copies in flight, the queue of collectives
-- of one rank, and the test that lets a slice of a node run.
pub mod EventRing
pub mod Queue
pub mod NodeTypes
pub mod Node
pub mod Resolve
pub mod HostTask
