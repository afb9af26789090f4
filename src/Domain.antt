-- ===== src/Domain.antt =====
-- multipath-orchestrator/libampccl/core: what is kept for a communicator and for the collectives in
-- flight. Pending holds the queues of core/domain_manager.h, Lifecycle the start and the end of the
-- PCIe communicators (core/comm_init.cc), ValueSync the tickets by which streams wait
-- for each other (core/value_sync.cc), ShmStore what ranks share in memory (core/shm_store.cc).
pub mod Pending
pub mod Lifecycle
pub mod ValueSync
pub mod ShmStore
mod Tests
