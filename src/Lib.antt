-- ===== src/Lib.antt =====
-- HyLink runs collectives over two paths at once: a vendor library on the fast interconnect and PCIe
-- CCL, which moves data through host memory. The program has two parts.
--
-- The multipath orchestrator (multipath-orchestrator/libampccl) hooks the vendor library's calls,
-- decides which to take over, splits each message and adapts the split per operation.
-- - Keys: common/op_key.h (equality and hash of operation keys); Keys/Intercept:
--   common/intercept_policy.h (ShouldInterceptCollective with its checked products).
-- - Cache: cache/param_cache.h, every operation of ParamCache.
-- - Planner: core/planner.h, Planner::CreatePlan. Doubles are the record Double of Floats, whose
--   laws (DoubleLaws, ScaleLaws) are facts of IEEE arithmetic; the tests run the code with numbers of
--   thousandths.
-- - Controller: controller/ and telemetry/stats.h. Controller itself is the inverse proportion
--   algorithm (algo_inverse_proportion.h), SplitRatio is algo_split_ratio_control.h, and Adaptive the
--   controller that keeps one algorithm for each operation (controller.h, algo_factory.h).
-- - Domain: core/. Pending holds the queues of collectives in flight (domain_manager.h), Lifecycle the
--   PCIe communicators that the hooks make and destroy (comm_init.cc, RegisterNcclCommAfterInit of
--   hook/nccl_hook.cc), ValueSync the tickets by which streams wait for each other (value_sync.cc,
--   domain.cc), ShmStore the statistics and the parameters that ranks share (shm_store.cc).
-- - Virtual: core/virtual_collective.h, AllReduce from its plan on, as the calls that it makes;
--   Virtual/Segments: AllGather, ReduceScatter and AllToAll with the merge in core/stream_sync.cc.
--   What the backends' calls write when all ranks make them alike is a parameter with the laws that
--   they document, for PCIe CCL too: its schedules are not proved to compute the collectives. Copies on
--   the device (backend/memory/device_mem.cc) may fail without a trace.
-- The controller reads and writes the cache under the keys, and the planner splits by its alpha;
-- the collectives run the planner's plan, with a ticket of the domain.
--
-- PCIe CCL (pcie-ccl-cuda/src) compiles a schedule for each rank and runs it slice by slice.
-- - Pccl/Ir: ir/ir.hpp, the schedule language and the keys of chunk versions.
-- - Pccl/Topology: topology/topology.hpp and topology.cpp, NUMA nodes and pairs of GPUs.
-- - Pccl/Loader: ir/ir_loader.cpp, from a parsed XML document to a program, and Loader/Files, which
--   schedule file a server takes.
-- - Pccl/Slice: slice size and number, and where slices lie (ir/ir.hpp, executor/graph_executor.cpp).
-- - Pccl/Layout: makeDeviceLayout and maxChunkBytes of ir/compiler.cpp.
-- - Pccl/Compiler and Pccl/Compiler/Trace: pass 1 of Compiler::compileGraph, which gives versions,
--   overwrite guards and reader ids to the instructions of all ranks; Pccl/Compiler/Nodes: the nodes
--   that one rank takes from it.
-- - Pccl/Progress: the counters of memory/shared_state.hpp, by which ranks wait for each other;
--   Progress/Reports the single accesses of advanceReaderDone.
-- - Pccl/Executor: EventRing (executor/event_ring.hpp), Queue (submit, the worker's take and
--   finishCurrentWork), Node (trySubmitNode, the completions, terminalsComplete), Resolve (addresses
--   and lanes), HostTask (executor/h2h_engine.cpp).
-- - Pccl/Completion: memory/completion_flag.cpp, how the user's stream is held until a collective is
--   done, with the calls of the device runtime that each method makes.
-- - Pccl/Shared: memory/shared_state.cpp, the words by which ranks report their streams and the slots
--   of communicators; Shared/Barrier the barrier and Shared/DeviceIpc the records of device buffers
--   under a sequence number, each as single accesses of shared words that interleave; the latter also
--   on memory that does not keep the order of stores.
-- The compiler's keys name the counters of the progress state; the executor reads and raises them;
-- the layout and the slices give the executor its addresses.
--
-- How the code is modelled. A size_t is a natural number with its wrap-around written out where the
-- code can reach it (add64, sub64, mul64); an `int` that can be negative is an integer. A std::map is
-- a function into Option, an unordered_map an association list. Locks: an operation under one mutex
-- is one step; submit, which gives the mutex up in between, is two, and the progress counters step by
-- compare-exchange loop. A null pointer, an exception and a failed call are values. What the device
-- runtime, the environment variables and other processes answer is an argument.
-- Fuel: the doubling loop of the slice size runs at most five times (from 512 KB up to 16 MB), so its
-- fuel of six is enough; the barrier's spinning and the attempts of a reader are steps of a relation
-- or of an explicit state; every other loop runs over a list or a count.
--
-- Not modelled: in-place staging and copy-backs of the compiler (the staged chunks are an argument
-- of pass 1), the executor's run loop and time-outs, the small-message path, the reset of a
-- communicator in the shared state, the order in which a weakly ordered processor makes stores
-- visible (but for the buffer records), the barrier and the attachment of the parameter store, the
-- statistics that the callback of a collective makes, the lazy set-up of PCIe (which has no
-- caller), the hooks but for the registration of communicators, and code that is I/O: sockets,
-- shared memory, device and vendor libraries. Logging, tracing and debug output are left out. The
-- Ascend port repeats this code on another device layer.
pub mod Prelude
pub mod Floats
pub mod Planner
pub mod Keys
pub mod Cache
pub mod Controller
pub mod Domain
pub mod Virtual
pub mod Pccl
