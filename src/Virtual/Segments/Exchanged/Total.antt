-- ===== src/Virtual/Segments/Exchanged/Total.antt =====
-- multipath-orchestrator/libampccl/core/virtual_collective.h: AllToAll with the plan of the planner, and
-- its callback (core/stream_sync.cc).
