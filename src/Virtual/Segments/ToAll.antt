-- ===== src/Virtual/Segments/ToAll.antt =====
-- multipath-orchestrator/libampccl/core/virtual_collective.h: VirtualCollective::AllToAll, and
-- core/stream_sync.cc: the callback that merges the dense buffer it leaves. AllToAll makes no call that
-- orders the PCIe stream behind the user's.
use hy_link.Planner.{Plan}
use hy_link.Virtual.{
  BackendResult, success_result, is_ok, fast, pcie, begin_submission, Environment, register_calls,
  merged_result, supported_plan,
}
use hy_link.Virtual.Segments.{
  SegmentCall, fast_segments, fast_dense, pcie_whole, pcie_segments, free, register_dense,
  Workspace, on_streams, joined, timed, refused, segments_fast_only, segments_fallback,
  segments_waits, segments_registered, owns_dense, has_dense, dense_calls, pack_calls, merge_calls,
}
use hy_link.Virtual.Segments.Scatter.{dense_registered}
use hy_link.Prelude.{
  List, ℕ, ◌+◌, ◌*◌, ◌/◌, Bool, true, ◌&&◌, ◌||◌, not, [], ◌∷◌, ◌++◌, ltb, ◌==◌, if◌then◌else◌,
  mul64,
}

-- Both backends, the fast one with counts and displacements.
unfoldable pub to_all_segments :
    Environment → Workspace → ℕ → Plan → BackendResult × List SegmentCall
unfolding merged_result segments_waits segments_registered
to_all_segments env ws count plan =
    let fast_elems = plan.fast_bytes / env.elem_size in
    let total_elems = mul64 count ws.nranks in
    (
      merged_result env.fast_result env.pcie_result,
      joined (
          timed fast (fast_segments fast_elems count)
          ∷ on_streams (begin_submission ∷ [])
          ∷ timed pcie (pcie_segments total_elems fast_elems)
          ∷ segments_waits env plan
          ∷ segments_registered env plan
          ∷ []),
    )

-- Both backends, the fast one within a dense buffer that is packed before and merged by the callback.
unfoldable pub to_all_dense : Environment → Workspace → ℕ → Plan → BackendResult × List SegmentCall
unfolding merged_result segments_waits segments_fallback owns_dense has_dense dense_calls pack_calls
    dense_registered
to_all_dense env ws count plan =
    let fast_elems = plan.fast_bytes / env.elem_size in
    let pack_bytes = mul64 ws.nranks plan.fast_bytes in
    let total_elems = mul64 count ws.nranks in
    let owned = owns_dense ws pack_bytes in
    let alone = segments_fallback env count plan in
    if not (has_dense ws pack_bytes) then (alone.0, dense_calls ws pack_bytes ++ alone.1) else (
      merged_result env.fast_result env.pcie_result,
      joined (
          dense_calls ws pack_bytes
          ∷ pack_calls ws.nranks plan.fast_bytes (count * env.elem_size)
          ∷ timed fast (fast_dense fast_elems)
          ∷ on_streams (begin_submission ∷ [])
          ∷ timed pcie (pcie_segments total_elems fast_elems)
          ∷ segments_waits env plan
          ∷ dense_registered env plan owned
          ∷ []),
    )

-- The whole message over PCIe.
unfoldable pub to_all_pcie_only :
    Environment → Workspace → ℕ → Plan → BackendResult × List SegmentCall
unfolding merged_result segments_waits is_ok
to_all_pcie_only env ws count plan = (
  merged_result success_result env.pcie_result,
  joined (
      on_streams (begin_submission ∷ [])
      ∷ timed pcie (pcie_whole (mul64 count ws.nranks))
      ∷ segments_waits env plan
      ∷ on_streams (register_calls plan true (is_ok env.pcie_result))
      ∷ []),
)

-- The branches after a plan; the last is never reached.
unfoldable pub to_all_launch : Environment → Workspace → ℕ → Plan → BackendResult × List SegmentCall
unfolding segments_fast_only to_all_segments to_all_dense to_all_pcie_only segments_fallback
to_all_launch env ws count plan =
    if not plan.use_pcie || plan.pcie_bytes == 0 || not env.has_pcie_stream
    then segments_fast_only env count plan
    else if plan.use_pcie && ltb 0 plan.pcie_bytes && env.has_pcie_stream && plan.fast_bytes == 0
    then to_all_pcie_only env ws count plan
    else if plan.use_pcie && ltb 0 plan.pcie_bytes && env.has_pcie_stream && ltb 0 plan.fast_bytes
    then (if ws.has_segments
        then to_all_segments env ws count plan
        else to_all_dense env ws count plan)
    else segments_fallback env count plan

-- AllToAll of `count` elements for each rank, given the plan for them.
unfoldable pub all_to_all : Environment → Workspace → ℕ → Plan → BackendResult × List SegmentCall
unfolding supported_plan to_all_launch
all_to_all env ws count plan =
    if env.elem_size == 0 || ws.nranks == 0
    then (refused, [])
    else to_all_launch env ws count (supported_plan env count plan)

-- What OnStreamSynchronized does with the dense buffer of an AllToAll.
unfoldable pub synchronized_merge :
    (has_controller : Bool) → (nranks fast_bytes pcie_bytes : ℕ) → (owned : Bool) → List SegmentCall
unfolding merge_calls
synchronized_merge has_controller nranks fast_bytes pcie_bytes owned =
    if not has_controller
    then []
    else (if ltb 0 fast_bytes then merge_calls nranks fast_bytes (fast_bytes + pcie_bytes) else [])
      ++ (if owned then free ∷ [] else [])

-- The callbacks of the collectives that a list of calls has registered with a dense buffer.
unfoldable pub callbacks : Bool → ℕ → List SegmentCall → List SegmentCall
unfolding synchronized_merge
callbacks has_controller nranks [] = []
callbacks has_controller nranks (register_dense plan fast_ok pcie_ok owned ∷ calls) =
    synchronized_merge has_controller nranks plan.fast_bytes plan.pcie_bytes owned
    ++ callbacks has_controller nranks calls
callbacks has_controller nranks (_ ∷ calls) = callbacks has_controller nranks calls

-- The calls of AllToAll and then the callback on the user's stream.
unfoldable pub all_to_all_completed :
    Bool → Environment → Workspace → ℕ → Plan → BackendResult × List SegmentCall
unfolding all_to_all callbacks
all_to_all_completed has_controller env ws count plan =
    let launched = all_to_all env ws count plan in
    (launched.0, launched.1 ++ callbacks has_controller ws.nranks launched.1)
