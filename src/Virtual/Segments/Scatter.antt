-- ===== src/Virtual/Segments/Scatter.antt =====
-- multipath-orchestrator/libampccl/core/virtual_collective.h: VirtualCollective::ReduceScatter.
use hy_link.Planner.{Plan}
use hy_link.Virtual.{
  BackendResult, is_ok, fast, pcie, begin_submission, attach_timers, enqueue_callback, Environment,
  pcie_wait_for_user_input_if_needed, merged_result, supported_plan,
}
use hy_link.Virtual.Segments.{
  SegmentCall, on_stream, fast_segments, fast_dense, pcie_segments, free, register_dense, Workspace,
  on_streams, joined, timed, refused, segments_fast_only, segments_fallback, segments_waits,
  segments_registered, segments_pcie_only, owns_dense, has_dense, dense_calls, pack_calls,
}
use hy_link.Prelude.{
  List, ℕ, ◌*◌, ◌/◌, Bool, ◌&&◌, ◌||◌, not, [], ◌∷◌, ◌++◌, ltb, ◌==◌, if◌then◌else◌, mul64,
}

-- Both backends, the fast one with counts and displacements.
unfoldable pub scatter_segments :
    Environment → Workspace → ℕ → Plan → BackendResult × List SegmentCall
unfolding pcie_wait_for_user_input_if_needed merged_result segments_waits segments_registered
scatter_segments env ws count plan =
    let wait = pcie_wait_for_user_input_if_needed env in
    let fast_elems = plan.fast_bytes / env.elem_size in
    let total_elems = mul64 count ws.nranks in
    if not wait.0 then (refused, on_streams (begin_submission ∷ wait.1)) else (
      merged_result env.fast_result env.pcie_result,
      joined (
          on_streams (begin_submission ∷ wait.1)
          ∷ timed fast (fast_segments fast_elems count)
          ∷ timed pcie (pcie_segments total_elems fast_elems)
          ∷ segments_waits env plan
          ∷ segments_registered env plan
          ∷ []),
    )

-- The dense buffer goes with the pending collective, which gives it back.
unfoldable pub dense_registered : Environment → Plan → Bool → List SegmentCall
unfolding is_ok
dense_registered env plan owned =
    register_dense plan (is_ok env.fast_result) (is_ok env.pcie_result) owned
    ∷ on_stream attach_timers
    ∷ on_stream enqueue_callback
    ∷ []

-- Both backends, the fast one from a dense buffer that is packed before.
unfoldable pub scatter_dense : Environment → Workspace → ℕ → Plan → BackendResult × List SegmentCall
unfolding pcie_wait_for_user_input_if_needed merged_result segments_waits segments_fallback
    owns_dense has_dense dense_calls pack_calls dense_registered
scatter_dense env ws count plan =
    let wait = pcie_wait_for_user_input_if_needed env in
    let fast_elems = plan.fast_bytes / env.elem_size in
    let pack_bytes = mul64 ws.nranks plan.fast_bytes in
    let total_elems = mul64 count ws.nranks in
    let owned = owns_dense ws pack_bytes in
    let alone = segments_fallback env count plan in
    if not (has_dense ws pack_bytes)
    then (alone.0, dense_calls ws pack_bytes ++ alone.1)
    else if not wait.0
    then (
      refused,
      joined (
          dense_calls ws pack_bytes
          ∷ on_streams (begin_submission ∷ wait.1)
          ∷ (if owned then free ∷ [] else [])
          ∷ []),
    )
    else (
      merged_result env.fast_result env.pcie_result,
      joined (
          dense_calls ws pack_bytes
          ∷ on_streams (begin_submission ∷ wait.1)
          ∷ pack_calls ws.nranks plan.fast_bytes (count * env.elem_size)
          ∷ timed fast (fast_dense fast_elems)
          ∷ timed pcie (pcie_segments total_elems fast_elems)
          ∷ segments_waits env plan
          ∷ dense_registered env plan owned
          ∷ []),
    )

-- The branches after a plan; the last is never reached.
unfoldable pub scatter_launch :
    Environment → Workspace → ℕ → Plan → BackendResult × List SegmentCall
unfolding segments_fast_only scatter_segments scatter_dense segments_pcie_only segments_fallback
scatter_launch env ws count plan =
    if not plan.use_pcie || plan.pcie_bytes == 0 || not env.has_pcie_stream
    then segments_fast_only env count plan
    else if plan.use_pcie && ltb 0 plan.pcie_bytes && env.has_pcie_stream && ltb 0 plan.fast_bytes
    then (if ws.has_segments
        then scatter_segments env ws count plan
        else scatter_dense env ws count plan)
    else if plan.use_pcie && ltb 0 plan.pcie_bytes && env.has_pcie_stream && plan.fast_bytes == 0
    then segments_pcie_only env count plan
    else segments_fallback env count plan

-- ReduceScatter to `count` elements on each rank, given the plan for them.
unfoldable pub reduce_scatter :
    Environment → Workspace → ℕ → Plan → BackendResult × List SegmentCall
unfolding supported_plan scatter_launch
reduce_scatter env ws count plan =
    if env.elem_size == 0
    then (refused, [])
    else scatter_launch env ws count (supported_plan env count plan)
