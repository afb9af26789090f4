-- ===== src/Virtual/Segments/Gather.antt =====
-- multipath-orchestrator/libampccl/core/virtual_collective.h: VirtualCollective::AllGather.
use hy_link.Planner.{Plan}
use hy_link.Virtual.{
  BackendResult, fast, pcie, begin_submission, Environment, pcie_wait_for_user_input_if_needed,
  merged_result, supported_plan,
}
use hy_link.Virtual.Segments.{
  SegmentCall, fast_segments, fast_dense, pcie_segments, free, Workspace, on_streams, timed,
  refused, segments_fast_only, segments_fallback, segments_waits, segments_registered,
  segments_pcie_only, owns_dense, has_dense, dense_calls, enqueue_segmented_merge_on_stream, joined,
}
use hy_link.Prelude.{List, ℕ, ◌/◌, ◌&&◌, ◌||◌, not, [], ◌∷◌, ◌++◌, ltb, ◌==◌, if◌then◌else◌, mul64}

-- Both backends, the fast one with counts and displacements.
unfoldable pub gather_segments : Environment → ℕ → Plan → BackendResult × List SegmentCall
unfolding pcie_wait_for_user_input_if_needed merged_result segments_waits segments_registered
gather_segments env count plan =
    let wait = pcie_wait_for_user_input_if_needed env in
    let fast_elems = plan.fast_bytes / env.elem_size in
    if not wait.0 then (refused, on_streams (begin_submission ∷ wait.1)) else (
      merged_result env.fast_result env.pcie_result,
      joined (
          on_streams (begin_submission ∷ wait.1)
          ∷ timed fast (fast_segments fast_elems count)
          ∷ timed pcie (pcie_segments count fast_elems)
          ∷ segments_waits env plan
          ∷ segments_registered env plan
          ∷ []),
    )

-- Both backends, the fast one into a dense buffer that is merged afterwards.
unfoldable pub gather_dense : Environment → Workspace → ℕ → Plan → BackendResult × List SegmentCall
unfolding pcie_wait_for_user_input_if_needed merged_result segments_waits segments_registered
    segments_fallback owns_dense has_dense dense_calls enqueue_segmented_merge_on_stream
gather_dense env ws count plan =
    let wait = pcie_wait_for_user_input_if_needed env in
    let fast_elems = plan.fast_bytes / env.elem_size in
    let line_bytes = mul64 ws.nranks plan.fast_bytes in
    let owned = owns_dense ws line_bytes in
    let alone = segments_fallback env count plan in
    if not (has_dense ws line_bytes)
    then (alone.0, dense_calls ws line_bytes ++ alone.1)
    else if not wait.0
    then (
      refused,
      joined (
          dense_calls ws line_bytes
          ∷ on_streams (begin_submission ∷ wait.1)
          ∷ ((if owned then free ∷ [] else []))
          ∷ []),
    )
    else (
      merged_result env.fast_result env.pcie_result,
      joined (
          dense_calls ws line_bytes
          ∷ on_streams (begin_submission ∷ wait.1)
          ∷ timed fast (fast_dense fast_elems)
          ∷ timed pcie (pcie_segments count fast_elems)
          ∷ segments_waits env plan
          ∷ enqueue_segmented_merge_on_stream env.has_user_stream ws.nranks plan.fast_bytes
              plan.pcie_bytes owned
          ∷ segments_registered env plan
          ∷ []),
    )

-- The branches after a plan; the last is never reached.
unfoldable pub gather_launch : Environment → Workspace → ℕ → Plan → BackendResult × List SegmentCall
unfolding segments_fast_only gather_segments gather_dense segments_pcie_only segments_fallback
gather_launch env ws count plan =
    if not plan.use_pcie || plan.pcie_bytes == 0 || not env.has_pcie_stream
    then segments_fast_only env count plan
    else if plan.use_pcie && ltb 0 plan.pcie_bytes && env.has_pcie_stream && ltb 0 plan.fast_bytes
    then (if ws.has_segments
        then gather_segments env count plan
        else gather_dense env ws count plan)
    else if plan.use_pcie && ltb 0 plan.pcie_bytes && env.has_pcie_stream && plan.fast_bytes == 0
    then segments_pcie_only env count plan
    else segments_fallback env count plan

-- AllGather of `count` elements of each rank, given the plan for them.
unfoldable pub all_gather : Environment → Workspace → ℕ → Plan → BackendResult × List SegmentCall
unfolding supported_plan gather_launch
all_gather env ws count plan =
    if env.elem_size == 0
    then (refused, [])
    else gather_launch env ws count (supported_plan env count plan)
