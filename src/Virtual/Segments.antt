-- ===== src/Virtual/Segments.antt =====
-- multipath-orchestrator/libampccl/core/virtual_collective.h: AllGather, ReduceScatter and AllToAll
-- from their plans on. The user's buffers hold a segment for each rank, of which the fast backend
-- takes the first part and PCIe CCL the rest. A fast backend without calls for counts and
-- displacements works on a dense buffer of the first parts, packed before or merged after it.
mod Tests
pub mod Copies
pub mod Skips
pub mod Outcomes
pub mod Gather
pub mod Gathered
pub mod Scatter
pub mod Scattered
pub mod ToAll
pub mod Exchanged
use hy_link.Prelude.Int.{pos}
use hy_link.Planner.{Plan}
use hy_link.Virtual.{
  unhandled_error, BackendResult, success_result, is_ok, Backend, fast, pcie, Call, start_timer,
  stop_timer, begin_submission, Environment, pcie_wait_for_user_input_if_needed,
  pcie_complete_on_user_stream_if_needed, sync_pcie_stream_before_callback_if_enabled,
  register_calls, merged_result,
}
use hy_link.Prelude.{
  List, ℕ, zero, suc, ◌+◌, ◌*◌, Bool, true, ◌||◌, not, Option, none, some, [], ◌∷◌, ◌++◌, map, leb,
  ◌==◌, if◌then◌else◌,
}

pub data SegmentCall : Type 0 where
  on_stream : Call → SegmentCall
  fast_whole : (count : ℕ) → SegmentCall
  fast_segments : (count stride : ℕ) → SegmentCall
  fast_dense : (count : ℕ) → SegmentCall
  pcie_whole : (count : ℕ) → SegmentCall
  pcie_segments : (count stride : ℕ) → SegmentCall
  pack merge : (to from bytes : ℕ) → SegmentCall
  allocate_dense : (bytes : ℕ) → SegmentCall
  free free_async : SegmentCall
  register_dense : Plan → (fast_ok pcie_ok owned : Bool) → SegmentCall

-- Besides what AllReduce sees: `has_segments` says that the fast backend has the calls with counts and
-- displacements, and `recvbuf_size` is the size of the domain's own buffer, if there is one.
pub record Workspace : Type 0 where
  pub nranks : ℕ
  pub has_segments : Bool
  pub recvbuf_size : Option ℕ
  pub alloc_ok : Bool

abbrev pub on_streams : List Call → List SegmentCall
on_streams = map on_stream

-- Lists of calls one after the other.
abbrev pub joined : List (List SegmentCall) → List SegmentCall
joined [] = []
joined (calls ∷ rest) = calls ++ joined rest

abbrev pub timed : Backend → SegmentCall → List SegmentCall
timed b call = on_stream (start_timer b) ∷ call ∷ on_stream (stop_timer b) ∷ []

abbrev pub refused : BackendResult
refused = record { code = unhandled_error; original = pos 0 }

-- The whole message over the fast backend, first with no plan for PCIe.
unfoldable pub segments_fast_only : Environment → ℕ → Plan → BackendResult × List SegmentCall
unfolding is_ok
segments_fast_only env count plan =
    if not env.fast_only_bw_log then (env.fast_result, fast_whole count ∷ []) else (
      if is_ok env.fast_result then success_result else env.fast_result,
      timed fast (fast_whole count)
          ++ on_streams (register_calls plan (is_ok env.fast_result) true),
    )

-- The whole message over the fast backend when no dense buffer can be had.
unfoldable pub segments_fallback : Environment → ℕ → Plan → BackendResult × List SegmentCall
unfolding is_ok
segments_fallback env count plan = (
  if not (is_ok env.fast_result) then env.fast_result else success_result,
  timed fast (fast_whole count) ++ on_streams (register_calls plan (is_ok env.fast_result) true),
)

-- After both launches.
unfoldable pub segments_waits : Environment → Plan → List SegmentCall
unfolding pcie_complete_on_user_stream_if_needed sync_pcie_stream_before_callback_if_enabled
segments_waits env plan =
    on_streams (pcie_complete_on_user_stream_if_needed env plan)
    ++ on_streams (sync_pcie_stream_before_callback_if_enabled env plan)

unfoldable pub segments_registered : Environment → Plan → List SegmentCall
unfolding is_ok
segments_registered env plan =
    on_streams (register_calls plan (is_ok env.fast_result) (is_ok env.pcie_result))

-- The whole message over PCIe.
unfoldable pub segments_pcie_only : Environment → ℕ → Plan → BackendResult × List SegmentCall
unfolding pcie_wait_for_user_input_if_needed merged_result segments_waits is_ok
segments_pcie_only env count plan =
    let wait = pcie_wait_for_user_input_if_needed env in
    if not wait.0 then (refused, on_streams (begin_submission ∷ wait.1)) else (
      merged_result success_result env.pcie_result,
      joined (
          on_streams (begin_submission ∷ wait.1)
          ∷ timed pcie (pcie_whole count)
          ∷ segments_waits env plan
          ∷ on_streams (register_calls plan true (is_ok env.pcie_result))
          ∷ []),
    )

-- Is the domain's own buffer taken for the dense one, and is there one at all?
unfoldable pub owns_dense : Workspace → ℕ → Bool
owns_dense ws bytes = elim ws.recvbuf_size [ none ↦ true | some size ↦ not (leb bytes size) ]

unfoldable pub has_dense : Workspace → ℕ → Bool
unfolding owns_dense
has_dense ws bytes = not (owns_dense ws bytes) || ws.alloc_ok

-- The calls that get the dense buffer.
unfoldable pub dense_calls : Workspace → ℕ → List SegmentCall
unfolding owns_dense
dense_calls ws bytes = if owns_dense ws bytes then allocate_dense bytes ∷ [] else []

-- One copy for each of `n` segments, the last one last.
unfoldable pub pack_calls : (n fast_bytes segment_bytes : ℕ) → List SegmentCall
pack_calls zero fast_bytes segment_bytes = []
pack_calls (suc n) fast_bytes segment_bytes =
    pack_calls n fast_bytes segment_bytes
    ++ (pack (n * fast_bytes) (n * segment_bytes) fast_bytes ∷ [])

unfoldable pub merge_calls : (n fast_bytes segment_bytes : ℕ) → List SegmentCall
merge_calls zero fast_bytes segment_bytes = []
merge_calls (suc n) fast_bytes segment_bytes =
    merge_calls n fast_bytes segment_bytes
    ++ (merge (n * segment_bytes) (n * fast_bytes) fast_bytes ∷ [])

unfoldable pub enqueue_segmented_merge_on_stream :
    (has_stream : Bool) → (nranks fast_bytes pcie_bytes : ℕ) → (owned : Bool) → List SegmentCall
unfolding merge_calls
enqueue_segmented_merge_on_stream has_stream nranks fast_bytes pcie_bytes owned =
    (if not has_stream || nranks == 0 || fast_bytes == 0
      then []
      else merge_calls nranks fast_bytes (fast_bytes + pcie_bytes))
    ++ (if owned then free_async ∷ [] else [])
