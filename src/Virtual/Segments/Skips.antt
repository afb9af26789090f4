-- ===== src/Virtual/Segments/Skips.antt =====
-- The calls of a collective on segments that leave the buffers alone
-- (multipath-orchestrator/libampccl/core/virtual_collective.h).
use hy_link.Planner.{Plan}
use hy_link.Virtual.{
  is_ok, Call, Environment, pcie_complete_on_user_stream_if_needed,
  sync_pcie_stream_before_callback_if_enabled, register_calls,
}
use hy_link.Virtual.Segments.{
  SegmentCall, allocate_dense, free_async, Workspace, on_streams, joined, segments_waits,
  segments_registered, owns_dense, dense_calls, merge_calls, enqueue_segmented_merge_on_stream,
}
use hy_link.Virtual.Segments.Copies.{Buffer, Memory, Transfers, exec_one, exec, exec-append}
use hy_link.Prelude.{
  List, ℕ, ◌+◌, ◌<◌, ◌≡◌, refl, ap, ◌∙◌, Bool, true, false, ◌||◌, [], ◌∷◌, arith, ◌==◌,
  if◌then◌else◌,
}

module _ {D : Type 0} (t : Transfers D) (send : ℕ → Buffer D) (me : ℕ) where
  -- Calls with no effect on the buffers.
  abbrev pub IsQuiet : List SegmentCall → Type 0
  IsQuiet calls = (m : Memory D) → exec t send me calls m ≡ m

  pub on_streams-IsQuiet : (calls : List Call) → IsQuiet (on_streams calls)
  unfolding exec exec_one
  on_streams-IsQuiet [] m = refl
  on_streams-IsQuiet (call ∷ calls) m = on_streams-IsQuiet calls m

  pub IsQuiet-if :
      (b : Bool) (x y : List SegmentCall) → IsQuiet x → IsQuiet y → IsQuiet (if b then x else y)
  IsQuiet-if true x y h k = h
  IsQuiet-if false x y h k = k

  pub segments_waits-IsQuiet : (env : Environment) (plan : Plan) → IsQuiet (segments_waits env plan)
  unfolding segments_waits
  segments_waits-IsQuiet env plan m =
      let a = pcie_complete_on_user_stream_if_needed env plan in
      let b = sync_pcie_stream_before_callback_if_enabled env plan in
      exec-append t send me (on_streams a) (on_streams b) m
      ∙ ap (exec t send me (on_streams b)) (on_streams-IsQuiet a m)
      ∙ on_streams-IsQuiet b m

  pub segments_registered-IsQuiet :
      (env : Environment) (plan : Plan) → IsQuiet (segments_registered env plan)
  unfolding segments_registered
  segments_registered-IsQuiet env plan =
      on_streams-IsQuiet (register_calls plan (is_ok env.fast_result) (is_ok env.pcie_result))

  pub dense_calls-IsQuiet : (ws : Workspace) (bytes : ℕ) → IsQuiet (dense_calls ws bytes)
  unfolding dense_calls exec exec_one
  dense_calls-IsQuiet ws bytes =
      IsQuiet-if (owns_dense ws bytes) (allocate_dense bytes ∷ []) [] (λ m. refl) (λ m. refl)

  -- Calls before and after the ones that matter.
  pub exec-first :
      (calls : List SegmentCall) (rest : List (List SegmentCall)) (m : Memory D)
      → exec t send me (joined (calls ∷ rest)) m
        ≡ exec t send me (joined rest) (exec t send me calls m)
  exec-first calls rest m = exec-append t send me calls (joined rest) m

  pub exec-quiet :
      (calls : List SegmentCall) (rest : List (List SegmentCall)) (m : Memory D)
      → IsQuiet calls
      → exec t send me (joined (calls ∷ rest)) m ≡ exec t send me (joined rest) m
  exec-quiet calls rest m h = exec-first calls rest m ∙ ap (exec t send me (joined rest)) (h m)

  pub exec-last :
      (calls : List SegmentCall) (m : Memory D)
      → exec t send me (joined (calls ∷ [])) m ≡ exec t send me calls m
  unfolding exec
  exec-last calls m = exec-first calls [] m

  -- The merge when there is something to merge.
  pub exec-merge :
      (m : Memory D) (nranks fast_bytes pcie_bytes : ℕ) (owned : Bool)
      → 0 < nranks
      → 0 < fast_bytes
      → exec t send me (enqueue_segmented_merge_on_stream true nranks fast_bytes pcie_bytes owned) m
        ≡ exec t send me (merge_calls nranks fast_bytes (fast_bytes + pcie_bytes)) m
  unfolding enqueue_segmented_merge_on_stream exec exec_one
  exec-merge m nranks fast_bytes pcie_bytes owned some_ranks some_bytes =
      let go : (nranks == 0 || fast_bytes == 0) ≡ false = ground (arith, some_ranks, some_bytes) in
      let merges = merge_calls nranks fast_bytes (fast_bytes + pcie_bytes) in
      let tail : List SegmentCall = if owned then free_async ∷ [] else [] in
      rw go (
        exec-append t send me merges tail m
        ∙ IsQuiet-if owned (free_async ∷ []) [] (λ x. refl) (λ x. refl) (exec t send me merges m))
