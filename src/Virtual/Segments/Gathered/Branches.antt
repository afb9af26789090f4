-- ===== src/Virtual/Segments/Gathered/Branches.antt =====
-- multipath-orchestrator/libampccl/core/virtual_collective.h: AllGather on each of its branches.
use hy_link.Planner.{Plan}
use hy_link.Virtual.{fast, pcie, begin_submission, Environment, pcie_wait_for_user_input_if_needed}
use hy_link.Virtual.Segments.{
  SegmentCall, fast_dense, pcie_segments, free, Workspace, on_streams, joined, timed,
  segments_waits, segments_registered, owns_dense, has_dense, dense_calls, merge_calls,
  enqueue_segmented_merge_on_stream,
}
use hy_link.Virtual.Segments.Copies.{Buffer, Memory, Transfers, exec_one, exec}
use hy_link.Virtual.Segments.Gather.{gather_segments, gather_dense, gather_launch}
use hy_link.Virtual.Segments.Skips.{
  on_streams-IsQuiet, segments_waits-IsQuiet, segments_registered-IsQuiet, dense_calls-IsQuiet,
  exec-first, exec-quiet, exec-last, exec-merge,
}
use hy_link.Virtual.Segments.Outcomes.{
  wait_has_stream, IsRight, refused-IsRight, segments_fallback-IsRight, segments_fast_only-IsRight,
  segments_pcie_only-IsRight, segments_work-IsRight,
}
use hy_link.Virtual.Segments.Gathered.{GatherLaws, IsGathered, both_parts, merged-parts}
use hy_link.Prelude.{
  List, ℕ, ◌+◌, ◌*◌, ◌/◌, ◌≤◌, ◌<◌, ◌≡◌, refl, ap, ◌∙◌, true, ◌&&◌, ◌||◌, not, [], ◌∷◌, arith, ltb,
  ◌==◌, if◌then◌else◌, if-intro, mul64,
}

module _ {D : Type 0} (t : Transfers D) (send : ℕ → Buffer D) (me es : ℕ) (ws : Workspace) where
  module _ (laws : GatherLaws t send me es ws) where
    gather_segments-IsRight :
        (env : Environment) (count : ℕ) (plan : Plan) (m : Memory D)
        → plan.fast_bytes / env.elem_size ≤ count
        → IsRight t send me (IsGathered t send me es ws count) m (gather_segments env count plan)
    unfolding gather_segments
    gather_segments-IsRight env count plan m few =
        let fe = plan.fast_bytes / env.elem_size in
        let wait = pcie_wait_for_user_input_if_needed env in
        if-intro (IsRight t send me (IsGathered t send me es ws count) m) (not wait.0)
          (λ u.
            refused-IsRight t send me (IsGathered t send me es ws count) m
              (on_streams (begin_submission ∷ wait.1)))
          (λ u ok.
            segments_work-IsRight t send me (IsGathered t send me es ws count) env count count fe
              plan m
              (λ r b h k.
                both_parts t send me es ws laws count fe r b (t.segments_by_fast fe count m.recv) h
                  k (λ first. laws.segments_by_fast-at fe count r b m.recv h first few)))

    gather_dense-IsRight :
        (env : Environment) (count : ℕ) (plan : Plan) (m : Memory D)
        → plan.fast_bytes ≡ plan.fast_bytes / env.elem_size * es
        → plan.fast_bytes + plan.pcie_bytes ≡ count * es
        → 0 < plan.fast_bytes
        → IsRight t send me (IsGathered t send me es ws count) m (gather_dense env ws count plan)
    unfolding gather_dense exec exec_one
    gather_dense-IsRight env count plan m whole total some_bytes =
        let fe = plan.fast_bytes / env.elem_size in
        let line_bytes = mul64 ws.nranks plan.fast_bytes in
        let wait = pcie_wait_for_user_input_if_needed env in
        let first = dense_calls ws line_bytes in
        let before = on_streams (begin_submission ∷ wait.1) in
        let waits = segments_waits env plan in
        let merge_all =
          enqueue_segmented_merge_on_stream env.has_user_stream ws.nranks plan.fast_bytes
            plan.pcie_bytes (owns_dense ws line_bytes) in
        let last = segments_registered env plan in
        let work : List (List SegmentCall) =
          timed fast (fast_dense fe)
          ∷ timed pcie (pcie_segments count fe)
          ∷ waits
          ∷ merge_all
          ∷ last
          ∷ [] in
        if-intro (IsRight t send me (IsGathered t send me es ws count) m)
          (not (has_dense ws line_bytes))
          (λ u.
            segments_fallback-IsRight t send me (IsGathered t send me es ws count) env count plan m
              first (dense_calls-IsQuiet t send me ws line_bytes)
              (λ r b. laws.whole_by_fast-at count r b m.recv))
          (λ u.
            if-intro (IsRight t send me (IsGathered t send me es ws count) m) (not wait.0)
              (λ v. refused-IsRight t send me (IsGathered t send me es ws count) m (
                joined
                  (first ∷ before ∷ (if owns_dense ws line_bytes then free ∷ [] else []) ∷ [])))
              (λ v ok r b h k.
                let after =
                  exec t send me (timed pcie (pcie_segments count fe))
                    (exec t send me (timed fast (fast_dense fe)) m) in
                let steps : exec t send me (joined (first ∷ before ∷ work)) m
                    ≡ exec t send me merge_all after =
                  exec-quiet t send me first (before ∷ work) m
                    (dense_calls-IsQuiet t send me ws line_bytes)
                  ∙ exec-quiet t send me before work m
                      (on_streams-IsQuiet t send me (begin_submission ∷ wait.1))
                  ∙ exec-quiet t send me waits (merge_all ∷ last ∷ []) after
                      (segments_waits-IsQuiet t send me env plan)
                  ∙ exec-first t send me merge_all (last ∷ []) after
                  ∙ exec-last t send me last (exec t send me merge_all after)
                  ∙ segments_registered-IsQuiet t send me env plan
                      (exec t send me merge_all after) in
                let stream : env.has_user_stream ≡ true = wait_has_stream env (ground (arith, v)) in
                let merges : exec t send me merge_all after
                    ≡ exec t send me
                        (merge_calls ws.nranks plan.fast_bytes (plan.fast_bytes + plan.pcie_bytes))
                        after =
                  rw stream (
                    exec-merge t send me after ws.nranks plan.fast_bytes plan.pcie_bytes
                      (owns_dense ws line_bytes) (omega (arith, h)) some_bytes) in
                ap (λ (x : Memory D). x.recv (r * (count * es) + b)) (steps ∙ merges)
                ∙ merged-parts t send me es ws laws count fe plan.fast_bytes plan.pcie_bytes r b m
                    whole total h k))

    pub gather_launch-IsRight :
        (env : Environment) (count : ℕ) (plan : Plan) (m : Memory D)
        → (plan.use_pcie ≡ true
            → (plan.fast_bytes ≡ plan.fast_bytes / env.elem_size * es)
              × (plan.fast_bytes / env.elem_size ≤ count)
              × (plan.fast_bytes + plan.pcie_bytes ≡ count * es))
        → IsRight t send me (IsGathered t send me es ws count) m (gather_launch env ws count plan)
    unfolding gather_launch exec
    gather_launch-IsRight env count plan m exact =
        if-intro (IsRight t send me (IsGathered t send me es ws count) m)
          (not plan.use_pcie || plan.pcie_bytes == 0 || not env.has_pcie_stream)
          (λ _.
            segments_fast_only-IsRight t send me (IsGathered t send me es ws count) env count plan m
              (λ r b. laws.whole_by_fast-at count r b m.recv))
          (λ _.
            if-intro (IsRight t send me (IsGathered t send me es ws count) m)
              (plan.use_pcie
                && ltb 0 plan.pcie_bytes
                && env.has_pcie_stream
                && ltb 0 plan.fast_bytes)
              (λ u.
                let (whole, few, total) = exact (ground (arith, u)) in
                if-intro (IsRight t send me (IsGathered t send me es ws count) m) ws.has_segments
                  (λ _. gather_segments-IsRight env count plan m few)
                  (λ _. gather_dense-IsRight env count plan m whole total (ground (arith, u))))
              (λ _.
                if-intro (IsRight t send me (IsGathered t send me es ws count) m)
                  (plan.use_pcie
                    && ltb 0 plan.pcie_bytes
                    && env.has_pcie_stream
                    && plan.fast_bytes == 0)
                  (λ _.
                    segments_pcie_only-IsRight t send me (IsGathered t send me es ws count) env
                      count plan m (λ r b. laws.whole_by_pcie-at count r b m.recv))
                  (λ _.
                    segments_fallback-IsRight t send me (IsGathered t send me es ws count) env count
                      plan m [] (λ x. refl) (λ r b. laws.whole_by_fast-at count r b m.recv))))
