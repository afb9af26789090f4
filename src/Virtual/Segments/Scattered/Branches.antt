-- ===== src/Virtual/Segments/Scattered/Branches.antt =====
-- multipath-orchestrator/libampccl/core/virtual_collective.h: ReduceScatter on each of its branches.
use hy_link.Planner.{Plan}
use hy_link.Virtual.{
  BackendResult, fast, pcie, begin_submission, Environment, pcie_wait_for_user_input_if_needed,
}
use hy_link.Virtual.Segments.{
  SegmentCall, fast_dense, pcie_segments, free, Workspace, on_streams, joined, timed,
  segments_waits, owns_dense, has_dense, dense_calls, pack_calls,
}
use hy_link.Virtual.Segments.Copies.{Buffer, Memory, Transfers, exec_one, exec}
use hy_link.Virtual.Segments.Scatter.{
  scatter_segments, dense_registered, scatter_dense, scatter_launch,
}
use hy_link.Virtual.Segments.Skips.{
  IsQuiet, on_streams-IsQuiet, segments_waits-IsQuiet, dense_calls-IsQuiet, exec-first, exec-quiet,
  exec-last,
}
use hy_link.Virtual.Segments.Outcomes.{
  IsRight, refused-IsRight, segments_fallback-IsRight, segments_fast_only-IsRight,
  segments_pcie_only-IsRight, segments_work-IsRight,
}
use hy_link.Virtual.Segments.Scattered.{ScatterLaws, IsScattered, both_parts, packed-part}
use hy_link.Prelude.{
  List, ℕ, ◌+◌, ◌*◌, ◌/◌, ◌≤◌, ◌<◌, ◌≡◌, refl, sym, ap, ◌∙◌, subst, Bool, true, ◌&&◌, ◌||◌, not, [],
  ◌∷◌, arith, ltb, ◌==◌, if◌then◌else◌, if-intro, u64_mod, mul64,
}

module _ {D : Type 0} (t : Transfers D) (reduced : (ℕ → Buffer D) → Buffer D) (send : ℕ → Buffer D)
    (me es : ℕ) (ws : Workspace) (laws : ScatterLaws t reduced send me es ws) where
  dense_registered-IsQuiet :
      (env : Environment) (plan : Plan) (owned : Bool)
      → IsQuiet t send me (dense_registered env plan owned)
  unfolding dense_registered exec exec_one
  dense_registered-IsQuiet env plan owned m = refl

  scatter_segments-IsRight :
      (env : Environment) (count : ℕ) (plan : Plan) (m : Memory D)
      → plan.fast_bytes / env.elem_size ≤ count
      → count * ws.nranks < u64_mod
      → IsRight t send me
          (IsScattered t reduced send me es ws count)
          m
          (scatter_segments env ws count plan)
  unfolding scatter_segments
  scatter_segments-IsRight env count plan m few small =
      let fe = plan.fast_bytes / env.elem_size in
      let wait = pcie_wait_for_user_input_if_needed env in
      let total : mul64 count ws.nranks ≡ count * ws.nranks = omega (arith, small) in
      if-intro (IsRight t send me (IsScattered t reduced send me es ws count) m) (not wait.0)
        (λ u.
          refused-IsRight t send me (IsScattered t reduced send me es ws count) m
            (on_streams (begin_submission ∷ wait.1)))
        (λ u ok.
          segments_work-IsRight t send me (IsScattered t reduced send me es ws count) env count
            (mul64 count ws.nranks) fe plan m
            (λ k h. rw total (
              both_parts t reduced send me es ws laws count fe k
                (t.segments_by_fast fe count m.recv) h
                (λ first. laws.segments_by_fast-at fe count k m.recv first few))))

  scatter_dense-IsRight :
      (env : Environment) (count : ℕ) (plan : Plan) (m : Memory D)
      → env.elem_size ≡ es
      → plan.fast_bytes ≡ plan.fast_bytes / env.elem_size * es
      → plan.fast_bytes / env.elem_size ≤ count
      → count * ws.nranks < u64_mod
      → me < ws.nranks
      → IsRight t send me
          (IsScattered t reduced send me es ws count)
          m
          (scatter_dense env ws count plan)
  unfolding scatter_dense exec exec_one
  scatter_dense-IsRight env count plan m size whole few small below =
      let fe = plan.fast_bytes / env.elem_size in
      let pack_bytes = mul64 ws.nranks plan.fast_bytes in
      let total_elems = mul64 count ws.nranks in
      let total : total_elems ≡ count * ws.nranks = omega (arith, small) in
      let wait = pcie_wait_for_user_input_if_needed env in
      let first = dense_calls ws pack_bytes in
      let before = on_streams (begin_submission ∷ wait.1) in
      let packs = pack_calls ws.nranks plan.fast_bytes (count * env.elem_size) in
      let waits = segments_waits env plan in
      let owned = owns_dense ws pack_bytes in
      let last = dense_registered env plan owned in
      let transfers : List (List SegmentCall) =
        timed fast (fast_dense fe)
        ∷ timed pcie (pcie_segments total_elems fe)
        ∷ waits
        ∷ last
        ∷ [] in
      if-intro (IsRight t send me (IsScattered t reduced send me es ws count) m)
        (not (has_dense ws pack_bytes))
        (λ u.
          segments_fallback-IsRight t send me (IsScattered t reduced send me es ws count) env count
            plan m first (dense_calls-IsQuiet t send me ws pack_bytes)
            (λ k. laws.whole_by_fast-at count k m.recv))
        (λ u.
          if-intro (IsRight t send me (IsScattered t reduced send me es ws count) m) (not wait.0)
            (λ v.
              refused-IsRight t send me (IsScattered t reduced send me es ws count) m
                (joined (first ∷ before ∷ (if owned then free ∷ [] else []) ∷ [])))
            (λ v ok.
              let packed = exec t send me packs m in
              let same_packs : packed
                  ≡ exec t send me (pack_calls ws.nranks (fe * es) (count * es)) m =
                ap (λ x. exec t send me (pack_calls ws.nranks x (count * env.elem_size)) m) whole
                ∙ ap (λ x. exec t send me (pack_calls ws.nranks (fe * es) (count * x)) m) size in
              let after =
                exec t send me (timed pcie (pcie_segments total_elems fe))
                  (exec t send me (timed fast (fast_dense fe)) packed) in
              let steps : exec t send me (joined (first ∷ before ∷ packs ∷ transfers)) m ≡ after =
                exec-quiet t send me first (before ∷ packs ∷ transfers) m
                  (dense_calls-IsQuiet t send me ws pack_bytes)
                ∙ exec-quiet t send me before (packs ∷ transfers) m
                    (on_streams-IsQuiet t send me (begin_submission ∷ wait.1))
                ∙ exec-first t send me packs transfers m
                ∙ exec-quiet t send me waits (last ∷ []) after
                    (segments_waits-IsQuiet t send me env plan)
                ∙ exec-last t send me last after
                ∙ dense_registered-IsQuiet env plan owned after in
              let packed_again : (k : ℕ)
                  → (t.dense_by_fast fe
                        (exec t send me (pack_calls ws.nranks (fe * es) (count * es)) m)).recv
                      k
                    ≡ reduced send (me * (count * es) + k)
                  → (t.dense_by_fast fe packed).recv k ≡ reduced send (me * (count * es) + k) =
                λ k p. ap (λ (x : Memory D). (t.dense_by_fast fe x).recv k) same_packs ∙ p in
              let right : IsScattered t reduced send me es ws count after = λ k h. rw total (
                both_parts t reduced send me es ws laws count fe k (t.dense_by_fast fe packed).recv
                  h
                  (λ l.
                    packed_again k
                      (packed-part t reduced send me es ws laws count fe k m few below l))) in
              subst (λ (x : Memory D). IsScattered t reduced send me es ws count x) (sym steps)
                right))

  pub scatter_launch-IsRight :
      (env : Environment) (count : ℕ) (plan : Plan) (m : Memory D)
      → env.elem_size ≡ es
      → (plan.use_pcie ≡ true
          → (plan.fast_bytes ≡ plan.fast_bytes / env.elem_size * es)
            × (plan.fast_bytes / env.elem_size ≤ count))
      → count * ws.nranks < u64_mod
      → me < ws.nranks
      → IsRight t send me
          (IsScattered t reduced send me es ws count)
          m
          (scatter_launch env ws count plan)
  unfolding scatter_launch exec
  scatter_launch-IsRight env count plan m size exact small below =
      let right : BackendResult × List SegmentCall → Type 0 =
        IsRight t send me (IsScattered t reduced send me es ws count) m in
      if-intro right (not plan.use_pcie || plan.pcie_bytes == 0 || not env.has_pcie_stream)
        (λ _.
          segments_fast_only-IsRight t send me (IsScattered t reduced send me es ws count) env count
            plan m (λ k. laws.whole_by_fast-at count k m.recv))
        (λ _.
          if-intro right
            (plan.use_pcie && ltb 0 plan.pcie_bytes && env.has_pcie_stream && ltb 0 plan.fast_bytes)
            (λ u.
              let (whole, few) = exact (ground (arith, u)) in
              if-intro right ws.has_segments
                (λ _. scatter_segments-IsRight env count plan m few small)
                (λ _. scatter_dense-IsRight env count plan m size whole few small below))
            (λ _.
              if-intro right
                (plan.use_pcie
                  && ltb 0 plan.pcie_bytes
                  && env.has_pcie_stream
                  && plan.fast_bytes == 0)
                (λ _.
                  segments_pcie_only-IsRight t send me (IsScattered t reduced send me es ws count)
                    env count plan m (λ k. laws.whole_by_pcie-at count k m.recv))
                (λ _.
                  segments_fallback-IsRight t send me (IsScattered t reduced send me es ws count)
                    env count plan m [] (λ x. refl) (λ k. laws.whole_by_fast-at count k m.recv))))
