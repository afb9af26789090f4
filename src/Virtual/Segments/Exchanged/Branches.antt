-- ===== src/Virtual/Segments/Exchanged/Branches.antt =====
-- multipath-orchestrator/libampccl/core/virtual_collective.h: AllToAll on each of its branches, with
-- its callback.
use hy_link.Planner.{Plan}
use hy_link.Virtual.{
  BackendResult, is_ok, fast, pcie, begin_submission, Environment, register_calls,
}
use hy_link.Virtual.Segments.{
  SegmentCall, fast_segments, fast_dense, pcie_whole, pcie_segments, free, Workspace, on_streams,
  timed, segments_fallback, segments_waits, segments_registered, owns_dense, has_dense, dense_calls,
  pack_calls, merge_calls,
}
use hy_link.Virtual.Segments.Copies.{Buffer, Memory, Transfers, exec_one, exec, exec-append}
use hy_link.Virtual.Segments.Scatter.{dense_registered}
use hy_link.Virtual.Segments.ToAll.{
  to_all_segments, to_all_dense, to_all_pcie_only, synchronized_merge, callbacks,
}
use hy_link.Virtual.Segments.Skips.{
  on_streams-IsQuiet, IsQuiet-if, segments_waits-IsQuiet, segments_registered-IsQuiet,
  dense_calls-IsQuiet, exec-first, exec-quiet, exec-last,
}
use hy_link.Virtual.Segments.Outcomes.{IsRight, segments_fallback-IsRight}
use hy_link.Virtual.Segments.Exchanged.{ExchangeLaws, IsExchanged, both_parts, exchanged-parts}
use hy_link.Virtual.Segments.Exchanged.Callbacks.{
  IsSilent, append-IsSilent, dense_calls-IsSilent, segments_fallback-IsSilent,
  to_all_dense-callbacks,
}
use hy_link.Prelude.{
  List, ℕ, ◌+◌, ◌*◌, ◌/◌, ◌≤◌, ◌<◌, ◌≡◌, refl, sym, ap, ◌∙◌, subst, Bool, true, false, [], ◌∷◌,
  ◌++◌, arith, ltb, if◌then◌else◌, u64_mod, mul64,
}

module _ {D : Type 0} (t : Transfers D) (send : ℕ → Buffer D) (me es : ℕ) (ws : Workspace)
    (laws : ExchangeLaws t send me es ws) where
  -- The calls and then their callbacks.
  abbrev pub completed : BackendResult × List SegmentCall → BackendResult × List SegmentCall
  completed x = (x.0, x.1 ++ callbacks true ws.nranks x.1)

  pub silent-IsRight :
      (count : ℕ) (m : Memory D) (x : BackendResult × List SegmentCall)
      → IsSilent true ws.nranks x.1
      → IsRight t send me (IsExchanged t send me es ws count) m x
      → IsRight t send me (IsExchanged t send me es ws count) m (completed x)
  unfolding exec
  silent-IsRight count m x silent right ok =
      let steps : exec t send me (x.1 ++ callbacks true ws.nranks x.1) m ≡ exec t send me x.1 m =
        exec-append t send me x.1 (callbacks true ws.nranks x.1) m
        ∙ ap (λ y. exec t send me y (exec t send me x.1 m)) silent in
      subst (IsExchanged t send me es ws count) (sym steps) (right ok)

  pub to_all_segments-IsRight :
      (env : Environment) (count : ℕ) (plan : Plan) (m : Memory D)
      → plan.fast_bytes / env.elem_size ≤ count
      → count * ws.nranks < u64_mod
      → IsRight t send me (IsExchanged t send me es ws count) m (to_all_segments env ws count plan)
  unfolding to_all_segments exec exec_one
  to_all_segments-IsRight env count plan m few small ok =
      let fe = plan.fast_bytes / env.elem_size in
      let waits = segments_waits env plan in
      let last = segments_registered env plan in
      let total : mul64 count ws.nranks ≡ count * ws.nranks = omega (arith, small) in
      let after =
        exec t send me (timed pcie (pcie_segments (mul64 count ws.nranks) fe))
          (exec t send me (timed fast (fast_segments fe count)) m) in
      let steps : exec t send me (to_all_segments env ws count plan).1 m ≡ after =
        exec-quiet t send me waits (last ∷ []) after (segments_waits-IsQuiet t send me env plan)
        ∙ exec-last t send me last after
        ∙ segments_registered-IsQuiet t send me env plan after in
      subst (IsExchanged t send me es ws count) (sym steps) (λ r b h k. rw total (
        both_parts t send me es ws laws count fe r b (t.segments_by_fast fe count m.recv) h k
          (λ first. laws.segments_by_fast-at fe count r b m.recv h first few)))

  pub to_all_pcie_only-IsRight :
      (env : Environment) (count : ℕ) (plan : Plan) (m : Memory D)
      → count * ws.nranks < u64_mod
      → IsRight t send me (IsExchanged t send me es ws count) m (to_all_pcie_only env ws count plan)
  unfolding to_all_pcie_only exec exec_one
  to_all_pcie_only-IsRight env count plan m small ok =
      let waits = segments_waits env plan in
      let calls = register_calls plan true (is_ok env.pcie_result) in
      let total : mul64 count ws.nranks ≡ count * ws.nranks = omega (arith, small) in
      let after = exec t send me (timed pcie (pcie_whole (mul64 count ws.nranks))) m in
      let steps : exec t send me (to_all_pcie_only env ws count plan).1 m ≡ after =
        exec-quiet t send me waits (on_streams calls ∷ []) after
          (segments_waits-IsQuiet t send me env plan)
        ∙ exec-last t send me (on_streams calls) after
        ∙ on_streams-IsQuiet t send me calls after in
      subst (IsExchanged t send me es ws count) (sym steps)
        (λ r b h k. rw total (laws.whole_by_pcie-at count r b m.recv h k))

  -- What the calls of the dense branch leave, before the callback.
  to_all_dense-exec :
      (env : Environment) (count : ℕ) (plan : Plan) (m : Memory D)
      → has_dense ws (mul64 ws.nranks plan.fast_bytes) ≡ true
      → count * ws.nranks < u64_mod
      → exec t send me (to_all_dense env ws count plan).1 m
        ≡ exec t send me
            (timed pcie (pcie_segments (count * ws.nranks) (plan.fast_bytes / env.elem_size)))
            (t.dense_by_fast
              (plan.fast_bytes / env.elem_size)
              (exec t send me (pack_calls ws.nranks plan.fast_bytes (count * env.elem_size)) m))
  unfolding to_all_dense dense_registered exec exec_one
  to_all_dense-exec env count plan m dense small =
      let fe = plan.fast_bytes / env.elem_size in
      let bytes = mul64 ws.nranks plan.fast_bytes in
      let packs = pack_calls ws.nranks plan.fast_bytes (count * env.elem_size) in
      let waits = segments_waits env plan in
      let last = dense_registered env plan (owns_dense ws bytes) in
      let total : mul64 count ws.nranks ≡ count * ws.nranks = omega (arith, small) in
      let transfers : List (List SegmentCall) =
        timed fast (fast_dense fe)
        ∷ on_streams (begin_submission ∷ [])
        ∷ timed pcie (pcie_segments (mul64 count ws.nranks) fe)
        ∷ waits
        ∷ last
        ∷ [] in
      let swapped = t.dense_by_fast fe (exec t send me packs m) in
      let after = exec t send me (timed pcie (pcie_segments (mul64 count ws.nranks) fe)) swapped in
      rw dense (
        exec-quiet t send me (dense_calls ws bytes) (packs ∷ transfers) m
          (dense_calls-IsQuiet t send me ws bytes)
        ∙ exec-first t send me packs transfers m
        ∙ exec-quiet t send me waits (last ∷ []) after (segments_waits-IsQuiet t send me env plan)
        ∙ exec-last t send me last after
        ∙ ap (λ n. exec t send me (timed pcie (pcie_segments n fe)) swapped) total)

  synchronized_merge-exec :
      (m : Memory D) (n fast_bytes pcie_bytes : ℕ) (owned : Bool)
      → 0 < fast_bytes
      → exec t send me (synchronized_merge true n fast_bytes pcie_bytes owned ++ []) m
        ≡ exec t send me (merge_calls n fast_bytes (fast_bytes + pcie_bytes)) m
  unfolding synchronized_merge exec exec_one
  synchronized_merge-exec m n fast_bytes pcie_bytes owned some_bytes =
      let go : ltb 0 fast_bytes ≡ true = ground (arith, some_bytes) in
      let merges = merge_calls n fast_bytes (fast_bytes + pcie_bytes) in
      let tail : List SegmentCall = if owned then free ∷ [] else [] in
      rw go (
        exec-append t send me (merges ++ tail) [] m
        ∙ exec-append t send me merges tail m
        ∙ IsQuiet-if t send me owned (free ∷ []) [] (λ x. refl) (λ x. refl)
            (exec t send me merges m))

  pub to_all_dense-IsRight :
      (env : Environment) (count : ℕ) (plan : Plan) (m : Memory D)
      → env.elem_size ≡ es
      → plan.fast_bytes ≡ plan.fast_bytes / env.elem_size * es
      → plan.fast_bytes + plan.pcie_bytes ≡ count * es
      → 0 < plan.fast_bytes
      → count * ws.nranks < u64_mod
      → me < ws.nranks
      → has_dense ws (mul64 ws.nranks plan.fast_bytes) ≡ true
      → IsRight t send me
          (IsExchanged t send me es ws count)
          m
          (completed (to_all_dense env ws count plan))
  to_all_dense-IsRight env count plan m size whole total some_bytes small mine dense ok =
      let fe = plan.fast_bytes / env.elem_size in
      let calls = (to_all_dense env ws count plan).1 in
      let done = exec t send me calls m in
      let merges = merge_calls ws.nranks plan.fast_bytes (plan.fast_bytes + plan.pcie_bytes) in
      let steps : exec t send me (calls ++ callbacks true ws.nranks calls) m
          ≡ exec t send me merges done =
        exec-append t send me calls (callbacks true ws.nranks calls) m
        ∙ ap (λ x. exec t send me x done)
            (to_all_dense-callbacks true ws.nranks env ws count plan dense)
        ∙ synchronized_merge-exec done ws.nranks plan.fast_bytes plan.pcie_bytes
            (owns_dense ws (mul64 ws.nranks plan.fast_bytes)) some_bytes in
      let before : done
          ≡ exec t send me (timed pcie (pcie_segments (count * ws.nranks) fe)) (
              t.dense_by_fast fe
                (exec t send me (pack_calls ws.nranks plan.fast_bytes (count * es)) m)) =
        to_all_dense-exec env count plan m dense small
        ∙ ap
            (λ x. exec t send me (timed pcie (pcie_segments (count * ws.nranks) fe)) (
              t.dense_by_fast fe
                (exec t send me (pack_calls ws.nranks plan.fast_bytes (count * x)) m)))
            size in
      subst (IsExchanged t send me es ws count) (sym (steps ∙ ap (exec t send me merges) before))
        (λ r b h k.
          exchanged-parts t send me es ws laws count fe plan.fast_bytes plan.pcie_bytes r b m whole
            total mine h k)

  pub without_dense-IsRight :
      (env : Environment) (count : ℕ) (plan : Plan) (m : Memory D)
      → has_dense ws (mul64 ws.nranks plan.fast_bytes) ≡ false
      → IsRight t send me
          (IsExchanged t send me es ws count)
          m
          (completed (to_all_dense env ws count plan))
  unfolding to_all_dense
  without_dense-IsRight env count plan m none_left =
      let bytes = mul64 ws.nranks plan.fast_bytes in
      let alone = segments_fallback env count plan in
      rw none_left (
        silent-IsRight count m (alone.0, dense_calls ws bytes ++ alone.1)
          (append-IsSilent true ws.nranks (dense_calls ws bytes) alone.1
            (dense_calls-IsSilent true ws.nranks ws bytes)
            (segments_fallback-IsSilent true ws.nranks env count plan))
          (segments_fallback-IsRight t send me (IsExchanged t send me es ws count) env count plan m
            (dense_calls ws bytes) (dense_calls-IsQuiet t send me ws bytes)
            (λ r b. laws.whole_by_fast-at count r b m.recv)))
