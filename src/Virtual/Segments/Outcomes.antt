-- ===== src/Virtual/Segments/Outcomes.antt =====
-- multipath-orchestrator/libampccl/core/virtual_collective.h: what the branches that AllGather,
-- ReduceScatter and AllToAll share leave in the buffers.
use hy_link.Planner.{Plan}
use hy_link.Virtual.{
  BackendResult, is_ok, fast, pcie, begin_submission, Environment,
  pcie_wait_for_user_input_if_needed, register_calls,
}
use hy_link.Virtual.Segments.{
  SegmentCall, fast_whole, fast_segments, pcie_whole, pcie_segments, on_streams, joined, timed,
  refused, segments_fast_only, segments_fallback, segments_waits, segments_registered,
  segments_pcie_only,
}
use hy_link.Virtual.Segments.Copies.{Buffer, Memory, Transfers, exec_one, exec, exec-append}
use hy_link.Virtual.Segments.Skips.{
  IsQuiet, on_streams-IsQuiet, segments_waits-IsQuiet, segments_registered-IsQuiet, exec-quiet,
  exec-last,
}
use hy_link.Prelude.{List, ℕ, ◌≡◌, sym, ap, ◌∙◌, subst, true, not, [], ◌∷◌, ◌++◌, arith, if-intro}

pub wait_has_stream :
    (env : Environment)
    → (pcie_wait_for_user_input_if_needed env).0 ≡ true
    → env.has_user_stream ≡ true
unfolding pcie_wait_for_user_input_if_needed
wait_has_stream env h = ground arith

module _ {D : Type 0} (t : Transfers D) (send : ℕ → Buffer D) (me : ℕ) (Q : Memory D → Type 0) where
  -- A result that is a success comes with buffers that are as they should be.
  abbrev pub IsRight : Memory D → BackendResult × List SegmentCall → Type 0
  IsRight m x = is_ok x.0 ≡ true → Q (exec t send me x.1 m)

  pub refused-IsRight : (m : Memory D) (calls : List SegmentCall) → IsRight m (refused, calls)
  unfolding is_ok
  refused-IsRight m calls ok = absurd (cc)

  pub segments_fallback-IsRight :
      (env : Environment) (count : ℕ) (plan : Plan) (m : Memory D) (before : List SegmentCall)
      → IsQuiet t send me before
      → Q (record m { recv = t.whole_by_fast count m.recv })
      → IsRight m
          ((segments_fallback env count plan).0, before ++ (segments_fallback env count plan).1)
  unfolding segments_fallback exec exec_one
  segments_fallback-IsRight env count plan m before quiet right ok =
      let calls = register_calls plan (is_ok env.fast_result) true in
      let work = timed fast (fast_whole count) ++ on_streams calls in
      let after = exec t send me (timed fast (fast_whole count)) m in
      let steps : exec t send me (before ++ work) m ≡ after =
        exec-append t send me before work m
        ∙ ap (exec t send me work) (quiet m)
        ∙ on_streams-IsQuiet t send me calls after in
      subst Q (sym steps) right

  pub segments_fast_only-IsRight :
      (env : Environment) (count : ℕ) (plan : Plan) (m : Memory D)
      → Q (record m { recv = t.whole_by_fast count m.recv })
      → IsRight m (segments_fast_only env count plan)
  unfolding segments_fast_only exec exec_one
  segments_fast_only-IsRight env count plan m right =
      let calls = register_calls plan (is_ok env.fast_result) true in
      let after = exec t send me (timed fast (fast_whole count)) m in
      if-intro (IsRight m) (not env.fast_only_bw_log) (λ u ok. right)
        (λ u ok. subst Q (sym (on_streams-IsQuiet t send me calls after)) right)

  pub segments_pcie_only-IsRight :
      (env : Environment) (count : ℕ) (plan : Plan) (m : Memory D)
      → Q (record m { recv = t.whole_by_pcie count m.recv })
      → IsRight m (segments_pcie_only env count plan)
  unfolding segments_pcie_only exec exec_one
  segments_pcie_only-IsRight env count plan m right =
      let wait = pcie_wait_for_user_input_if_needed env in
      let before = on_streams (begin_submission ∷ wait.1) in
      let waits = segments_waits env plan in
      let calls = register_calls plan true (is_ok env.pcie_result) in
      let work : List (List SegmentCall) =
        timed pcie (pcie_whole count) ∷ waits ∷ on_streams calls ∷ [] in
      if-intro (IsRight m) (not wait.0) (λ u. refused-IsRight m before)
        (λ u ok.
          let after = exec t send me (timed pcie (pcie_whole count)) m in
          let steps : exec t send me (joined (before ∷ work)) m ≡ after =
            exec-quiet t send me before work m
              (on_streams-IsQuiet t send me (begin_submission ∷ wait.1))
            ∙ exec-quiet t send me waits (on_streams calls ∷ []) after
                (segments_waits-IsQuiet t send me env plan)
            ∙ exec-last t send me (on_streams calls) after
            ∙ on_streams-IsQuiet t send me calls after in
          subst Q (sym steps) right)

  -- Both backends on segments, between the waits.
  pub segments_work-IsRight :
      (env : Environment) (count total fast_elems : ℕ) (plan : Plan) (m : Memory D)
      → Q (record m {
        recv = t.segments_by_pcie total fast_elems (t.segments_by_fast fast_elems count m.recv);
      })
      → Q (
          exec t send me
            (joined (
              on_streams (begin_submission ∷ (pcie_wait_for_user_input_if_needed env).1)
              ∷ timed fast (fast_segments fast_elems count)
              ∷ timed pcie (pcie_segments total fast_elems)
              ∷ segments_waits env plan
              ∷ segments_registered env plan
              ∷ []))
            m)
  unfolding exec exec_one
  segments_work-IsRight env count total fast_elems plan m right =
      let calls = begin_submission ∷ (pcie_wait_for_user_input_if_needed env).1 in
      let waits = segments_waits env plan in
      let last = segments_registered env plan in
      let work : List (List SegmentCall) =
        timed fast (fast_segments fast_elems count)
        ∷ timed pcie (pcie_segments total fast_elems)
        ∷ waits
        ∷ last
        ∷ [] in
      let after =
        exec t send me (timed pcie (pcie_segments total fast_elems))
          (exec t send me (timed fast (fast_segments fast_elems count)) m) in
      let steps : exec t send me (joined (on_streams calls ∷ work)) m ≡ after =
        exec-quiet t send me (on_streams calls) work m (on_streams-IsQuiet t send me calls)
        ∙ exec-quiet t send me waits (last ∷ []) after (segments_waits-IsQuiet t send me env plan)
        ∙ exec-last t send me last after
        ∙ segments_registered-IsQuiet t send me env plan after in
      subst Q (sym steps) right
