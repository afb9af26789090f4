-- ===== src/Virtual/Segments/Exchanged/Callbacks.antt =====
-- multipath-orchestrator/libampccl/core/stream_sync.cc: which calls of AllToAll leave a buffer to merge.
use hy_link.Planner.{Plan}
use hy_link.Virtual.{
  BackendResult, is_ok, fast, pcie, Call, begin_submission, Environment,
  pcie_complete_on_user_stream_if_needed, sync_pcie_stream_before_callback_if_enabled,
  register_calls,
}
use hy_link.Virtual.Segments.{
  SegmentCall, on_stream, fast_whole, fast_segments, fast_dense, pcie_whole, pcie_segments, pack,
  merge, allocate_dense, free, free_async, register_dense, Workspace, on_streams, joined, timed,
  segments_fast_only, segments_fallback, segments_waits, segments_registered, owns_dense, has_dense,
  dense_calls, pack_calls,
}
use hy_link.Virtual.Segments.Scatter.{dense_registered}
use hy_link.Virtual.Segments.ToAll.{
  to_all_segments, to_all_dense, to_all_pcie_only, synchronized_merge, callbacks,
}
use mathlib.Core.List.{append_assoc}
use hy_link.Prelude.{
  List, ℕ, zero, suc, ◌*◌, ◌/◌, ◌≡◌, refl, sym, ap, ◌∙◌, Bool, true, not, [], ◌∷◌, ◌++◌, if-intro,
  mul64,
}

module _ (has_controller : Bool) (nranks : ℕ) where
  -- Calls that register no dense buffer.
  abbrev pub IsSilent : List SegmentCall → Type 0
  IsSilent calls = callbacks has_controller nranks calls ≡ []

  callbacks-append :
      (x y : List SegmentCall)
      → callbacks has_controller nranks (x ++ y)
        ≡ callbacks has_controller nranks x ++ callbacks has_controller nranks y
  unfolding callbacks
  callbacks-append [] y = refl
  callbacks-append (on_stream call ∷ x) y = callbacks-append x y
  callbacks-append (fast_whole count ∷ x) y = callbacks-append x y
  callbacks-append (fast_segments count stride ∷ x) y = callbacks-append x y
  callbacks-append (fast_dense count ∷ x) y = callbacks-append x y
  callbacks-append (pcie_whole count ∷ x) y = callbacks-append x y
  callbacks-append (pcie_segments count stride ∷ x) y = callbacks-append x y
  callbacks-append (pack to from bytes ∷ x) y = callbacks-append x y
  callbacks-append (merge to from bytes ∷ x) y = callbacks-append x y
  callbacks-append (allocate_dense bytes ∷ x) y = callbacks-append x y
  callbacks-append (free ∷ x) y = callbacks-append x y
  callbacks-append (free_async ∷ x) y = callbacks-append x y
  callbacks-append (register_dense plan f p owned ∷ x) y =
      ap (λ z. synchronized_merge has_controller nranks plan.fast_bytes plan.pcie_bytes owned ++ z)
        (callbacks-append x y)
      ∙ sym (
          append_assoc
            (synchronized_merge has_controller nranks plan.fast_bytes plan.pcie_bytes owned)
            (callbacks has_controller nranks x) (callbacks has_controller nranks y))

  pub callbacks-skip :
      (a b : List SegmentCall)
      → IsSilent a
      → callbacks has_controller nranks (a ++ b) ≡ callbacks has_controller nranks b
  callbacks-skip a b h = callbacks-append a b ∙ ap (λ x. x ++ callbacks has_controller nranks b) h

  pub append-IsSilent : (a b : List SegmentCall) → IsSilent a → IsSilent b → IsSilent (a ++ b)
  append-IsSilent a b h k = callbacks-skip a b h ∙ k

  pub on_streams-IsSilent : (calls : List Call) → IsSilent (on_streams calls)
  unfolding callbacks
  on_streams-IsSilent [] = refl
  on_streams-IsSilent (call ∷ calls) = on_streams-IsSilent calls

  pub segments_waits-IsSilent :
      (env : Environment) (plan : Plan) → IsSilent (segments_waits env plan)
  unfolding segments_waits
  segments_waits-IsSilent env plan =
      append-IsSilent (on_streams (pcie_complete_on_user_stream_if_needed env plan))
        (on_streams (sync_pcie_stream_before_callback_if_enabled env plan))
        (on_streams-IsSilent (pcie_complete_on_user_stream_if_needed env plan))
        (on_streams-IsSilent (sync_pcie_stream_before_callback_if_enabled env plan))

  pub dense_calls-IsSilent : (ws : Workspace) (bytes : ℕ) → IsSilent (dense_calls ws bytes)
  unfolding dense_calls callbacks
  dense_calls-IsSilent ws bytes = if-intro IsSilent (owns_dense ws bytes) (λ u. refl) (λ u. refl)

  pub pack_calls-IsSilent : (n f s : ℕ) → IsSilent (pack_calls n f s)
  unfolding pack_calls callbacks
  pack_calls-IsSilent zero f s = refl
  pack_calls-IsSilent (suc n) f s =
      append-IsSilent (pack_calls n f s) (pack (n * f) (n * s) f ∷ []) (pack_calls-IsSilent n f s)
        refl

  pub segments_fallback-IsSilent :
      (env : Environment) (count : ℕ) (plan : Plan) → IsSilent (segments_fallback env count plan).1
  unfolding segments_fallback callbacks
  segments_fallback-IsSilent env count plan =
      on_streams-IsSilent (register_calls plan (is_ok env.fast_result) true)

  pub segments_fast_only-IsSilent :
      (env : Environment) (count : ℕ) (plan : Plan) → IsSilent (segments_fast_only env count plan).1
  unfolding segments_fast_only callbacks
  segments_fast_only-IsSilent env count plan =
      if-intro (λ (x : BackendResult × List SegmentCall). IsSilent x.1) (not env.fast_only_bw_log)
        (λ u. refl) (λ u. on_streams-IsSilent (register_calls plan (is_ok env.fast_result) true))

  pub to_all_pcie_only-IsSilent :
      (env : Environment) (ws : Workspace) (count : ℕ) (plan : Plan)
      → IsSilent (to_all_pcie_only env ws count plan).1
  unfolding to_all_pcie_only callbacks
  to_all_pcie_only-IsSilent env ws count plan =
      callbacks-skip (segments_waits env plan)
        (joined (on_streams (register_calls plan true (is_ok env.pcie_result)) ∷ []))
        (segments_waits-IsSilent env plan)
      ∙ append-IsSilent (on_streams (register_calls plan true (is_ok env.pcie_result))) []
          (on_streams-IsSilent (register_calls plan true (is_ok env.pcie_result))) refl

  pub to_all_segments-IsSilent :
      (env : Environment) (ws : Workspace) (count : ℕ) (plan : Plan)
      → IsSilent (to_all_segments env ws count plan).1
  unfolding to_all_segments segments_registered callbacks
  to_all_segments-IsSilent env ws count plan =
      let calls = register_calls plan (is_ok env.fast_result) (is_ok env.pcie_result) in
      callbacks-skip (segments_waits env plan) (joined (on_streams calls ∷ []))
        (segments_waits-IsSilent env plan)
      ∙ append-IsSilent (on_streams calls) [] (on_streams-IsSilent calls) refl

  -- The dense buffer of AllToAll is merged by the callback.
  pub to_all_dense-callbacks :
      (env : Environment) (ws : Workspace) (count : ℕ) (plan : Plan)
      → has_dense ws (mul64 ws.nranks plan.fast_bytes) ≡ true
      → callbacks has_controller nranks (to_all_dense env ws count plan).1
        ≡ synchronized_merge has_controller nranks plan.fast_bytes plan.pcie_bytes
            (owns_dense ws (mul64 ws.nranks plan.fast_bytes))
          ++ []
  unfolding to_all_dense dense_registered callbacks
  to_all_dense-callbacks env ws count plan dense =
      let pack_bytes = mul64 ws.nranks plan.fast_bytes in
      let first = dense_calls ws pack_bytes in
      let packs = pack_calls ws.nranks plan.fast_bytes (count * env.elem_size) in
      let fe = plan.fast_bytes / env.elem_size in
      let last = dense_registered env plan (owns_dense ws pack_bytes) in
      let transfers : List (List SegmentCall) =
        timed fast (fast_dense fe)
        ∷ on_streams (begin_submission ∷ [])
        ∷ timed pcie (pcie_segments (mul64 count ws.nranks) fe)
        ∷ segments_waits env plan
        ∷ last
        ∷ [] in
      rw dense (
        callbacks-skip first (joined (packs ∷ transfers)) (dense_calls-IsSilent ws pack_bytes)
        ∙ callbacks-skip packs (joined transfers)
            (pack_calls-IsSilent ws.nranks plan.fast_bytes (count * env.elem_size))
        ∙ callbacks-skip (segments_waits env plan) (joined (last ∷ []))
            (segments_waits-IsSilent env plan))
