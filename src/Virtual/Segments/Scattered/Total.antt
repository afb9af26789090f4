-- ===== src/Virtual/Segments/Scattered/Total.antt =====
-- multipath-orchestrator/libampccl/core/virtual_collective.h: ReduceScatter with the plan of the planner.
use hy_link.Planner.{Plan, PlanConfig, create_plan}
use hy_link.Virtual.{is_ok, Environment, force_fast_only, supported_plan}
use hy_link.Virtual.Shares.{exact-IsShare}
use hy_link.Virtual.Segments.{Workspace, SegmentCall}
use hy_link.Virtual.Segments.Copies.{Buffer, Memory, Transfers, exec, AllIssue}
use hy_link.Virtual.Segments.Scatter.{reduce_scatter}
use hy_link.Virtual.Segments.Outcomes.{IsRight}
use hy_link.Virtual.Segments.Scattered.{ScatterLaws, IsScattered}
use hy_link.Floats.{Double, DoubleLaws}
use hy_link.Planner.Split.{create_plan-IsExact}
use hy_link.Virtual.Segments.Scattered.Branches.{scatter_launch-IsRight}
use hy_link.Prelude.{
  ℕ, ◌*◌, ◌/◌, ◌%◌, ◌^◌, ◌≤◌, ◌<◌, ◌≡◌, refl, Bool, true, false, ◌&&◌, not, arith, ◌==◌, if-intro,
  u64_mod, List,
}

module _ (d : Double) (laws : DoubleLaws d) where
  -- For a segment of at most 2^53 bytes in elements of a size that divides 128, fewer than 2^64 elements
  -- in all, any alpha that is a number, and minimal chunks of at least 128 bytes: if all ranks make
  -- the calls on buffers that this one makes, the backends' calls, when all ranks make them alike,
  -- write what they document, no copy fails, and ReduceScatter with the plan for a segment reports
  -- success, then after its calls the receive buffer holds this rank's segment of the reduced send
  -- buffers, as the backends find them, on every branch.
  pub reduce_scatter-IsScattered :
      {D : Type 0} (t : Transfers D) (reduced : (ℕ → Buffer D) → Buffer D) (send : ℕ → Buffer D)
      (me : ℕ) (env : Environment) (ws : Workspace) (cfg : PlanConfig) (alpha : d.F) (hint : Bool)
      (count : ℕ) (m : Memory D) (issued : ℕ → List SegmentCall)
      → (AllIssue issued ws.nranks
            (reduce_scatter env ws count (create_plan d cfg (count * env.elem_size) alpha hint)).1
          → ScatterLaws t reduced send me env.elem_size ws)
      → AllIssue issued ws.nranks
          (reduce_scatter env ws count (create_plan d cfg (count * env.elem_size) alpha hint)).1
      → d.is_nan alpha ≡ false
      → count * env.elem_size ≤ 2 ^ 53
      → 128 ≤ cfg.min_chunk_size
      → 128 % env.elem_size ≡ 0
      → count * ws.nranks < u64_mod
      → me < ws.nranks
      → is_ok (reduce_scatter env ws count (create_plan d cfg (count * env.elem_size) alpha hint)).0
        ≡ true
      → IsScattered t reduced send me env.elem_size ws count (
          exec t send me
            (reduce_scatter env ws count (create_plan d cfg (count * env.elem_size) alpha hint)).1
            m)
  unfolding reduce_scatter supported_plan force_fast_only is_ok
  reduce_scatter-IsScattered t reduced send me env ws cfg alpha hint count m issued given alike num
        small chunk whole fits below =
      let scatter = given alike in
      let es = env.elem_size in
      let total = count * es in
      let plan = create_plan d cfg total alpha hint in
      if-intro (IsRight t send me (IsScattered t reduced send me es ws count) m) (es == 0)
        (λ _ ok. absurd (cc))
        (λ nz.
          scatter_launch-IsRight t reduced send me es ws scatter env count
            (supported_plan env count plan) m refl
            (if-intro
              (λ (p : Plan).
                p.use_pcie ≡ true
                → (p.fast_bytes ≡ p.fast_bytes / es * es) × (p.fast_bytes / es ≤ count))
              (plan.use_pcie && not env.supports_collective) (λ _ u. absurd (cc))
              (λ _ u.
                let share =
                  exact-IsShare cfg.min_chunk_size es count plan (ground (arith, nz)) whole
                    (create_plan-IsExact d laws cfg total alpha hint num small chunk u) in
                (share.0, share.1)))
            fits below)
