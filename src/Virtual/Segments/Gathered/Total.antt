-- ===== src/Virtual/Segments/Gathered/Total.antt =====
-- multipath-orchestrator/libampccl/core/virtual_collective.h: AllGather with the plan of the planner.
use hy_link.Virtual.Segments.Outcomes.{IsRight}
use hy_link.Virtual.Segments.Gathered.Branches.{gather_launch-IsRight}
use hy_link.Planner.{Plan, PlanConfig, create_plan}
use hy_link.Virtual.{is_ok, Environment, force_fast_only, supported_plan}
use hy_link.Virtual.Shares.{IsShare, exact-IsShare}
use hy_link.Virtual.Segments.{Workspace, SegmentCall}
use hy_link.Virtual.Segments.Copies.{Buffer, Memory, Transfers, exec, AllIssue}
use hy_link.Virtual.Segments.Gather.{all_gather}
use hy_link.Floats.{Double, DoubleLaws}
use hy_link.Planner.Split.{create_plan-IsExact}
use hy_link.Virtual.Segments.Gathered.{GatherLaws, IsGathered}
use hy_link.Prelude.{
  ℕ, ◌*◌, ◌%◌, ◌^◌, ◌≤◌, ◌≡◌, Bool, true, false, ◌&&◌, not, arith, ◌==◌, if-intro, List,
}

module _ (d : Double) (laws : DoubleLaws d) where
  -- For a message of at most 2^53 bytes in elements of a size that divides 128, any alpha that is a
  -- number, and minimal chunks of at least 128 bytes: if all ranks make the calls on buffers that this
  -- one makes, the backends' calls, when all ranks make them alike, write what they document, no copy
  -- fails, and AllGather with the plan for the message reports success, then after its calls the
  -- receive buffer holds the send buffers of all ranks, as the backends find them, one after the
  -- other, on every branch.
  pub all_gather-IsGathered :
      {D : Type 0} (t : Transfers D) (send : ℕ → Buffer D) (me : ℕ) (env : Environment)
      (ws : Workspace) (cfg : PlanConfig) (alpha : d.F) (hint : Bool) (count : ℕ) (m : Memory D)
      (issued : ℕ → List SegmentCall)
      → (AllIssue issued ws.nranks
            (all_gather env ws count (create_plan d cfg (count * env.elem_size) alpha hint)).1
          → GatherLaws t send me env.elem_size ws)
      → AllIssue issued ws.nranks
          (all_gather env ws count (create_plan d cfg (count * env.elem_size) alpha hint)).1
      → d.is_nan alpha ≡ false
      → count * env.elem_size ≤ 2 ^ 53
      → 128 ≤ cfg.min_chunk_size
      → 128 % env.elem_size ≡ 0
      → is_ok (all_gather env ws count (create_plan d cfg (count * env.elem_size) alpha hint)).0
        ≡ true
      → IsGathered t send me env.elem_size ws count (
          exec t send me
            (all_gather env ws count (create_plan d cfg (count * env.elem_size) alpha hint)).1
            m)
  unfolding all_gather supported_plan force_fast_only is_ok
  all_gather-IsGathered t send me env ws cfg alpha hint count m issued given alike num small chunk
        whole =
      let gather = given alike in
      let es = env.elem_size in
      let total = count * es in
      let plan = create_plan d cfg total alpha hint in
      if-intro (IsRight t send me (IsGathered t send me es ws count) m) (es == 0)
        (λ _ ok. absurd (cc))
        (λ nz.
          gather_launch-IsRight t send me es ws gather env count (supported_plan env count plan) m (
            if-intro (λ (p : Plan). p.use_pcie ≡ true → IsShare es count p)
              (plan.use_pcie && not env.supports_collective) (λ _ u. absurd (cc))
              (λ _ u.
                exact-IsShare cfg.min_chunk_size es count plan (ground (arith, nz)) whole
                  (create_plan-IsExact d laws cfg total alpha hint num small chunk u))))
