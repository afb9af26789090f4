-- ===== src/Virtual/Parts.antt =====
-- multipath-orchestrator/libampccl/core/virtual_collective.h: which elements AllReduce hands to which
-- backend.
use hy_link.Virtual.Shares.{split_parts, aligned_parts}
use hy_link.Floats.{Double, DoubleLaws}
use hy_link.Planner.Split.{IsExact, create_plan-IsExact}
use hy_link.Prelude.{
  ℕ, ◌+◌, ◌*◌, ◌/◌, ◌%◌, ◌≤◌, ◌<◌, ◌≡◌, refl, ap, List, [], ◌∷◌, ◌++◌, arith, ◌⊎◌, true, inl, inr,
  Bool, false, ltb, if◌then◌else◌, Bool-cases, ◌^◌, ◌==◌, ◌&&◌, not, if-intro,
}
use hy_link.Planner.{Plan, PlanConfig, create_plan}
use hy_link.Virtual.{
  Call, start_timer, stop_timer, synchronize, begin_submission, input_ready, input_wait,
  complete_write, complete_wait, event_wait, fast_all_reduce, pcie_all_reduce, register_pending,
  attach_timers, enqueue_callback, Environment, pcie_wait_for_user_input_if_needed,
  pcie_complete_on_user_stream_if_needed, sync_pcie_stream_before_callback_if_enabled, launch,
  is_ok, register_calls, launch_fast_only, launch_parts, launch_both, force_fast_only,
  supported_plan, all_reduce, BackendResult,
}
use native.Mathlib.Nat.{div-le_self}

-- The parts of the buffer that the backends are given: a first byte and a number of elements.
unfoldable pub parts_of : List Call → List (ℕ × ℕ)
parts_of [] = []
parts_of (fast_all_reduce n ∷ calls) = (0, n) ∷ parts_of calls
parts_of (pcie_all_reduce offset n ∷ calls) = (offset, n) ∷ parts_of calls
parts_of (_ ∷ calls) = parts_of calls

-- The parts follow each other from element `at` to element `count`.
abbrev pub IsSplit : (elem_size count at : ℕ) → List (ℕ × ℕ) → Type 0
IsSplit es count at [] = at ≡ count
IsSplit es count at ((offset, n) ∷ parts) = (offset ≡ at * es) × IsSplit es count (at + n) parts

parts_of-append : (a b : List Call) → parts_of (a ++ b) ≡ parts_of a ++ parts_of b
unfolding parts_of
parts_of-append [] b = refl
parts_of-append (start_timer t ∷ a) b = parts_of-append a b
parts_of-append (stop_timer t ∷ a) b = parts_of-append a b
parts_of-append (synchronize t ∷ a) b = parts_of-append a b
parts_of-append (begin_submission ∷ a) b = parts_of-append a b
parts_of-append (input_ready ∷ a) b = parts_of-append a b
parts_of-append (input_wait ∷ a) b = parts_of-append a b
parts_of-append (complete_write ∷ a) b = parts_of-append a b
parts_of-append (complete_wait ∷ a) b = parts_of-append a b
parts_of-append (event_wait ∷ a) b = parts_of-append a b
parts_of-append (fast_all_reduce n ∷ a) b = ap (λ p. (0, n) ∷ p) (parts_of-append a b)
parts_of-append (pcie_all_reduce offset n ∷ a) b = ap (λ p. (offset, n) ∷ p) (parts_of-append a b)
parts_of-append (register_pending p f g ∷ a) b = parts_of-append a b
parts_of-append (attach_timers ∷ a) b = parts_of-append a b
parts_of-append (enqueue_callback ∷ a) b = parts_of-append a b

parts_of-wait : (env : Environment) → parts_of (pcie_wait_for_user_input_if_needed env).1 ≡ []
unfolding parts_of pcie_wait_for_user_input_if_needed
parts_of-wait env = ground arith

parts_of_complete :
    (env : Environment) (plan : Plan)
    → parts_of (pcie_complete_on_user_stream_if_needed env plan) ≡ []
unfolding parts_of pcie_complete_on_user_stream_if_needed
parts_of_complete env plan = ground arith

parts_of-sync :
    (env : Environment) (plan : Plan)
    → parts_of (sync_pcie_stream_before_callback_if_enabled env plan) ≡ []
unfolding parts_of sync_pcie_stream_before_callback_if_enabled
parts_of-sync env plan = ground arith

-- The parts of a plan, the fast one first.
abbrev plan_parts : ℕ → Plan → List (ℕ × ℕ)
plan_parts es plan =
    (if ltb 0 plan.fast_bytes then (0, plan.fast_bytes / es) ∷ [] else [])
    ++ (if ltb 0 plan.pcie_bytes then (plan.fast_bytes, plan.pcie_bytes / es) ∷ [] else [])

parts_of-register : (plan : Plan) (f g : Bool) → parts_of (register_calls plan f g) ≡ []
unfolding parts_of
parts_of-register plan f g = refl

parts_of-launch_parts :
    (env : Environment) (plan : Plan)
    → parts_of (launch_parts env plan).1 ≡ plan_parts env.elem_size plan
unfolding parts_of launch_parts
parts_of-launch_parts env plan =
    let c = parts_of_complete env plan in
    let s = parts_of-sync env plan in
    let after : (f g : Bool)
        → parts_of (
            pcie_complete_on_user_stream_if_needed env plan
            ++ sync_pcie_stream_before_callback_if_enabled env plan
            ++ register_calls plan f g)
          ≡ [] =
      λ f g. rw (parts_of-append, parts_of-append, c, s) refl in
    ground (arith, after)

parts_of-launch_both :
    (env : Environment) (plan : Plan)
    → (parts_of (launch_both env plan).1 ≡ plan_parts env.elem_size plan)
      ⊎ ((parts_of (launch_both env plan).1 ≡ []) × (is_ok (launch_both env plan).0 ≡ false))
unfolding parts_of launch_both is_ok
parts_of-launch_both env plan =
    let w = parts_of-wait env in
    elim (Bool-cases (pcie_wait_for_user_input_if_needed env).0) [
      | inl t ↦ inl (rw (t, parts_of-append, w) (parts_of-launch_parts env plan))
      | inr t ↦ inr (rw t (w, refl))
    ]

parts_of-launch_fast_only :
    (env : Environment) (count : ℕ) (plan : Plan)
    → parts_of (launch_fast_only env count plan).1 ≡ (0, count) ∷ []
unfolding parts_of launch_fast_only
parts_of-launch_fast_only env count plan = ground arith

-- A launch hands the whole message to the fast backend, or the two parts of the plan to the two
-- backends, unless the streams could not be ordered, when no backend is called.
parts_of-launch :
    (env : Environment) (count : ℕ) (plan : Plan)
    → (parts_of (launch env count plan).1 ≡ (0, count) ∷ [])
      ⊎ ((plan.use_pcie ≡ true)
          × (parts_of (launch env count plan).1 ≡ plan_parts env.elem_size plan))
      ⊎ ((parts_of (launch env count plan).1 ≡ []) × (is_ok (launch env count plan).0 ≡ false))
unfolding launch
parts_of-launch env count plan =
    let alone = parts_of-launch_fast_only env count plan in
    let both = parts_of-launch_both env plan in ground (arith, alone, both)

plan_parts-IsSplit :
    (min_chunk es count : ℕ) (plan : Plan)
    → 0 < es
    → 128 % es ≡ 0
    → IsExact min_chunk (count * es) plan
    → IsSplit es count 0 (plan_parts es plan)
plan_parts-IsSplit min_chunk es count plan nz whole exact =
    let (q, aligned) = aligned_parts es plan.fast_bytes whole exact.1 in
    let (first, both) = split_parts es count q plan.fast_bytes plan.pcie_bytes nz aligned exact.0 in
    let some_pcie : ltb 0 plan.pcie_bytes ≡ true = ground (arith, exact) in
    elim (Bool-cases (ltb 0 plan.fast_bytes)) [
      | inl t ↦ rw (t, some_pcie) (omega arith, (omega (arith, first), omega (arith, both)))
      | inr t ↦
          let none_fast : plan.fast_bytes ≡ 0 = ground arith in
          let z : 0 / es ≤ 0 = div-le_self 0 es in
          let e : plan.fast_bytes / es ≡ 0 / es = ap (λ x. x / es) none_fast in
          rw (t, some_pcie) (omega (arith, none_fast), omega (arith, e, z, both))
    ]

-- A launch either makes no call of a backend and fails, or splits the elements.
abbrev pub IsLaunch : Environment → ℕ → BackendResult × List Call → Type 0
IsLaunch env count r =
    IsSplit env.elem_size count 0 (parts_of r.1) ⊎ ((parts_of r.1 ≡ []) × (is_ok r.0 ≡ false))

launch-IsLaunch :
    (min_chunk : ℕ) (env : Environment) (count : ℕ) (plan : Plan)
    → (plan.use_pcie ≡ true → IsExact min_chunk (count * env.elem_size) plan)
    → 0 < env.elem_size
    → 128 % env.elem_size ≡ 0
    → IsLaunch env count (launch env count plan)
launch-IsLaunch min_chunk env count plan exact nz whole = elim (parts_of-launch env count plan) [
  | inl one ↦ inl (rw one (omega arith, omega arith))
  | inr (inl two) ↦
      inl
        (rw (two.1) (plan_parts-IsSplit min_chunk env.elem_size count plan nz whole (exact two.0)))
  | inr (inr refused) ↦ inr refused
]

module _ (d : Double) (laws : DoubleLaws d) where
  -- For a message of at most 2^53 bytes in elements of a size that divides 128, any alpha that is a
  -- number and minimal chunks of at least 128 bytes, AllReduce with the plan for the message hands
  -- every element to exactly one backend, in consecutive parts, unless no backend is called and the
  -- result is an error.
  pub all_reduce-create_plan :
      (cfg : PlanConfig) (alpha : d.F) (hint : Bool) (env : Environment) (count : ℕ)
      → d.is_nan alpha ≡ false
      → count * env.elem_size ≤ 2 ^ 53
      → 128 ≤ cfg.min_chunk_size
      → 0 < env.elem_size
      → 128 % env.elem_size ≡ 0
      → IsLaunch env count
          (all_reduce env count (create_plan d cfg (count * env.elem_size) alpha hint))
  unfolding all_reduce supported_plan force_fast_only
  all_reduce-create_plan cfg alpha hint env count num small chunk nz whole =
      let total = count * env.elem_size in
      let plan = create_plan d cfg total alpha hint in
      let exact : (supported_plan env count plan).use_pcie ≡ true
          → IsExact cfg.min_chunk_size total (supported_plan env count plan) =
        if-intro (λ (p : Plan). p.use_pcie ≡ true → IsExact cfg.min_chunk_size total p)
          (plan.use_pcie && not env.supports_collective) (λ _ u. absurd (cc))
          (λ _ u. create_plan-IsExact d laws cfg total alpha hint num small chunk u) in
      if-intro (IsLaunch env count) (env.elem_size == 0) (λ t. absurd (ground (arith, t)))
        (λ _.
          launch-IsLaunch cfg.min_chunk_size env count (supported_plan env count plan) exact nz
            whole)
