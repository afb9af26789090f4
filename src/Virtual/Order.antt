-- ===== src/Virtual/Order.antt =====
-- multipath-orchestrator/libampccl/core/virtual_collective.h: the waits around a collective on PCIe.
use hy_link.Planner.{Plan}
use hy_link.Virtual.{
  fast, Call, synchronize, input_wait, complete_wait, event_wait, pcie_all_reduce, Environment,
  pcie_wait_for_user_input_if_needed, pcie_complete_on_user_stream_if_needed,
  sync_pcie_stream_before_callback_if_enabled, register_calls, launch_fast_only, launch_parts,
  launch_both, supported_plan, launch, all_reduce,
}
use hy_link.Prelude.{
  List, ℕ, ◌≡◌, refl, ◌∙◌, inl, inr, Bool, true, false, ◌&&◌, ◌||◌, [], ◌∷◌, ◌++◌, arith, ltb, ◌==◌,
  Bool-cases,
}

-- Does each collective on PCIe come after a call that orders it behind the user's stream, and before
-- one that orders the user's stream behind it, of which the device runtime accepted each?
pub is_waited_for : Environment → List Call → Bool
is_waited_for env [] = false
is_waited_for env (complete_wait ∷ calls) = env.complete_wait_ok || is_waited_for env calls
is_waited_for env (event_wait ∷ calls) = env.event_wait_ok || is_waited_for env calls
is_waited_for env (_ ∷ calls) = is_waited_for env calls

pub is_ordered : Environment → Bool → List Call → Bool
unfolding is_waited_for
is_ordered env ready [] = true
is_ordered env ready (input_wait ∷ calls) = is_ordered env (ready || env.input_wait_ok) calls
is_ordered env ready (synchronize fast ∷ calls) = is_ordered env (ready || env.synchronize_ok) calls
is_ordered env ready (pcie_all_reduce offset n ∷ calls) =
    ready && is_waited_for env calls && is_ordered env ready calls
is_ordered env ready (_ ∷ calls) = is_ordered env ready calls

-- The calls after both launches.
abbrev after_calls : Environment → Plan → List Call → List Call
after_calls env plan rest =
    pcie_complete_on_user_stream_if_needed env plan
    ++ sync_pcie_stream_before_callback_if_enabled env plan
    ++ rest

sync_ordered :
    (env : Environment) (plan : Plan) (f g : Bool)
    → is_ordered env true
        (sync_pcie_stream_before_callback_if_enabled env plan ++ register_calls plan f g)
      ≡ true
unfolding is_ordered sync_pcie_stream_before_callback_if_enabled
sync_ordered env plan f g = ground arith

after_ordered :
    (env : Environment) (plan : Plan) (f g : Bool)
    → is_ordered env true (after_calls env plan (register_calls plan f g)) ≡ true
unfolding is_ordered pcie_complete_on_user_stream_if_needed
after_ordered env plan f g = ground (arith, sync_ordered env plan f g)

after_waited_for :
    (env : Environment) (plan : Plan) (rest : List Call)
    → env.event_wait_ok ≡ true
    → (plan.use_pcie && ltb 0 plan.pcie_bytes && env.has_pcie_stream && env.has_user_stream) ≡ true
    → is_waited_for env (after_calls env plan rest) ≡ true
unfolding is_waited_for pcie_complete_on_user_stream_if_needed
after_waited_for env plan rest w h = ground (arith, w)

parts_ordered :
    (env : Environment) (plan : Plan)
    → env.event_wait_ok ≡ true
    → (plan.use_pcie && ltb 0 plan.pcie_bytes && env.has_pcie_stream && env.has_user_stream) ≡ true
    → is_ordered env true (launch_parts env plan).1 ≡ true
unfolding is_ordered is_waited_for launch_parts
parts_ordered env plan w h =
    let waited : (rest : List Call)
        → (plan.use_pcie && ltb 0 plan.pcie_bytes && env.has_pcie_stream && env.has_user_stream)
          ≡ true
        → is_waited_for env (after_calls env plan rest) ≡ true =
      λ rest k. after_waited_for env plan rest w k in
    ground (arith, after_ordered env plan, waited, h)

wait_ordered :
    (env : Environment) (rest : List Call)
    → ((pcie_wait_for_user_input_if_needed env).0 ≡ true
        → (env.has_pcie_stream && env.has_user_stream ≡ true)
          × (is_ordered env false ((pcie_wait_for_user_input_if_needed env).1 ++ rest)
              ≡ is_ordered env true rest))
      × (is_ordered env false (pcie_wait_for_user_input_if_needed env).1 ≡ true)
unfolding is_ordered pcie_wait_for_user_input_if_needed
wait_ordered env rest = (λ h. (ground arith, ground arith), ground arith)

fast_only_ordered :
    (env : Environment) (count : ℕ) (plan : Plan)
    → is_ordered env false (launch_fast_only env count plan).1 ≡ true
unfolding is_ordered launch_fast_only
fast_only_ordered env count plan = ground arith

both_ordered :
    (env : Environment) (plan : Plan)
    → env.event_wait_ok ≡ true
    → plan.use_pcie && ltb 0 plan.pcie_bytes ≡ true
    → is_ordered env false (launch_both env plan).1 ≡ true
unfolding is_ordered launch_both
both_ordered env plan w h =
    let wait = wait_ordered env (launch_parts env plan).1 in
    elim (Bool-cases (pcie_wait_for_user_input_if_needed env).0) [
      | inl t ↦
          let accepted : (plan.use_pcie
                && ltb 0 plan.pcie_bytes
                && env.has_pcie_stream
                && env.has_user_stream)
              ≡ true =
            let streams = (wait.0 t).0 in ground (arith, h, streams) in
          rw t ((wait.0 t).1 ∙ parts_ordered env plan w accepted)
      | inr t ↦ rw t wait.1
    ]

launch_ordered :
    (env : Environment) (count : ℕ) (plan : Plan)
    → env.event_wait_ok ≡ true
    → is_ordered env false (launch env count plan).1 ≡ true
unfolding is_ordered launch
launch_ordered env count plan w =
    let both = both_ordered env plan w in ground (arith, fast_only_ordered env count plan, both)

-- If the timer's wait works whenever it is asked for (its status is dropped), then whatever the other
-- calls answer, a collective on PCIe is only issued after the PCIe stream or the host has been made
-- to wait for the user's stream, and the user's stream is made to wait for it afterwards, by calls
-- that were accepted.
pub all_reduce_ordered :
    (env : Environment) (count : ℕ) (plan : Plan)
    → env.event_wait_ok ≡ true
    → is_ordered env false (all_reduce env count plan).1 ≡ true
unfolding is_ordered all_reduce
all_reduce_ordered env count plan w = elim (Bool-cases (env.elem_size == 0)) [
  | inl t ↦ rw t refl
  | inr t ↦ rw t (launch_ordered env count (supported_plan env count plan) w)
]
