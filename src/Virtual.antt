-- ===== src/Virtual.antt =====
-- multipath-orchestrator/libampccl/core/virtual_collective.h: AllReduce over both backends, from the
-- plan on that it was given. The calls of the vendor library, of PCIe CCL and of the device runtime
-- are a list in the order in which they are made, and what they answer is an argument: one call makes
-- each at most once. Buffers are offsets in bytes.
pub mod Order
pub mod Shares
pub mod Parts
pub mod Segments
mod Tests
use hy_link.Prelude.Int.{ℤ, pos}
use hy_link.Planner.{Plan}
use hy_link.Prelude.{
  List, ℕ, ◌/◌, Bool, true, false, ◌&&◌, ◌||◌, not, [], ◌∷◌, ◌++◌, ltb, ◌==◌, if◌then◌else◌, mul64,
}

pub data Code : Type 0 where
  success invalid_argument unhandled_error internal_error : Code

-- backend/backend_base.h
pub record BackendResult : Type 0 where
  pub code : Code
  pub original : ℤ

abbrev pub success_result : BackendResult
success_result = record { code = success; original = pos 0 }

pub is_ok : BackendResult → Bool
is_ok r = elim r.code [ success ↦ true | _ ↦ false ]

-- A backend with its stream: the user's for the fast one.
pub data Backend : Type 0 where
  fast pcie : Backend

pub data Call : Type 0 where
  start_timer stop_timer synchronize : Backend → Call
  begin_submission input_ready input_wait complete_write complete_wait event_wait : Call
  fast_all_reduce : (count : ℕ) → Call
  pcie_all_reduce : (offset count : ℕ) → Call
  register_pending : Plan → (fast_ok pcie_ok : Bool) → Call
  attach_timers enqueue_callback : Call

pub record Environment : Type 0 where
  pub elem_size : ℕ
  pub supports_collective : Bool
  pub has_user_stream : Bool
  pub has_pcie_stream : Bool
  pub fast_only_bw_log : Bool
  pub sync_before_callback : Bool
  pub has_submission : Bool
  pub input_ready_ok : Bool
  pub input_wait_ok : Bool
  pub complete_write_ok : Bool
  pub complete_wait_ok : Bool
  pub synchronize_ok : Bool
  -- Timer::WaitEventOnStream has a recorded event and the runtime accepts the wait for it.
  pub event_wait_ok : Bool
  pub fast_result : BackendResult
  pub pcie_result : BackendResult

pub force_fast_only : ℕ → Plan
force_fast_only fast_bytes = record { fast_bytes = fast_bytes; pcie_bytes = 0; use_pcie = false }

-- submission && submission->First() && submission->Second()
abbrev pub both_enqueued : Bool → Bool → Bool → Call → Call → Bool × List Call
both_enqueued has first_ok second_ok first second =
    if not has
    then (false, [])
    else if not first_ok
    then (false, first ∷ [])
    else (second_ok, first ∷ second ∷ [])

pub pcie_wait_for_user_input_if_needed : Environment → Bool × List Call
pcie_wait_for_user_input_if_needed env =
    let r =
      both_enqueued env.has_submission env.input_ready_ok env.input_wait_ok input_ready
        input_wait in
    if not env.has_user_stream || not env.has_pcie_stream
    then (false, [])
    else if r.0
    then r
    else (env.synchronize_ok, r.1 ++ (synchronize fast ∷ []))

pub pcie_complete_on_user_stream_if_needed : Environment → Plan → List Call
pcie_complete_on_user_stream_if_needed env plan =
    let r =
      both_enqueued env.has_submission env.complete_write_ok env.complete_wait_ok complete_write
        complete_wait in
    if plan.use_pcie && ltb 0 plan.pcie_bytes && env.has_pcie_stream && env.has_user_stream
    then if r.0 then r.1 else r.1 ++ (event_wait ∷ [])
    else []

pub sync_pcie_stream_before_callback_if_enabled : Environment → Plan → List Call
sync_pcie_stream_before_callback_if_enabled env plan =
    if not env.sync_before_callback
      || not plan.use_pcie
      || plan.pcie_bytes == 0
      || not env.has_pcie_stream
    then []
    else synchronize pcie ∷ []

-- RegisterStreamPending, AttachTimersToLastStreamPending and EnqueueCollectiveCompletionCallback.
abbrev pub register_calls : Plan → Bool → Bool → List Call
register_calls plan fast_ok pcie_ok =
    register_pending plan fast_ok pcie_ok ∷ attach_timers ∷ enqueue_callback ∷ []

abbrev pub timed_fast : ℕ → List Call
timed_fast count = start_timer fast ∷ fast_all_reduce count ∷ stop_timer fast ∷ []

-- The whole message over the fast backend.
pub launch_fast_only : Environment → ℕ → Plan → BackendResult × List Call
unfolding is_ok
launch_fast_only env count plan =
    if not env.fast_only_bw_log then (env.fast_result, fast_all_reduce count ∷ []) else (
      if is_ok env.fast_result then success_result else env.fast_result,
      timed_fast count ++ register_calls plan (is_ok env.fast_result) true,
    )

-- The last lines of AllReduce.
pub merged_result : BackendResult → BackendResult → BackendResult
unfolding is_ok
merged_result fast_r pcie_r =
    if not (is_ok fast_r) then fast_r else if not (is_ok pcie_r) then pcie_r else success_result

-- A part of the message over each backend; a result is a success where the backend is not called.
pub launch_parts : Environment → Plan → BackendResult × List Call
unfolding is_ok merged_result pcie_complete_on_user_stream_if_needed
    sync_pcie_stream_before_callback_if_enabled
launch_parts env plan =
    let es = env.elem_size in
    let fast_r = if ltb 0 plan.fast_bytes then env.fast_result else success_result in
    let pcie_r = if ltb 0 plan.pcie_bytes then env.pcie_result else success_result in
    (
      merged_result fast_r pcie_r,
      (if ltb 0 plan.fast_bytes then timed_fast (plan.fast_bytes / es) else [])
          ++ (if ltb 0 plan.pcie_bytes
              then start_timer pcie
                ∷ pcie_all_reduce plan.fast_bytes (plan.pcie_bytes / es)
                ∷ stop_timer pcie
                ∷ []
              else [])
          ++ pcie_complete_on_user_stream_if_needed env plan
          ++ sync_pcie_stream_before_callback_if_enabled env plan
          ++ register_calls plan (is_ok fast_r) (is_ok pcie_r),
    )

pub launch_both : Environment → Plan → BackendResult × List Call
unfolding pcie_wait_for_user_input_if_needed launch_parts
launch_both env plan =
    let wait = pcie_wait_for_user_input_if_needed env in
    let parts = launch_parts env plan in
    if not wait.0
    then (record { code = unhandled_error; original = pos 0 }, begin_submission ∷ wait.1)
    else (parts.0, begin_submission ∷ wait.1 ++ parts.1)

-- The plan with PCIe given up where it does not support the datatype and the operation.
pub supported_plan : Environment → ℕ → Plan → Plan
unfolding force_fast_only
supported_plan env count plan =
    if plan.use_pcie && not env.supports_collective
    then force_fast_only (mul64 count env.elem_size)
    else plan

-- The two branches after a plan, lines 223 to 282, of which the last is never reached.
pub launch : Environment → ℕ → Plan → BackendResult × List Call
unfolding launch_fast_only launch_both merged_result is_ok
launch env count plan =
    if not plan.use_pcie || plan.pcie_bytes == 0 || not env.has_pcie_stream
    then launch_fast_only env count plan
    else if plan.use_pcie && ltb 0 plan.pcie_bytes && env.has_pcie_stream
    then launch_both env plan
    else (
      merged_result env.fast_result success_result,
      timed_fast count ++ register_calls plan (is_ok env.fast_result) true,
    )

-- AllReduce of `count` elements, given the plan for them.
pub all_reduce : Environment → ℕ → Plan → BackendResult × List Call
unfolding supported_plan launch
all_reduce env count plan =
    if env.elem_size == 0
    then (record { code = unhandled_error; original = pos 0 }, [])
    else launch env count (supported_plan env count plan)
