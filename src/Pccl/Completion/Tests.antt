-- ===== src/Pccl/Completion/Tests.antt =====
-- Runs of the completion flag, and the theorems about it at concrete inputs.
use hy_link.Prelude.Int.{pos}
use hy_link.Pccl.Completion.{
  Stream, user_stream, Call, launch_kernel, CompletionFlag, constructed, slot_count_from_env,
  valid_slot, initialize_slots, or_release, allocate, initialize, prepare_user_wait,
  wait_done_event,
}
use hy_link.Pccl.Completion.Order.{
  keeps_behind, last_wait, after_calls, prepare_user_wait-keeps_behind,
}
use hy_link.Prelude.{List, ◌≡◌, refl, Bool, true, false, some, [], ◌++◌, ◌==◌}

-- A runtime that accepts every call, and one that refuses the kernels.
abbrev always : List Call → Call → Bool
always history call = true

abbrev no_kernels : List Call → Call → Bool
no_kernels history call = elim call [ launch_kernel s i seq ↦ false | _ ↦ true ]

-- A flag of two slots that is set up; slot 1 is in use again.
abbrev flag : Bool → CompletionFlag
flag mem_ops = record {
  initialized = true;
  multi_process = false;
  use_stream_mem_ops = mem_ops;
  flush_remote_writes = false;
  compat_seq = 0;
  queue_depth = 2;
  slots = λ i. record {
    ready_seq = 2;
    complete_seq = 2;
    prepared_seq = 2;
    wait_done_recorded = i == 1;
  };
  issued = [];
}

abbrev user : Stream
user = user_stream 7

kernel_refused : (prepare_user_wait no_kernels (pos 0) user 3 (flag false)).0 ≡ false
unfolding prepare_user_wait
kernel_refused = refl

third_slot : prepare_user_wait always (pos 2) user 3 (flag true) ≡ (false, flag true)
unfolding prepare_user_wait
third_slot = refl

first_setup :
    (initialize always false (some (pos 20)) false true true constructed).1.queue_depth ≡ 16
unfolding initialize allocate slot_count_from_env constructed initialize_slots or_release
first_setup = refl

prepare_user_wait-keeps_behind_example :
    (made : List Call) × (((prepare_user_wait always (pos 1) user 3 (flag false)).1).issued
      ≡ [] ++ made)
    × (keeps_behind 1 (last_wait 1) made ≡ true)
    × ((prepare_user_wait always (pos 1) user 3 (flag false)).0 ≡ true
        → ((after_calls (last_wait 1) made).streams user ≡ true)
          × ((after_calls (last_wait 1) made).events (wait_done_event 1) ≡ true))
prepare_user_wait-keeps_behind_example =
    prepare_user_wait-keeps_behind always (flag false) 1 7 3 (unfold valid_slot in refl) refl
