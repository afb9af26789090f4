-- ===== src/Pccl/Completion.antt =====
-- pcie-ccl-cuda/src/memory/completion_flag.cpp: by which the executor learns that a user stream has
-- reached a collective, and the stream that the collective is done. `issued` is the history of the
-- calls of the device runtime, and `accepts` answers each call after a history: true for devSuccess.
-- A function that returns 0 or -1 returns true or false here, with the flag that it leaves. Debug
-- output and the names of kernels are left out, and no sequence number reaches 2 ^ 64.
mod State
pub mod Calls
pub mod Order
mod Slots
mod Tests
pub use hy_link.Pccl.Completion.State.{
  Stream, reset_stream, signal_stream, user_stream, Event, reset_event, wait_done_event, Call,
  malloc_host_zero, malloc_host_one, free_host_zero, free_host_one, create_stream, destroy_stream,
  synchronize_stream, malloc_flag, malloc_complete_seq, malloc_ready_seq, create_event,
  record_event, wait_event, write_ready_seq, wait_complete_seq, copy_zero, copy_one, launch_kernel,
  Slot, CompletionFlag,
}
use hy_link.Prelude.{
  ℕ, ◌+◌, zero, suc, max, min, leb, ltb, ◌==◌, Bool, true, false, ◌&&◌, not, Option, none, some,
  List, [], ◌∷◌, ◌++◌, if◌then◌else◌,
}
use hy_link.Prelude.Int.{ℤ, pos, negsuc, is_nonneg, int_lt, to_nat}

abbrev pub queue_depth_default : ℕ
queue_depth_default = 16

abbrev pub queue_depth_max : ℕ
queue_depth_max = 16

pub constructed : CompletionFlag
constructed = record {
  initialized = false;
  multi_process = false;
  use_stream_mem_ops = false;
  flush_remote_writes = false;
  compat_seq = 0;
  queue_depth = queue_depth_default;
  slots =
      λ i. record { ready_seq = 0; complete_seq = 0; prepared_seq = 0; wait_done_recorded = false };
  issued = [];
}

-- A step that may fail, and the steps after it, which a failure skips.
abbrev pub Attempt : Type 0
Attempt = CompletionFlag → Bool × CompletionFlag

infixr 6 ◌>>◌
abbrev pub ◌>>◌ : Attempt → Attempt → Attempt
(m >> k) f = let (ok, g) = m f in if ok then k g else (false, g)

-- A change of one slot's words, which cannot fail.
abbrev pub update_slot : ℕ → (Slot → Slot) → Attempt
update_slot i change f =
    (true, record f { slots = λ j. if j == i then change (f.slots j) else f.slots j })

-- The depth that the environment variable asks for, if it holds a number.
unfoldable pub slot_count_from_env : Option ℤ → ℕ
slot_count_from_env none = queue_depth_default
slot_count_from_env (some (negsuc parsed)) = queue_depth_default
slot_count_from_env (some (pos parsed)) =
    if parsed == 0 then queue_depth_default else max 1 (min queue_depth_max parsed)

unfoldable pub valid_slot : CompletionFlag → ℤ → Bool
valid_slot f slot = f.initialized && is_nonneg slot && int_lt slot (pos f.queue_depth)

unfoldable pub ready_sequence : CompletionFlag → ℤ → ℕ
unfolding valid_slot
ready_sequence f slot = if valid_slot f slot then (f.slots (to_nat slot)).ready_seq else 0

unfoldable pub is_ready : CompletionFlag → ℤ → ℕ → Bool
unfolding ready_sequence
is_ready f slot work_seq = ready_sequence f slot == work_seq

module _ (accepts : List Call → Call → Bool) where
  abbrev pub issue : Call → Attempt
  issue c f = (accepts f.issued c, record f { issued = f.issued ++ c ∷ [] })

  -- A call whose status is not looked at.
  abbrev pub issue_ignored : Call → Attempt
  issue_ignored c f = (true, record f { issued = f.issued ++ c ∷ [] })

  -- The first use of the mapped words by memory operations; a failure is only logged.
  pub warm_up : ℕ → Attempt
  warm_up i f =
      let (ok, g) =
        (issue (write_ready_seq reset_stream i 0) >> issue (wait_complete_seq reset_stream i 0))
          f in
      if f.use_stream_mem_ops then (true, g) else (true, f)

  pub initialize_slot : ℕ → Attempt
  unfolding warm_up
  initialize_slot i =
      issue (malloc_flag i)
      >> issue (malloc_complete_seq i)
      >> update_slot i (λ s. record s { complete_seq = 0 })
      >> issue (malloc_ready_seq i)
      >> update_slot i (λ s. record s { ready_seq = 0 })
      >> issue (create_event (reset_event i))
      >> issue (create_event (wait_done_event i))
      >> issue (copy_zero reset_stream i)
      >> issue (record_event (wait_done_event i) reset_stream)
      >> update_slot i (λ s. record s { wait_done_recorded = true })
      >> warm_up i

  -- The loop over the slots i, i + 1, ..., `n` of them.
  pub initialize_slots : ℕ → ℕ → Attempt
  unfolding initialize_slot
  initialize_slots zero i f = (true, f)
  initialize_slots (suc n) i f = (initialize_slot i >> initialize_slots n (suc i)) f

  -- `m`, and where it fails the calls that release what was allocated before.
  pub or_release : Attempt → List Call → Attempt
  or_release m calls f =
      let (ok, g) = m f in
      if ok then (true, g) else (false, record g { issued = g.issued ++ calls })

  -- The allocations of initialize and the loop over the slots.
  pub allocate : Attempt
  unfolding initialize_slots or_release
  allocate f =
      (issue malloc_host_zero
          >> or_release (issue malloc_host_one) (free_host_zero ∷ [])
          >> or_release (issue (create_stream reset_stream)) (free_host_one ∷ free_host_zero ∷ [])
          >> or_release (issue (create_stream signal_stream))
              (destroy_stream reset_stream ∷ free_host_one ∷ free_host_zero ∷ [])
          >> initialize_slots f.queue_depth 0
          >> issue_ignored (synchronize_stream reset_stream))
        f

  -- Given the two environment variables and what the device can do.
  pub initialize : Bool → Option ℤ → Bool → Bool → Bool → Attempt
  initialize multi_process depth disabled can_mem_ops can_flush f =
      let mem_ops = can_mem_ops && not disabled in
      let start : CompletionFlag = record f {
        multi_process = multi_process;
        queue_depth = slot_count_from_env depth;
        use_stream_mem_ops = mem_ops;
        flush_remote_writes = mem_ops && can_flush;
      } in
      if f.initialized
      then (true, f)
      else (allocate >> λ g. (true, record g { initialized = true })) start

  -- The rest of prepareUserWait with stream memory operations.
  pub prepare_by_value : ℕ → Stream → ℕ → Attempt
  prepare_by_value i user seq =
      issue (record_event (reset_event i) reset_stream)
      >> issue (wait_event user (reset_event i))
      >> issue (write_ready_seq user i seq)
      >> issue (wait_complete_seq user i seq)
      >> issue (record_event (wait_done_event i) user)
      >> update_slot i (λ s. record s { wait_done_recorded = true })

  -- And with the kernel that waits for the device flag.
  pub prepare_by_kernel : ℕ → Stream → ℕ → Attempt
  prepare_by_kernel i user seq =
      issue (copy_zero reset_stream i)
      >> issue (record_event (reset_event i) reset_stream)
      >> issue (wait_event user (reset_event i))
      >> issue (launch_kernel user i seq)
      >> issue (record_event (wait_done_event i) user)
      >> update_slot i (λ s. record s { wait_done_recorded = true })

  -- Order the reset stream behind the last wait of the slot.
  pub wait_for_reuse : ℕ → Attempt
  wait_for_reuse i f =
      if (f.slots i).wait_done_recorded
      then issue (wait_event reset_stream (wait_done_event i)) f
      else (true, f)

  pub prepare_slot : ℕ → Stream → ℕ → Attempt
  unfolding wait_for_reuse prepare_by_value prepare_by_kernel
  prepare_slot i user seq =
      wait_for_reuse i
      >> update_slot i (λ s. record s { ready_seq = 0; prepared_seq = seq })
      >> λ f.
          if f.use_stream_mem_ops
          then prepare_by_value i user seq f
          else prepare_by_kernel i user seq f

  pub prepare_user_wait : ℤ → Stream → ℕ → Attempt
  unfolding prepare_slot valid_slot
  prepare_user_wait slot user seq f =
      if valid_slot f slot then prepare_slot (to_nat slot) user seq f else (false, f)

  pub signal_complete : ℤ → ℕ → Attempt
  unfolding valid_slot
  signal_complete slot seq f =
      if not (valid_slot f slot)
      then (false, f)
      else if f.use_stream_mem_ops
      then update_slot (to_nat slot) (λ s. record s { complete_seq = seq }) f
      else issue (copy_one signal_stream (to_nat slot)) f

  -- signalComplete of a slot, with the sequence number prepared there.
  pub signal_slot : ℤ → Attempt
  unfolding signal_complete valid_slot
  signal_slot slot f =
      let seq = (f.slots (to_nat slot)).prepared_seq in
      if valid_slot f slot then signal_complete slot (if seq == 0 then 1 else seq) f else (false, f)

  -- The calls without a slot use slot 0 and a counter of their own.
  pub enqueue_user_wait : Stream → Attempt
  unfolding prepare_user_wait
  enqueue_user_wait user f =
      prepare_user_wait (pos 0) user (suc f.compat_seq) (record f { compat_seq = suc f.compat_seq })

  pub signal_last : Attempt
  unfolding signal_complete
  signal_last f = signal_complete (pos 0) f.compat_seq f

  pub reset : Attempt
  unfolding wait_for_reuse valid_slot
  reset f =
      if valid_slot f (pos 0)
      then (wait_for_reuse 0
            >> issue (copy_zero reset_stream 0)
            >> issue (record_event (reset_event 0) reset_stream))
          f
      else (false, f)

  pub ensure_reset_visible : Stream → Attempt
  unfolding valid_slot
  ensure_reset_visible user f =
      if valid_slot f (pos 0) then issue (wait_event user (reset_event 0)) f else (false, f)

  pub record_wait_complete : Stream → Attempt
  unfolding valid_slot
  record_wait_complete user f =
      if valid_slot f (pos 0) then issue (record_event (wait_done_event 0) user) f else (false, f)
