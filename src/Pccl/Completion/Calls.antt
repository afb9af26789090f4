-- ===== src/Pccl/Completion/Calls.antt =====
-- pcie-ccl-cuda/src/memory/completion_flag.cpp: the calls that prepareUserWait makes, in order.
use hy_link.Prelude.Int.{pos}
use hy_link.Prelude.{
  List, ℕ, Bool, true, ◌≡◌, refl, false, [], ◌++◌, arith, if◌then◌else◌, inl, inr, Bool-cases,
}
use hy_link.Pccl.Completion.{
  Call, prepare_user_wait, Stream, prepare_slot, ◌∷◌, record_event, CompletionFlag, wait_for_reuse,
  reset_stream, reset_event, wait_done_event, wait_event, write_ready_seq, wait_complete_seq,
  copy_zero, launch_kernel, valid_slot, prepare_by_value, prepare_by_kernel, ◌>>◌, update_slot,
}

-- Make the calls of a list in order after a history, up to the first that is refused.
abbrev pub run_calls : (List Call → Call → Bool) → List Call → List Call → Bool × List Call
run_calls accepts history [] = (true, history)
run_calls accepts history (c ∷ cs) =
    if accepts history c
    then run_calls accepts (history ++ c ∷ []) cs
    else (false, history ++ c ∷ [])

-- The wait for the last use of the slot, if there was one.
abbrev pub reuse_calls : Bool → ℕ → List Call
reuse_calls recorded i = if recorded then wait_event reset_stream (wait_done_event i) ∷ [] else []

-- The order of the calls for a slot: the reset stream waits for the last use, the user stream for
-- the reset stream; then the user stream reports that it is ready, waits, and marks the slot free.
abbrev pub wait_calls : Bool → ℕ → Stream → ℕ → List Call
wait_calls true i user seq =
    record_event (reset_event i) reset_stream
    ∷ wait_event user (reset_event i)
    ∷ write_ready_seq user i seq
    ∷ wait_complete_seq user i seq
    ∷ record_event (wait_done_event i) user
    ∷ []
wait_calls false i user seq =
    copy_zero reset_stream i
    ∷ record_event (reset_event i) reset_stream
    ∷ wait_event user (reset_event i)
    ∷ launch_kernel user i seq
    ∷ record_event (wait_done_event i) user
    ∷ []

run_calls-append :
    (accepts : List Call → Call → Bool) (history xs ys : List Call)
    → run_calls accepts history (xs ++ ys) ≡ (
        let (ok, after) = run_calls accepts history xs in
        if ok then run_calls accepts after ys else (false, after))
run_calls-append accepts history [] ys = refl
run_calls-append accepts history (x ∷ xs) ys =
    ground (arith, run_calls-append accepts (history ++ x ∷ []) xs ys)

module _ (accepts : List Call → Call → Bool) (i : ℕ) (user : Stream) (seq : ℕ)
    (f : CompletionFlag) where
  -- The result of a call and the history that it leaves.
  abbrev outcome : Bool × CompletionFlag → Bool × List Call
  outcome r = (r.0, (r.1).issued)

  prepare_by_value-calls :
      outcome (prepare_by_value accepts i user seq f)
      ≡ run_calls accepts f.issued (wait_calls true i user seq)
  unfolding prepare_by_value
  prepare_by_value-calls = ground arith

  prepare_by_kernel-calls :
      outcome (prepare_by_kernel accepts i user seq f)
      ≡ run_calls accepts f.issued (wait_calls false i user seq)
  unfolding prepare_by_kernel
  prepare_by_kernel-calls = ground arith

module _ (accepts : List Call → Call → Bool) (i : ℕ) (user : Stream) (seq : ℕ)
    (f : CompletionFlag) where
  -- What follows the wait for the last use.
  abbrev prepare_rest : Bool × CompletionFlag
  prepare_rest =
      (update_slot i (λ s. record s { ready_seq = 0; prepared_seq = seq }) >> λ g.
      if g.use_stream_mem_ops
      then prepare_by_value accepts i user seq g
      else prepare_by_kernel accepts i user seq g)
        f

  prepare_rest-calls :
      ((prepare_rest).0, ((prepare_rest).1).issued)
      ≡ run_calls accepts f.issued (wait_calls f.use_stream_mem_ops i user seq)
  prepare_rest-calls = by_way f.use_stream_mem_ops
    where
      after : CompletionFlag
      after = (update_slot i (λ s. record s { ready_seq = 0; prepared_seq = seq }) f).1

      by_way :
          (b : Bool)
          → (let r =
                if b
                then prepare_by_value accepts i user seq after
                else prepare_by_kernel accepts i user seq after in
              (r.0, (r.1).issued))
            ≡ run_calls accepts f.issued (wait_calls b i user seq)
      by_way true = prepare_by_value-calls accepts i user seq after
      by_way false = prepare_by_kernel-calls accepts i user seq after

-- On a valid slot, prepareUserWait makes exactly these calls of the device runtime in this order, up
-- to the first that is refused, and succeeds exactly if none is: the wait for the slot's last use if
-- there was one, and then the reset, the report and the wait in the way that the flag is set up for.
pub prepare_user_wait-calls :
    (accepts : List Call → Call → Bool) (f : CompletionFlag) (i : ℕ) (user : Stream) (seq : ℕ)
    → valid_slot f (pos i) ≡ true
    → let r = prepare_user_wait accepts (pos i) user seq f in
      (r.0, (r.1).issued)
      ≡ run_calls accepts f.issued (
          reuse_calls (f.slots i).wait_done_recorded i
          ++ wait_calls f.use_stream_mem_ops i user seq)
unfolding prepare_user_wait prepare_slot wait_for_reuse
prepare_user_wait-calls accepts f i user seq v =
    rw v (elim (Bool-cases (f.slots i).wait_done_recorded) [
      | inl t ↦
          rw t (elim (Bool-cases (accepts f.issued (wait_event reset_stream (wait_done_event i)))) [
            | inl a ↦ rw a (
                prepare_rest-calls accepts i user seq (record f {
                  issued = f.issued ++ wait_event reset_stream (wait_done_event i) ∷ [];
                }))
            | inr a ↦ rw a
          ])
      | inr t ↦ rw t (prepare_rest-calls accepts i user seq f)
    ])
