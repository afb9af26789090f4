-- ===== src/Pccl/Completion/Order.antt =====
-- pcie-ccl-cuda/src/memory/completion_flag.cpp: what the order of the calls of prepareUserWait
-- achieves on the streams of the device.
use hy_link.Prelude.{
  ℕ, ◌==◌, Bool, true, false, ◌&&◌, ◌||◌, Option, none, some, List, [], ◌∷◌, ◌++◌, ◌≡◌, refl, sym,
  ap, ◌∙◌, arith, subst, inl, inr, Bool-cases, if◌then◌else◌,
}
use hy_link.Prelude.Int.{pos}
use mathlib.Core.List.{append_assoc, append-nil}
use hy_link.Pccl.Completion.{
  Stream, reset_stream, signal_stream, user_stream, Event, reset_event, wait_done_event, Call,
  record_event, wait_event, write_ready_seq, wait_complete_seq, copy_zero, copy_one, launch_kernel,
  CompletionFlag, valid_slot, prepare_user_wait,
}
use hy_link.Pccl.Completion.Calls.{run_calls, reuse_calls, wait_calls, prepare_user_wait-calls}

abbrev pub stream_eq : Stream → Stream → Bool
stream_eq reset_stream reset_stream = true
stream_eq signal_stream signal_stream = true
stream_eq (user_stream a) (user_stream b) = a == b
stream_eq _ _ = false

abbrev pub event_eq : Event → Event → Bool
event_eq (reset_event a) (reset_event b) = a == b
event_eq (wait_done_event a) (wait_done_event b) = a == b
event_eq _ _ = false

-- The streams whose further work, and the events whose completion, come after one moment.
pub record Behind : Type 0 where
  pub streams : Stream → Bool
  pub events : Event → Bool

-- An event stands for the work before it in its stream, and a wait holds back what follows it.
abbrev pub after_call : Behind → Call → Behind
after_call o (record_event e s) = record o {
  events = λ x. if event_eq e x then o.streams s else o.events x;
}
after_call o (wait_event s e) = record o {
  streams = λ x. if stream_eq s x then o.streams x || o.events e else o.streams x;
}
after_call o _ = o

abbrev pub after_calls : Behind → List Call → Behind
after_calls o [] = o
after_calls o (c ∷ cs) = after_calls (after_call o c) cs

-- The stream on which a call reads or writes the words of slot `i`.
abbrev pub user_of : ℕ → Call → Option Stream
user_of i (write_ready_seq s j v) = if i == j then some s else none
user_of i (wait_complete_seq s j v) = if i == j then some s else none
user_of i (copy_zero s j) = if i == j then some s else none
user_of i (copy_one s j) = if i == j then some s else none
user_of i (launch_kernel s j v) = if i == j then some s else none
user_of i _ = none

-- All work on the words of slot `i` comes after the moment.
abbrev pub keeps_behind : ℕ → Behind → List Call → Bool
keeps_behind i o [] = true
keeps_behind i o (c ∷ cs) =
    elim (user_of i c) [ none ↦ true | some s ↦ o.streams s ] && keeps_behind i (after_call o c) cs

-- The moment at which the slot's last wait is over: so far only its event comes after it.
abbrev pub last_wait : ℕ → Behind
last_wait i = record { streams = λ s. false; events = λ e. event_eq (wait_done_event i) e }

keeps_behind-before :
    (i : ℕ) (o : Behind) (a b : List Call)
    → keeps_behind i o (a ++ b) ≡ true
    → keeps_behind i o a ≡ true
keeps_behind-before i o [] b h = refl
keeps_behind-before i o (c ∷ a) b h = ground (arith, h, keeps_behind-before i (after_call o c) a b)

-- The calls that are made are the first ones, and all of them on success.
run_calls-made :
    (accepts : List Call → Call → Bool) (history cs : List Call)
    → (made left : List Call) × (made ++ left ≡ cs)
      × ((run_calls accepts history cs).1 ≡ history ++ made)
      × ((run_calls accepts history cs).0 ≡ true → made ≡ cs)
run_calls-made accepts history [] = ([], [], refl, sym (append-nil history), λ h. refl)
run_calls-made accepts history (c ∷ cs) =
    let (made, left, whole, kept, all) = run_calls-made accepts (history ++ c ∷ []) cs in
    elim (Bool-cases (accepts history c)) [
      | inl t ↦ rw t (
        c ∷ made,
        left,
        ap (λ x. c ∷ x) whole,
        kept ∙ append_assoc history (c ∷ []) made,
        λ h. ap (λ x. c ∷ x) (all h),
      )
      | inr t ↦ rw t (c ∷ [], cs, refl, refl, λ h. absurd (cc))
    ]

-- The whole sequence keeps the order, and lets the user's stream and the event of this wait follow.
calls_behind :
    (i u seq : ℕ) (mem_ops : Bool)
    → let calls = reuse_calls true i ++ wait_calls mem_ops i (user_stream u) seq in
      let end = after_calls (last_wait i) calls in
      (keeps_behind i (last_wait i) calls ≡ true)
      × (end.streams (user_stream u) ≡ true)
      × (end.events (wait_done_event i) ≡ true)
calls_behind i u seq true = (ground arith, ground arith, ground arith)
calls_behind i u seq false = (ground arith, ground arith, ground arith)

-- On a valid slot whose last wait was recorded, whatever calls of the device runtime are refused: of
-- the calls that prepareUserWait makes, those that read or write the slot's words do so on streams
-- that have been made to follow that last wait, and if it succeeds, the user's stream and the event
-- that it records for the next preparation follow it too.
pub prepare_user_wait-keeps_behind :
    (accepts : List Call → Call → Bool) (f : CompletionFlag) (i u seq : ℕ)
    → valid_slot f (pos i) ≡ true
    → (f.slots i).wait_done_recorded ≡ true
    → let r = prepare_user_wait accepts (pos i) (user_stream u) seq f in
      (made : List Call) × ((r.1).issued ≡ f.issued ++ made)
      × (keeps_behind i (last_wait i) made ≡ true)
      × (r.0 ≡ true
          → ((after_calls (last_wait i) made).streams (user_stream u) ≡ true)
            × ((after_calls (last_wait i) made).events (wait_done_event i) ≡ true))
prepare_user_wait-keeps_behind accepts f i u seq v recorded =
    let mem_ops = f.use_stream_mem_ops in
    let calls : List Call = reuse_calls true i ++ wait_calls mem_ops i (user_stream u) seq in
    let r = prepare_user_wait accepts (pos i) (user_stream u) seq f in
    let same : (r.0, (r.1).issued) ≡ run_calls accepts f.issued calls =
      prepare_user_wait-calls accepts f i (user_stream u) seq v
      ∙ ap
          (λ b.
            run_calls accepts f.issued
              (reuse_calls b i ++ wait_calls mem_ops i (user_stream u) seq))
          recorded in
    let (made, left, whole, kept, all) = run_calls-made accepts f.issued calls in
    let (ordered, user_behind, event_behind) = calls_behind i u seq mem_ops in
    (
      made,
      ap (λ (x : Bool × List Call). x.1) same ∙ kept,
      keeps_behind-before i (last_wait i) made left
          (subst (λ x. keeps_behind i (last_wait i) x ≡ true) (sym whole) ordered),
      λ ok.
          let e : made ≡ calls = all (sym (ap (λ (x : Bool × List Call). x.0) same) ∙ ok) in
          (
            subst (λ x. (after_calls (last_wait i) x).streams (user_stream u) ≡ true) (sym e)
                user_behind,
            subst (λ x. (after_calls (last_wait i) x).events (wait_done_event i) ≡ true) (sym e)
                event_behind,
          ),
    )
