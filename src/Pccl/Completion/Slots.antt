-- ===== src/Pccl/Completion/Slots.antt =====
-- pcie-ccl-cuda/src/memory/completion_flag.cpp: what initialize, prepareUserWait and signalComplete
-- leave in the slots.
use hy_link.Prelude.Int.{ℤ, pos, negsuc}
use hy_link.Pccl.Completion.{
  Call, Slot, CompletionFlag, warm_up, initialize_slot, initialize_slots, valid_slot, or_release,
  allocate, initialize, reset_stream, signal_stream, malloc_host_zero, malloc_host_one,
  create_stream, slot_count_from_env, Stream, prepare_by_value, prepare_by_kernel, wait_for_reuse,
  prepare_slot, is_ready, prepare_user_wait, signal_complete, signal_slot,
}
use hy_link.Prelude.{
  List, ℕ, ◌≡◌, ◌≢◌, Bool, true, arith, zero, suc, ◌+◌, ◌≤◌, ◌<◌, refl, inl, inr, false, Option,
  ==_iff, Bool-cases, ◌&&◌, not, none, some, [], ◌∷◌, ◌++◌, ◌∙◌, if◌then◌else◌, if-false, if-true,
}

-- A slot as initialize leaves it.
abbrev pub IsCleared : Slot → Type 0
IsCleared s = (s.ready_seq ≡ 0) × (s.complete_seq ≡ 0) × (s.wait_done_recorded ≡ true)

valid_slot-uninitialized :
    (f : CompletionFlag) (slot : ℤ) → f.initialized ≡ false → valid_slot f slot ≡ false
unfolding valid_slot
valid_slot-uninitialized f slot h = ground arith

valid_slot-eq :
    (g f : CompletionFlag) (slot : ℤ)
    → g.initialized ≡ f.initialized
    → g.queue_depth ≡ f.queue_depth
    → valid_slot g slot ≡ valid_slot f slot
unfolding valid_slot
valid_slot-eq g f slot h k = ground arith

ready_sequence-unready :
    (g : CompletionFlag) (i seq : ℕ)
    → (g.slots i).ready_seq ≡ 0
    → seq ≢ 0
    → is_ready g (pos i) seq ≡ false
unfolding is_ready
ready_sequence-unready g i seq h nz = ground arith

module _ (accepts : List Call → Call → Bool) where
  -- Setting up a slot keeps the depth and the other slots, and clears the slot if it succeeds.
  initialize_slot-IsCleared :
      (i j : ℕ) (f : CompletionFlag)
      → let r = initialize_slot accepts i f in
        ((r.1).queue_depth ≡ f.queue_depth)
        × ((r.1).initialized ≡ f.initialized)
        × ((j ≢ i) → (r.1).slots j ≡ f.slots j)
        × (r.0 ≡ true → IsCleared ((r.1).slots i))
  unfolding initialize_slot warm_up
  initialize_slot-IsCleared i j f = ground arith

  initialize_slots-IsCleared :
      (n i j : ℕ) (f : CompletionFlag)
      → let r = initialize_slots accepts n i f in
        ((r.1).queue_depth ≡ f.queue_depth)
        × ((r.1).initialized ≡ f.initialized)
        × (j < i → (r.1).slots j ≡ f.slots j)
        × (r.0 ≡ true → i ≤ j → j < i + n → IsCleared ((r.1).slots j))
  unfolding initialize_slots
  initialize_slots-IsCleared zero i j f = (refl, refl, λ _. refl, λ _ h k. absurd (omega arith))
  initialize_slots-IsCleared (suc n) i j f =
      let own = initialize_slot-IsCleared i i f in
      let first = initialize_slot-IsCleared i j f in
      let rest = initialize_slots-IsCleared n (suc i) j (initialize_slot accepts i f).1 in
      let at = initialize_slots-IsCleared n (suc i) i (initialize_slot accepts i f).1 in
      elim (Bool-cases (initialize_slot accepts i f).0) [
        | inl t ↦ rw t (ground (arith, ==_iff j i))
        | inr t ↦ rw t (ground arith)
      ]

  allocate-IsCleared :
      (j : ℕ) (f : CompletionFlag)
      → let r = allocate accepts f in
        ((r.1).queue_depth ≡ f.queue_depth)
        × ((r.1).initialized ≡ f.initialized)
        × (r.0 ≡ true → j < f.queue_depth → IsCleared ((r.1).slots j))
  unfolding allocate or_release
  allocate-IsCleared j f =
      let g : CompletionFlag = record f {
        issued =
            (((f.issued ++ malloc_host_zero ∷ []) ++ malloc_host_one ∷ [])
              ++ create_stream reset_stream ∷ [])
            ++ create_stream signal_stream ∷ [];
      } in
      let loop = initialize_slots-IsCleared f.queue_depth 0 j g in ground arith

  slot_count_bounds :
      (depth : Option ℤ) → (1 ≤ slot_count_from_env depth) × (slot_count_from_env depth ≤ 16)
  unfolding slot_count_from_env
  slot_count_bounds none = ground arith
  slot_count_bounds (some (negsuc n)) = ground arith
  slot_count_bounds (some (pos n)) = ground arith

  -- Only a successful initialize sets a flag up; then its depth lies between 1 and 16, and every slot
  -- within it is neither ready nor complete and may be used. After a failure all operations refuse.
  pub initialize-IsCleared :
      (multi_process : Bool) (depth : Option ℤ) (disabled can_mem_ops can_flush : Bool)
      (f : CompletionFlag)
      → f.initialized ≡ false
      → let r = initialize accepts multi_process depth disabled can_mem_ops can_flush f in
        ((r.1).initialized ≡ r.0)
        × (1 ≤ (r.1).queue_depth)
        × ((r.1).queue_depth ≤ 16)
        × (r.0 ≡ true → (j : ℕ) → j < (r.1).queue_depth → IsCleared ((r.1).slots j))
        × (r.0 ≡ false → (slot : ℤ) → valid_slot r.1 slot ≡ false)
  unfolding initialize
  initialize-IsCleared multi_process depth disabled can_mem_ops can_flush f fresh =
      let mem_ops : Bool = can_mem_ops && not disabled in
      let start : CompletionFlag = record f {
        multi_process = multi_process;
        queue_depth = slot_count_from_env depth;
        use_stream_mem_ops = mem_ops;
        flush_remote_writes = mem_ops && can_flush;
      } in
      let bounds = slot_count_bounds depth in
      let kept = allocate-IsCleared 0 start in
      let taken : initialize accepts multi_process depth disabled can_mem_ops can_flush f ≡ (
          if (allocate accepts start).0
          then (true, record (allocate accepts start).1 { initialized = true })
          else (false, (allocate accepts start).1)) =
        if-false _ _ f.initialized fresh in
      rw taken (elim (Bool-cases (allocate accepts start).0) [
        | inl t ↦ rw t (
          refl,
          omega arith,
          omega arith,
          λ _ j h. (allocate-IsCleared j start).2 t (omega arith),
          λ h. cc,
        )
        | inr t ↦ rw t (
          kept.1 ∙ fresh,
          omega arith,
          omega arith,
          λ h. cc,
          λ _ slot. valid_slot-uninitialized _ slot (kept.1 ∙ fresh),
        )
      ])

  -- What prepareUserWait does to a slot, whatever the runtime answers.
  prepare_slot-slots :
      (i j : ℕ) (user : Stream) (seq : ℕ) (f : CompletionFlag)
      → let r = prepare_slot accepts i user seq f in
        ((r.1).initialized ≡ f.initialized)
        × ((r.1).queue_depth ≡ f.queue_depth)
        × ((r.1).use_stream_mem_ops ≡ f.use_stream_mem_ops)
        × ((r.1).slots j).complete_seq ≡ (f.slots j).complete_seq
        × ((j ≢ i) → (r.1).slots j ≡ f.slots j)
        × (r.0 ≡ true
            → (((r.1).slots i).ready_seq ≡ 0)
              × (((r.1).slots i).prepared_seq ≡ seq)
              × (((r.1).slots i).wait_done_recorded ≡ true))
  unfolding prepare_slot wait_for_reuse prepare_by_value prepare_by_kernel
  prepare_slot-slots i j user seq f = ground arith

  signal_slot-prepared :
      (i seq : ℕ) (g : CompletionFlag)
      → valid_slot g (pos i) ≡ true
      → g.use_stream_mem_ops ≡ true
      → seq ≢ 0
      → (g.slots i).prepared_seq ≡ seq
      → let r = signal_slot accepts (pos i) g in
        (r.0 ≡ true)
        × ((r.1).issued ≡ g.issued)
        × (((r.1).slots i).complete_seq ≡ seq)
        × ((j : ℕ) → j ≢ i → (r.1).slots j ≡ g.slots j)
  unfolding signal_slot signal_complete
  signal_slot-prepared i seq g v m nz prepared =
      (ground arith, ground arith, ground arith, λ j ne. ground arith)

  -- With stream memory operations, once a user stream is prepared for a sequence number other than 0,
  -- its slot is not ready before the stream itself says so, and signalling the slot succeeds without
  -- any call of the device runtime: it stores the number for which the stream waits. No other slot
  -- changes in either.
  pub signal_slot-prepare_user_wait :
      (i : ℕ) (user : Stream) (seq : ℕ) (f : CompletionFlag)
      → valid_slot f (pos i) ≡ true
      → f.use_stream_mem_ops ≡ true
      → seq ≢ 0
      → (prepare_user_wait accepts (pos i) user seq f).0 ≡ true
      → let g = (prepare_user_wait accepts (pos i) user seq f).1 in
        let r = signal_slot accepts (pos i) g in
        (is_ready g (pos i) seq ≡ false)
        × (r.0 ≡ true)
        × ((r.1).issued ≡ g.issued)
        × (((r.1).slots i).complete_seq ≡ seq)
        × ((j : ℕ) → j ≢ i → (r.1).slots j ≡ f.slots j)
  unfolding prepare_user_wait
  signal_slot-prepare_user_wait i user seq f v m nz done =
      let g : CompletionFlag = (prepare_slot accepts i user seq f).1 in
      let taken : prepare_user_wait accepts (pos i) user seq f ≡ prepare_slot accepts i user seq f =
        if-true _ _ (valid_slot f (pos i)) v in
      let kept = prepare_slot-slots i i user seq f in
      let ok : (prepare_slot accepts i user seq f).0 ≡ true = rw (← taken) done in
      let own = kept.5 ok in
      let vg : valid_slot g (pos i) ≡ true = valid_slot-eq g f (pos i) kept.0 kept.1 ∙ v in
      let signal = signal_slot-prepared i seq g vg (kept.2 ∙ m) nz own.1 in
      rw taken (
        ready_sequence-unready g i seq own.0 nz,
        signal.0,
        signal.1,
        signal.2,
        λ j ne. signal.3 j ne ∙ (prepare_slot-slots i j user seq f).4 ne,
      )
