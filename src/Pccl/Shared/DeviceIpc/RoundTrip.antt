-- ===== src/Pccl/Shared/DeviceIpc/RoundTrip.antt =====
-- A published record is read back when the writer does not interfere (memory/shared_state.cpp).
use hy_link.Prelude.Int.{ℤ}
use hy_link.Pccl.Shared.{place_eq}
use hy_link.Pccl.Shared.DeviceIpc.{
  DeviceIpcBuffer, DeviceIpcBufferSlot, publish_slot, is_publishable, DeviceIpcTable,
  device_ipc_place, publish_device_ipc_buffer, attempts, reading, accepted, read_step, read_result,
  max_attempts, begin_read, read_steps, record_words, even_seq,
}
use hy_link.Pccl.Shared.DeviceIpc.Stores.{words_of, stored-stores_of, even_seq-even}
use hy_link.Prelude.{
  ℕ, zero, suc, ◌+◌, ◌%◌, ◌≤◌, ◌<◌, ◌≡◌, refl, ap, ◌∙◌, ◌≢◌, inl, inr, true, false, ◌&&◌, ◌||◌, not,
  arith, ltb, ◌==◌, Bool-cases, assign_at, u64_mod, add64, add64-eq,
}

-- After the first access and `n` loads of an attempt on a slot with an even number.
loads :
    (slot : DeviceIpcBufferSlot) (left n : ℕ)
    → slot.seq % 2 ≡ 0
    → slot.seq ≢ 0
    → n ≤ record_words
    → (got : ℕ → ℕ) × (read_steps (suc n) slot (attempts (suc left)) ≡ reading left slot.seq n got)
      × ((i : ℕ) → i < n → got i ≡ slot.words i)
unfolding read_steps read_step
loads slot left zero even nz h =
    let go : (slot.seq == 0 || not (slot.seq % 2 == 0)) ≡ false = ground (arith, even, nz) in
    (λ i. 0, rw go refl, λ i j. absurd (omega (arith, j)))
loads slot left (suc n) even nz h =
    let more : ltb n record_words ≡ true = ground (arith, h) in
    let (got, steps, same) = loads slot left n even nz (omega (arith, h)) in
    (
      assign_at got n (slot.words n),
      ap (read_step slot) steps ∙ rw (more, read_step) refl,
      λ i j. elim (Bool-cases (n == i)) [
        | inl u ↦ let e : n ≡ i = ground arith in rw u (ap slot.words e)
        | inr u ↦ rw u (same i (ground (arith, j, u)))
      ],
    )

-- A reader of a slot with an even number accepts its words in one attempt.
reads :
    (slot : DeviceIpcBufferSlot) (left : ℕ)
    → slot.seq % 2 ≡ 0
    → slot.seq ≢ 0
    → (got : ℕ → ℕ) × (read_steps (suc (suc record_words)) slot (attempts (suc left))
        ≡ accepted slot.seq got)
      × ((i : ℕ) → i < record_words → got i ≡ slot.words i)
unfolding read_steps read_step
reads slot left even nz =
    let (got, steps, same) = loads slot left record_words even nz (omega arith) in
    let stable : (slot.seq == slot.seq && (slot.seq % 2 == 0)) ≡ true = ground (arith, even) in
    (got, ap (read_step slot) steps ∙ rw (stable, read_step) refl, same)

begin_read_valid :
    (kind rank : ℤ) (r : DeviceIpcBuffer)
    → is_publishable kind rank true r ≡ true
    → begin_read kind rank true ≡ attempts max_attempts
unfolding begin_read is_publishable
begin_read_valid kind rank r valid = ground (arith, valid)

-- If the arguments of the writer and of the reader are valid and the slot's number stays below 2^64,
-- then a reader that meets no other writer accepts, in its first attempt, exactly the record that was
-- published last, and reports it unless its address or its size is zero.
pub read_device_ipc_buffer-publish_slot :
    (table : DeviceIpcTable) (comm_id kind rank : ℤ) (r : DeviceIpcBuffer)
    → is_publishable kind rank true r ≡ true
    → (table (device_ipc_place comm_id kind rank)).seq + 3 < u64_mod
    → (got : ℕ → ℕ) × (seq1 : ℕ) × (read_steps
          (suc (suc record_words))
          (publish_device_ipc_buffer table comm_id kind rank true r
            (device_ipc_place comm_id kind rank))
          (begin_read kind rank true)
        ≡ accepted seq1 got)
      × ((i : ℕ) → i < record_words → got i ≡ words_of r i)
      × (read_result (accepted seq1 got) ≡ (not (r.base_addr == 0) && not (r.size == 0)))
unfolding publish_device_ipc_buffer begin_read is_publishable read_result publish_slot words_of
read_device_ipc_buffer-publish_slot table comm_id kind rank r valid small =
    let place = device_ipc_place comm_id kind rank in
    let slot = publish_slot (table place) r in
    let here : place_eq place place ≡ true = ground arith in
    let ready : begin_read kind rank true ≡ attempts max_attempts =
      rw (begin_read_valid kind rank r valid) refl in
    let there : publish_device_ipc_buffer table comm_id kind rank true r place ≡ slot =
      rw (valid, here) refl in
    let (even, up, near) = even_seq-even (table place).seq (omega (arith, small)) in
    let e : add64 (even_seq (table place).seq) 2 ≡ even_seq (table place).seq + 2 =
      add64-eq (even_seq (table place).seq) 2 (omega (arith, near, small)) in
    let (got, steps, same) = reads slot 999 (omega (arith, e, even)) (omega (arith, e)) in
    let all : (i : ℕ) → i < record_words → got i ≡ words_of r i =
      λ i h. same i h ∙ stored-stores_of r (table place).words i h in
    let address = all 0 (omega arith) in
    let size = all 2 (omega arith) in
    (got, slot.seq, rw (ready, there) steps, all, rw (address, size) refl)
