-- ===== src/Pccl/Shared/DeviceIpc/Ends.antt =====
-- readDeviceIpcBuffer ends, whatever the writers do meanwhile (memory/shared_state.cpp).
use hy_link.Prelude.Int.{ℤ}
use hy_link.Pccl.Shared.{within}
use hy_link.Pccl.Ir.{max_ranks}
use hy_link.Pccl.Shared.DeviceIpc.{
  device_ipc_buffer_kinds, DeviceIpcBufferSlot, Reader, attempts, reading, accepted, refused,
  read_step, max_attempts, begin_read, record_words,
}
use hy_link.Prelude.{
  ℕ, zero, suc, ◌+◌, ◌-◌, ◌*◌, ◌≤◌, ◌≡◌, refl, Bool, true, false, ◌&&◌, arith, if-intro,
}

-- The accesses of a reader, the n-th of which sees the n-th of these states of the slot.
unfoldable pub read_among : (ℕ → DeviceIpcBufferSlot) → ℕ → Reader → Reader
read_among slots zero reader = reader
read_among slots (suc n) reader = read_step (slots n) (read_among slots n reader)

abbrev pub has_ended : Reader → Bool
has_ended (accepted seq1 got) = true
has_ended refused = true
has_ended (attempts left) = false
has_ended (reading left seq1 next got) = false

-- A bound on the accesses that are left.
accesses_left : Reader → ℕ
accesses_left (accepted seq1 got) = 0
accesses_left refused = 0
accesses_left (attempts left) = left * 69 + 1
accesses_left (reading left seq1 next got) = left * 69 + 2 + (record_words - next)

read_step-Nearer :
    (slot : DeviceIpcBufferSlot) (reader : Reader)
    → accesses_left (read_step slot reader) ≤ accesses_left reader - 1
unfolding read_step accesses_left
read_step-Nearer slot (accepted seq1 got) = omega arith
read_step-Nearer slot refused = omega arith
read_step-Nearer slot (attempts zero) = omega arith
read_step-Nearer slot (attempts (suc left)) = ground arith
read_step-Nearer slot (reading left seq1 next got) = ground arith

read_among-Nearer :
    (slots : ℕ → DeviceIpcBufferSlot) (n : ℕ) (reader : Reader)
    → accesses_left (read_among slots n reader) ≤ accesses_left reader - n
unfolding read_among
read_among-Nearer slots zero reader = omega arith
read_among-Nearer slots (suc n) reader =
    let ih = read_among-Nearer slots n reader in
    let step = read_step-Nearer (slots n) (read_among slots n reader) in omega (arith, ih, step)

none_left : (reader : Reader) → accesses_left reader ≤ 0 → has_ended reader ≡ true
unfolding accesses_left
none_left (accepted seq1 got) h = refl
none_left refused h = refl
none_left (attempts left) h = absurd (omega (arith, h))
none_left (reading left seq1 next got) h = absurd (omega (arith, h))

-- A call of readDeviceIpcBuffer, with any arguments and whatever states the slot is in at its accesses,
-- has ended after 69001 of them: 1000 attempts of at most 69, and the test that none is left.
pub begin_read-Ends :
    (slots : ℕ → DeviceIpcBufferSlot) (kind rank : ℤ) (has_out : Bool)
    → has_ended (read_among slots (max_attempts * 69 + 1) (begin_read kind rank has_out)) ≡ true
unfolding begin_read accesses_left
begin_read-Ends slots kind rank has_out =
    let all = read_among-Nearer slots (max_attempts * 69 + 1) in
    if-intro (λ (r : Reader). has_ended (read_among slots (max_attempts * 69 + 1) r) ≡ true)
      (has_out && within kind device_ipc_buffer_kinds && within rank max_ranks)
      (λ _. none_left _ (all (attempts max_attempts))) (λ _. none_left _ (all refused))
