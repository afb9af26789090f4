-- ===== src/Pccl/Shared/DeviceIpc/Tests.antt =====
-- A record that a writer publishes after another has died in its call, and its reader.
use hy_link.Pccl.Shared.DeviceIpc.Ends.{read_among, has_ended, begin_read-Ends}
use hy_link.Prelude.Int.{pos}
use hy_link.Pccl.Shared.DeviceIpc.{
  DeviceIpcBuffer, empty_slot, byte_stores, zeros, stores_of, even_seq, idle, begin_publish,
  write_step, is_publishable, DeviceIpcTable, device_ipc_place, publish_device_ipc_buffer, Reader,
  attempts, accepted, read_step, read_result, max_attempts, begin_read, read_steps, record_words,
  DeviceIpcBufferSlot,
}
use hy_link.Pccl.Shared.DeviceIpc.Stores.{words_of}
use hy_link.Pccl.Shared.DeviceIpc.Exchange.{
  Exchange, unused, begun, written, begins, writes, dies, calls, reads, Reach, start, later,
}
use hy_link.Pccl.Shared.DeviceIpc.Stable.{read-IsPublished}
use hy_link.Pccl.Shared.DeviceIpc.RoundTrip.{read_device_ipc_buffer-publish_slot}
use hy_link.Prelude.{
  ℕ, zero, suc, ◌<◌, ◌≡◌, refl, true, ◌&&◌, not, [], ◌∷◌, arith, ◌==◌, ◌+◌, ◌*◌, assign_at,
}

abbrev buffer : DeviceIpcBuffer
buffer = record { base_addr = 4096; offset = 64; size = 1024; handle = 7 ∷ 8 ∷ [] }

-- The second writer, after the first has died with the base address stored.
abbrev restarted : Exchange
restarted = begun (record (written (begun unused buffer)) { writer = idle }) buffer

restarted-Reach : Reach true 2 restarted
restarted-Reach =
    later (later (later (later start (begins buffer refl)) writes) dies) (begins buffer refl)

restarted-seq : restarted.slot.seq ≡ 3
unfolding begun begin_publish even_seq written write_step stores_of
restarted-seq = refl

-- So many accesses of the writer, and then of a reader.
abbrev after_writes : ℕ → Exchange → Exchange
after_writes zero s = s
after_writes (suc n) s = after_writes n (written s)

after_writes-Reach : (n : ℕ) {s : Exchange} → Reach true 2 s → Reach true 2 (after_writes n s)
after_writes-Reach zero r = r
after_writes-Reach (suc n) r = after_writes-Reach n (later r writes)

abbrev after_reads : ℕ → Exchange → Exchange
after_reads zero s = s
after_reads (suc n) s = after_reads n (record s { reader = read_step s.slot s.reader })

after_reads-Reach : (n : ℕ) {s : Exchange} → Reach true 2 s → Reach true 2 (after_reads n s)
after_reads-Reach zero r = r
after_reads-Reach (suc n) r = after_reads-Reach n (later r reads)

-- 70 accesses of the writer end its call, and 69 of the reader.
abbrev ended : Exchange
ended = after_reads 69 (record (after_writes 70 restarted) { reader = attempts max_attempts })

ended-Reach : Reach true 2 ended
ended-Reach = after_reads-Reach 69 (later (after_writes-Reach 70 restarted-Reach) calls)

abbrev got_words : Reader → ℕ → ℕ
got_words (accepted seq1 got) = got
got_words _ = λ i. 0

ended-accepted : ended.reader ≡ accepted 4 (got_words ended.reader)
unfolding begun begin_publish even_seq written write_step stores_of read_step byte_stores zeros
ended-accepted = refl

read-IsPublished_example : got_words ended.reader 3 ≡ ended.published 4 3
read-IsPublished_example =
    read-IsPublished 2 ended 4 (got_words ended.reader) (omega arith) ended-Reach ended-accepted 3
      (omega arith)

-- On other memory, a reader accepts a word of the second record under the number of the first.
abbrev first_out : Exchange
first_out = after_writes 70 (begun unused buffer)

abbrev overtaken : Exchange
overtaken = record first_out {
  slot = record first_out.slot { words = assign_at first_out.slot.words 0 9 };
}

abbrev mixed : Exchange
mixed = after_reads 69 (record overtaken { reader = attempts max_attempts })

mixed-accepted : mixed.reader ≡ accepted 2 (got_words mixed.reader)
unfolding begun begin_publish even_seq written write_step stores_of read_step byte_stores zeros
mixed-accepted = refl

mixed-words : (got_words mixed.reader 0 ≡ 9) × (mixed.published 2 0 ≡ 4096)
unfolding begun begin_publish even_seq written write_step stores_of read_step byte_stores zeros
    words_of
mixed-words = (refl, refl)

abbrev no_slots : DeviceIpcTable
no_slots = λ p. empty_slot

buffer_valid : is_publishable (pos 0) (pos 1) true buffer ≡ true
unfolding is_publishable
buffer_valid = refl

read_device_ipc_buffer-publish_slot_example :
    (got : ℕ → ℕ) × (seq1 : ℕ) × (read_steps
        (suc (suc record_words))
        (publish_device_ipc_buffer no_slots
          (pos 2)
          (pos 0)
          (pos 1)
          true
          buffer
          (device_ipc_place (pos 2) (pos 0) (pos 1)))
        (begin_read (pos 0) (pos 1) true)
      ≡ accepted seq1 got)
    × ((i : ℕ) → i < record_words → got i ≡ words_of buffer i)
    × (read_result (accepted seq1 got) ≡ (not (buffer.base_addr == 0) && not (buffer.size == 0)))
read_device_ipc_buffer-publish_slot_example =
    read_device_ipc_buffer-publish_slot no_slots (pos 2) (pos 0) (pos 1) buffer buffer_valid
      (omega arith)

-- A slot whose writer has died.
abbrev torn : DeviceIpcBufferSlot
torn = record { seq = 3; words = λ i. 0 }

begin_read-Ends_example :
    has_ended (read_among (λ n. torn) (max_attempts * 69 + 1) (begin_read (pos 0) (pos 1) true))
    ≡ true
begin_read-Ends_example = begin_read-Ends (λ n. torn) (pos 0) (pos 1) true
