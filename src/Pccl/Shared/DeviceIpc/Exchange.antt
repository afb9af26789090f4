-- ===== src/Pccl/Shared/DeviceIpc/Exchange.antt =====
-- The accesses of the writer and of a reader of one slot in any order (memory/shared_state.cpp).
use hy_link.Prelude.{ℕ, ◌+◌, ◌*◌, ◌%◌, ◌≤◌, ◌<◌, ◌≡◌, ◌≢◌, assign_at, suc, Bool, false}
use hy_link.Pccl.Shared.DeviceIpc.{
  DeviceIpcBuffer, DeviceIpcBufferSlot, empty_slot, even_seq, Writer, idle, storing, begin_publish,
  write_step, stored, Reader, attempts, reading, accepted, refused, read_step, max_attempts,
  record_words,
}
use hy_link.Pccl.Shared.DeviceIpc.Stores.{words_of}

-- One slot with its writer and a reader. `published` keeps, for each sequence number, the words of the
-- record that a call was to publish under it.
pub record Exchange : Type 0 where
  pub slot : DeviceIpcBufferSlot
  pub writer : Writer
  pub reader : Reader
  pub published : ℕ → ℕ → ℕ

abbrev pub unused : Exchange
unused = record { slot = empty_slot; writer = idle; reader = refused; published = λ seq i. 0 }

-- A call of publishDeviceIpcBuffer begins.
unfoldable pub begun : Exchange → DeviceIpcBuffer → Exchange
unfolding begin_publish even_seq
begun s r =
    let b = begin_publish s.slot r in
    record s {
      slot = b.0;
      writer = b.1;
      published = assign_at s.published (even_seq s.slot.seq + 2) (words_of r);
    }

unfoldable pub written : Exchange → Exchange
unfolding write_step
written s = let w = write_step s.slot s.writer in record s { slot = w.0; writer = w.1 }

-- With `k` calls begun. The writer may die in its call, and the one that takes its place starts anew.
-- The release store of the odd number does not keep the relaxed stores of the words behind it: on
-- memory that is not `ordered`, which makes a thread's stores visible in another order, a word of the
-- record that the next call stores may be seen before the number.
pub data Step (ordered : Bool) (k : ℕ) (s : Exchange) : ℕ → Exchange → Type 0 where
  overtakes :
      (i v : ℕ)
      → ordered ≡ false
      → s.writer ≡ idle
      → Step ordered k s k
          (record s { slot = record s.slot { words = assign_at s.slot.words i v } })
  begins : (r : DeviceIpcBuffer) → s.writer ≡ idle → Step ordered k s (suc k) (begun s r)
  writes : Step ordered k s k (written s)
  dies : Step ordered k s k (record s { writer = idle })
  calls : Step ordered k s k (record s { reader = attempts max_attempts })
  reads : Step ordered k s k (record s { reader = read_step s.slot s.reader })

-- Reachable with so many calls of publishDeviceIpcBuffer.
pub data Reach (ordered : Bool) : ℕ → Exchange → Type 0 where
  start : Reach ordered 0 unused
  later : {k n : ℕ} {s t : Exchange} → Reach ordered k s → Step ordered k s n t → Reach ordered n t

-- The words loaded are those published under the number seen, as far as it is still the slot's.
abbrev pub IsReading : (seq : ℕ) → (published : ℕ → ℕ → ℕ) → Reader → Type 0
IsReading seq published (attempts left) = Unit
IsReading seq published refused = Unit
IsReading seq published (reading left seq1 next got) =
    (seq1 ≤ seq)
    × (seq1 % 2 ≡ 0)
    × (seq1 ≢ 0)
    × (seq1 ≡ seq → (i : ℕ) → i < next → i < record_words → got i ≡ published seq1 i)
IsReading seq published (accepted seq1 got) =
    (seq1 ≤ seq) × ((i : ℕ) → i < record_words → got i ≡ published seq1 i)

-- Between calls a slot with an even number holds the record of that number, and in a call the stores
-- that are left complete the record of the next one.
abbrev pub IsWriting : ℕ → DeviceIpcBufferSlot → (published : ℕ → ℕ → ℕ) → Writer → Type 0
IsWriting k slot published idle =
    slot.seq % 2 ≡ 0
    → slot.seq ≢ 0
    → (i : ℕ) → i < record_words
    → slot.words i ≡ published slot.seq i
IsWriting k slot published (storing from rest) =
    (slot.seq ≡ from + 1)
    × (from % 2 ≡ 0)
    × (from + 2 ≤ 2 * k)
    × ((i : ℕ) → i < record_words → stored rest slot.words i ≡ published (from + 2) i)

pub record IsStable (k : ℕ) (s : Exchange) : Type 0 where
  pub bound : s.slot.seq ≤ 2 * k
  pub writing : IsWriting k s.slot s.published s.writer
  pub reading_ok : IsReading s.slot.seq s.published s.reader
