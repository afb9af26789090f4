-- ===== src/Pccl/Shared/DeviceIpc.antt =====
-- pcie-ccl-cuda/src/memory/shared_state.cpp: the records of device buffers that ranks publish for each
-- other, each in a slot with a sequence number that is odd while the record is written. The accesses of
-- the writer and of a reader interleave in any order and each takes effect at once; Exchange says
-- where memory may make the writer's stores visible in another order.
-- The words of a record are its base address, offset and size, and then the bytes of its handle.
pub mod Stores
pub mod Exchange
pub mod Stable
pub mod RoundTrip
pub mod Ends
mod Tests
use hy_link.Pccl.Shared.Barrier.{comm_index}
use hy_link.Prelude.Int.{ℤ, to_nat}
use hy_link.Pccl.Shared.{within, Place, place_eq}
use hy_link.Pccl.Ir.{max_ranks}
use hy_link.Prelude.{
  List, ℕ, zero, suc, ◌%◌, Bool, false, ◌&&◌, ◌||◌, not, [], ◌∷◌, ◌++◌, ltb, leb, ◌==◌,
  if◌then◌else◌, length, assign_at, add64,
}

abbrev pub device_ipc_buffer_kinds : ℕ
device_ipc_buffer_kinds = 3

abbrev pub device_ipc_handle_bytes : ℕ
device_ipc_handle_bytes = 64

-- With the three words before the handle.
abbrev pub record_words : ℕ
record_words = 67

pub record DeviceIpcBuffer : Type 0 where
  pub base_addr : ℕ
  pub offset : ℕ
  pub size : ℕ
  pub handle : List ℕ

pub record DeviceIpcBufferSlot : Type 0 where
  pub seq : ℕ
  pub words : ℕ → ℕ

abbrev pub empty_slot : DeviceIpcBufferSlot
empty_slot = record { seq = 0; words = λ i. 0 }

-- Stores of bytes from index `i` on.
unfoldable pub byte_stores : ℕ → List ℕ → List (ℕ × ℕ)
byte_stores i [] = []
byte_stores i (b ∷ bs) = (i, b) ∷ byte_stores (suc i) bs

unfoldable pub zeros : ℕ → List ℕ
zeros zero = []
zeros (suc n) = 0 ∷ zeros n

-- What the writer stores between the two changes of the sequence number, in this order.
unfoldable pub stores_of : DeviceIpcBuffer → List (ℕ × ℕ)
stores_of r =
    (0, r.base_addr) ∷ (1, r.offset) ∷ (2, r.size) ∷ byte_stores 3 (zeros device_ipc_handle_bytes)
    ++ byte_stores 3 r.handle

-- An odd number is left by a writer that died.
unfoldable pub even_seq : ℕ → ℕ
even_seq seq = if seq % 2 == 0 then seq else add64 seq 1

-- The writer: out of a call, or in one that began at `from` and has these stores left.
pub data Writer : Type 0 where
  idle : Writer
  storing : (from : ℕ) → (rest : List (ℕ × ℕ)) → Writer

unfoldable pub begin_publish : DeviceIpcBufferSlot → DeviceIpcBuffer → DeviceIpcBufferSlot × Writer
unfolding even_seq stores_of
begin_publish slot r =
    (record slot { seq = add64 (even_seq slot.seq) 1 }, storing (even_seq slot.seq) (stores_of r))

unfoldable pub write_step : DeviceIpcBufferSlot → Writer → DeviceIpcBufferSlot × Writer
write_step slot idle = (slot, idle)
write_step slot (storing from ((i, v) ∷ rest)) =
    (record slot { words = assign_at slot.words i v }, storing from rest)
write_step slot (storing from []) = (record slot { seq = add64 from 2 }, idle)

-- The stores one after the other.
unfoldable pub stored : List (ℕ × ℕ) → (ℕ → ℕ) → ℕ → ℕ
stored [] words = words
stored ((i, v) ∷ rest) words = stored rest (assign_at words i v)

-- A whole call, when nothing comes between.
unfoldable pub publish_slot : DeviceIpcBufferSlot → DeviceIpcBuffer → DeviceIpcBufferSlot
unfolding even_seq stores_of
publish_slot slot r = record {
  seq = add64 (even_seq slot.seq) 2;
  words = stored (stores_of r) slot.words;
}

-- The tests of publishDeviceIpcBuffer.
unfoldable pub is_publishable : (kind rank : ℤ) → (has_handle : Bool) → DeviceIpcBuffer → Bool
is_publishable kind rank has_handle r =
    within kind device_ipc_buffer_kinds
    && within rank max_ranks
    && has_handle
    && leb (length r.handle) device_ipc_handle_bytes

-- The slots of all communicators, ranks and kinds of buffer.
abbrev pub DeviceIpcTable : Type 0
DeviceIpcTable = Place → DeviceIpcBufferSlot

unfoldable pub device_ipc_place : (comm_id kind rank : ℤ) → Place
unfolding comm_index
device_ipc_place comm_id kind rank = record {
  comm = comm_index comm_id;
  rank = to_nat rank;
  slot = to_nat kind;
}

unfoldable pub publish_device_ipc_buffer :
    DeviceIpcTable
    → (comm_id kind rank : ℤ) → (has_handle : Bool) → DeviceIpcBuffer
    → DeviceIpcTable
unfolding is_publishable publish_slot device_ipc_place
publish_device_ipc_buffer table comm_id kind rank has_handle r =
    let place = device_ipc_place comm_id kind rank in
    if is_publishable kind rank has_handle r
    then (λ q. if place_eq place q then publish_slot (table place) r else table q)
    else table

-- A reader: about to make an attempt, of which so many are left, or in one that saw the number `seq1`
-- and has loaded the words before `next`, or at the end of its call.
pub data Reader : Type 0 where
  attempts : (left : ℕ) → Reader
  reading : (left seq1 next : ℕ) → (got : ℕ → ℕ) → Reader
  accepted : (seq1 : ℕ) → (got : ℕ → ℕ) → Reader
  refused : Reader

unfoldable pub read_step : DeviceIpcBufferSlot → Reader → Reader
read_step slot (attempts zero) = refused
read_step slot (attempts (suc left)) =
    if slot.seq == 0 || not (slot.seq % 2 == 0)
    then attempts left
    else reading left slot.seq 0 (λ i. 0)
read_step slot (reading left seq1 next got) =
    if ltb next record_words
    then reading left seq1 (suc next) (assign_at got next (slot.words next))
    else if seq1 == slot.seq && (slot.seq % 2 == 0)
    then accepted seq1 got
    else attempts left
read_step slot (accepted seq1 got) = accepted seq1 got
read_step slot refused = refused

-- The answer of readDeviceIpcBuffer: a record without an address or a size is filled in and refused.
unfoldable pub read_result : Reader → Bool
read_result (accepted seq1 got) = not (got 0 == 0) && not (got 2 == 0)
read_result (attempts left) = false
read_result (reading left seq1 next got) = false
read_result refused = false

abbrev pub max_attempts : ℕ
max_attempts = 1000

-- A call of readDeviceIpcBuffer begins.
unfoldable pub begin_read : (kind rank : ℤ) → (has_out : Bool) → Reader
begin_read kind rank has_out =
    if has_out && within kind device_ipc_buffer_kinds && within rank max_ranks
    then attempts max_attempts
    else refused

-- Accesses of a reader with none of the writer between.
unfoldable pub read_steps : ℕ → DeviceIpcBufferSlot → Reader → Reader
unfolding read_step
read_steps zero slot reader = reader
read_steps (suc n) slot reader = read_step slot (read_steps n slot reader)
