-- ===== src/Pccl/Progress.antt =====
-- pcie-ccl-cuda/src/memory/shared_state.hpp: the progress counters that ranks share, for one
-- communicator. The arrays of the chunk states are functions of the chunk with its version index
-- (a key), of the reader and of the epoch's parity. A compare-exchange loop that raises a counter
-- is one step.
pub mod Consume
pub mod Reports
pub mod Alone
pub mod Interleave
mod Tests
use hy_link.Prelude.{
  ℕ, ◌+◌, ◌%◌, zero, suc, max, ltb, leb, ◌==◌, Bool, ◌&&◌, ◌||◌, if◌then◌else◌, List, [], ◌∷◌,
}
use hy_link.Prelude.Int.{ℤ, pos, negsuc, is_nonneg, to_nat}
use hy_link.Pccl.Ir.{
  ProgressKey, key_eq, max_progress_versions, max_progress_readers, ProgressSpace, max_chunks,
  max_ranks, max_numa_nodes,
}

pub record ProgressState : Type 0 where
  pub write_progress : ProgressKey → ℕ → ℕ
  pub consume_progress : ProgressKey → ℕ → ℕ
  pub reader_done : ProgressKey → ℕ → ℕ → ℕ
  pub num_readers : ProgressKey → ℕ

-- Versions are natural numbers here, so none is negative.
unfoldable pub progress_version_index : ℕ → ℕ
progress_version_index version = version % max_progress_versions

-- The state of the chunk that a key names, by its space, owner and chunk, with the version index.
unfoldable pub slot_of : ProgressKey → ProgressKey
unfolding progress_version_index
slot_of key = record key { version = progress_version_index key.version }

unfoldable pub get_write_progress : ProgressState → ProgressKey → ℕ → ℕ
unfolding slot_of
get_write_progress st key epoch = st.write_progress (slot_of key) (epoch % 2)

unfoldable pub get_consume_progress : ProgressState → ProgressKey → ℕ → ℕ
unfolding slot_of
get_consume_progress st key epoch = st.consume_progress (slot_of key) (epoch % 2)

unfoldable pub get_num_readers : ProgressState → ProgressKey → ℕ
unfolding slot_of
get_num_readers st key = st.num_readers (slot_of key)

-- Raise a counter of one slot and parity to `value`, if it is below.
pub raise : (ProgressKey → ℕ → ℕ) → ProgressKey → ℕ → ℕ → ProgressKey → ℕ → ℕ
raise counter slot ep value =
    λ k e. if key_eq slot k && (ep == e) then max value (counter k e) else counter k e

pub advance_write_progress : ProgressState → ProgressKey → ℕ → ℕ → ProgressState
unfolding raise slot_of
advance_write_progress st key new_progress epoch = record st {
  write_progress = raise st.write_progress (slot_of key) (epoch % 2) new_progress;
}

pub set_num_readers : ProgressState → ProgressKey → ℕ → ProgressState
unfolding slot_of
set_num_readers st key count = record st {
  num_readers = λ k. if key_eq (slot_of key) k then count else st.num_readers k;
}

-- The first compare-exchange loop of advanceReaderDone.
pub mark_reader : ProgressState → ProgressKey → ℕ → ℕ → ℕ → ProgressState
unfolding slot_of
mark_reader st key reader_id new_val epoch = record st {
  reader_done = λ k i e.
      if key_eq (slot_of key) k && (reader_id == i) && (epoch % 2 == e)
      then max new_val (st.reader_done k i e)
      else st.reader_done k i e;
}

-- The loop over the readers i, i + 1, ..., `n` of them.
pub min_loop : (ℕ → ℕ) → ℕ → ℕ → ℕ → ℕ
min_loop done zero i min_rd = min_rd
min_loop done (suc n) i min_rd =
    min_loop done n (suc i) (if ltb (done i) min_rd then done i else min_rd)

-- The last compare-exchange loop of advanceReaderDone.
pub raise_consume : ProgressState → ProgressKey → ℕ → ℕ → ProgressState
unfolding raise slot_of
raise_consume st key min_rd epoch = record st {
  consume_progress = raise st.consume_progress (slot_of key) (epoch % 2) min_rd;
}

pub advance_reader_done : ProgressState → ProgressKey → ℤ → ℕ → ℕ → ProgressState
unfolding mark_reader min_loop raise_consume slot_of
advance_reader_done st key (negsuc reader) new_val epoch = st
advance_reader_done st key (pos reader) new_val epoch =
    let marked = mark_reader st key reader new_val epoch in
    let min_rd =
      min_loop (λ i. marked.reader_done (slot_of key) i (epoch % 2))
        (marked.num_readers (slot_of key)) 0 new_val in
    if leb max_progress_readers reader then st else raise_consume marked key min_rd epoch

-- The key names a chunk state: the range tests of resetEpochKeys.
pub has_state : ProgressKey → Bool
has_state key =
    is_nonneg key.owner
    && is_nonneg key.chunk
    && ltb (to_nat key.chunk) max_chunks
    && ltb (to_nat key.owner)
        (elim key.space [ ProgressSpace.host ↦ max_numa_nodes | _ ↦ max_ranks ])

-- Clear the counters of one epoch parity of a chunk version, all readers' included.
pub clear_key : ProgressState → ℕ → ProgressKey → ProgressState
unfolding slot_of
clear_key st epoch key = record {
  write_progress =
      λ k e. if key_eq (slot_of key) k && (epoch % 2 == e) then 0 else st.write_progress k e;
  consume_progress =
      λ k e. if key_eq (slot_of key) k && (epoch % 2 == e) then 0 else st.consume_progress k e;
  reader_done =
      λ k i e. if key_eq (slot_of key) k && (epoch % 2 == e) then 0 else st.reader_done k i e;
  num_readers = st.num_readers;
}

-- The listed keys are cleared, those out of range skipped; the reader counts stay.
pub reset_epoch_keys : ProgressState → ℕ → List ProgressKey → ProgressState
unfolding has_state clear_key
reset_epoch_keys st epoch [] = st
reset_epoch_keys st epoch (key ∷ keys) =
    reset_epoch_keys (if has_state key then clear_key st epoch key else st) epoch keys
