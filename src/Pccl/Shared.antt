-- ===== src/Pccl/Shared.antt =====
-- pcie-ccl-cuda/src/memory/shared_state.cpp: the words besides the progress counters by which ranks
-- tell each other how far their streams are, and the slots of communicators. An array of words is a
-- function of the communicator, the rank and the slot of the executor's queue.
pub mod Words
pub mod CommSlots
pub mod Barrier
pub mod DeviceIpc
mod Tests
use hy_link.Prelude.Int.{ℤ, is_nonneg, to_nat}
use hy_link.Pccl.Ir.{max_ranks}
use hy_link.Pccl.Completion.{queue_depth_max}
use hy_link.Prelude.{
  List, ℕ, zero, suc, ◌*◌, ◌%◌, Bool, true, false, ◌&&◌, Option, none, some, ltb, ◌==◌,
  if◌then◌else◌, add64,
}

abbrev pub max_concurrent_comms : ℕ
max_concurrent_comms = 16

-- The indices of a word.
pub record Place : Type 0 where
  pub comm : ℕ
  pub rank : ℕ
  pub slot : ℕ

abbrev pub place_eq : Place → Place → Bool
place_eq p q = p.comm == q.comm && p.rank == q.rank && p.slot == q.slot

abbrev pub Words : Type 0
Words = Place → ℕ

abbrev pub store : Words → Place → ℕ → Words
store words p value = λ q. if place_eq p q then value else words q

pub record SharedWords : Type 0 where
  pub user_ready_seq : Words
  pub fastpath_ready_seq : Words
  pub fastpath_stage_seq : Words
  pub fastpath_direct_ok_seq : Words
  pub fastpath_direct_missing_seq : Words
  pub fastpath_threshold_bytes : ℕ → ℕ → ℕ
  pub fastpath_available : ℕ → ℕ → Bool

-- 0 <= i < n
abbrev pub within : ℤ → ℕ → Bool
within i n = is_nonneg i && ltb (to_nat i) n

-- The word of three indices, none out of range.
unfoldable pub place_of : ℤ → ℤ → ℤ → Option Place
place_of comm rank slot =
    if within comm max_concurrent_comms && within rank max_ranks && within slot queue_depth_max
    then some record { comm = to_nat comm; rank = to_nat rank; slot = to_nat slot }
    else none

-- Publishing to no word changes nothing, and no word reads as 0.
unfoldable pub publish_at : Words → Option Place → ℕ → Words
publish_at words none seq = words
publish_at words (some p) seq = store words p seq

unfoldable pub read_at : Words → Option Place → ℕ
read_at words none = 0
read_at words (some p) = words p

unfoldable pub publish_user_ready_seq : SharedWords → ℤ → ℤ → ℤ → ℕ → SharedWords
unfolding place_of publish_at
publish_user_ready_seq st comm rank slot seq = record st {
  user_ready_seq = publish_at st.user_ready_seq (place_of comm rank slot) seq;
}

unfoldable pub get_user_ready_seq : SharedWords → ℤ → ℤ → ℤ → ℕ
unfolding place_of read_at
get_user_ready_seq st comm rank slot = read_at st.user_ready_seq (place_of comm rank slot)

unfoldable pub publish_fastpath_ready_seq : SharedWords → ℤ → ℤ → ℤ → ℕ → SharedWords
unfolding place_of publish_at
publish_fastpath_ready_seq st comm rank slot seq = record st {
  fastpath_ready_seq = publish_at st.fastpath_ready_seq (place_of comm rank slot) seq;
}

unfoldable pub get_fastpath_ready_seq : SharedWords → ℤ → ℤ → ℤ → ℕ
unfolding place_of read_at
get_fastpath_ready_seq st comm rank slot = read_at st.fastpath_ready_seq (place_of comm rank slot)

unfoldable pub publish_fastpath_stage_seq : SharedWords → ℤ → ℤ → ℤ → ℕ → SharedWords
unfolding place_of publish_at
publish_fastpath_stage_seq st comm rank slot seq = record st {
  fastpath_stage_seq = publish_at st.fastpath_stage_seq (place_of comm rank slot) seq;
}

unfoldable pub get_fastpath_stage_seq : SharedWords → ℤ → ℤ → ℤ → ℕ
unfolding place_of read_at
get_fastpath_stage_seq st comm rank slot = read_at st.fastpath_stage_seq (place_of comm rank slot)

-- The two stores of publishFastpathDirectStatus, in order: the word of the other answer is cleared
-- first.
unfoldable pub clear_other : SharedWords → Option Place → Bool → SharedWords
unfolding publish_at
clear_other st p all_direct =
    if all_direct
    then record st { fastpath_direct_missing_seq = publish_at st.fastpath_direct_missing_seq p 0 }
    else record st { fastpath_direct_ok_seq = publish_at st.fastpath_direct_ok_seq p 0 }

unfoldable pub set_own : SharedWords → Option Place → Bool → ℕ → SharedWords
unfolding publish_at
set_own st p all_direct seq =
    if all_direct
    then record st { fastpath_direct_ok_seq = publish_at st.fastpath_direct_ok_seq p seq }
    else record st { fastpath_direct_missing_seq = publish_at st.fastpath_direct_missing_seq p seq }

unfoldable pub publish_fastpath_direct_status : SharedWords → ℤ → ℤ → ℤ → ℕ → Bool → SharedWords
unfolding place_of
publish_fastpath_direct_status st comm rank slot seq all_direct =
    let p = place_of comm rank slot in set_own (clear_other st p all_direct) p all_direct seq

-- 1, 0 and -1 are some true, some false and none.
unfoldable pub direct_status_at : SharedWords → Option Place → ℕ → Option Bool
direct_status_at st none seq = none
direct_status_at st (some p) seq =
    if st.fastpath_direct_ok_seq p == seq
    then some true
    else if st.fastpath_direct_missing_seq p == seq
    then some false
    else none

unfoldable pub get_fastpath_direct_status : SharedWords → ℤ → ℤ → ℤ → ℕ → Option Bool
unfolding place_of direct_status_at
get_fastpath_direct_status st comm rank slot seq = direct_status_at st (place_of comm rank slot) seq

unfoldable pub publish_fastpath_status : SharedWords → ℤ → ℤ → Bool → ℕ → SharedWords
publish_fastpath_status st comm rank available threshold_bytes =
    if within comm max_concurrent_comms && within rank max_ranks
    then record st {
      fastpath_threshold_bytes = λ c r.
          if c == to_nat comm && r == to_nat rank
          then threshold_bytes
          else st.fastpath_threshold_bytes c r;
      fastpath_available = λ c r.
          if c == to_nat comm && r == to_nat rank then available else st.fastpath_available c r;
    }
    else st

unfoldable pub is_fastpath_rank_available : SharedWords → ℤ → ℤ → Bool
is_fastpath_rank_available st comm rank =
    if within comm max_concurrent_comms && within rank max_ranks
    then st.fastpath_available (to_nat comm) (to_nat rank)
    else false

unfoldable pub get_fastpath_threshold_bytes : SharedWords → ℤ → ℤ → ℕ
get_fastpath_threshold_bytes st comm rank =
    if within comm max_concurrent_comms && within rank max_ranks
    then st.fastpath_threshold_bytes (to_nat comm) (to_nat rank)
    else 0

-- user_ready_comm_hash, 0 for a free slot.
abbrev pub CommTable : Type 0
CommTable = ℕ → ℕ

-- The loop of userReadyCommSlot over the attempts left; a compare-exchange is one step.
unfoldable pub probe : CommTable → ℕ → ℕ → ℕ → Option ℕ × CommTable
probe table hash zero attempt = (none, table)
probe table hash (suc n) attempt =
    let idx = add64 hash attempt % max_concurrent_comms in
    let rest = probe table hash n (suc attempt) in
    if table idx == 0
    then (some idx, λ i. if i == idx then hash else table i)
    else if table idx == hash
    then (some idx, table)
    else rest

unfoldable pub nonzero_hash : ℕ → ℕ
nonzero_hash comm_hash = if comm_hash == 0 then 1 else comm_hash

unfoldable pub user_ready_comm_slot : CommTable → ℕ → Option ℕ × CommTable
unfolding probe nonzero_hash
user_ready_comm_slot table comm_hash =
    probe table (nonzero_hash comm_hash) (max_concurrent_comms * 2) 0
