-- ===== src/Domain/Pending.antt =====
-- multipath-orchestrator/libampccl/core/domain_manager.h: a queue of collectives for each stream. A
-- method holds the manager's mutex, so it is one step. Pointers are numbers, and a stream that the
-- table does not have is one with no entries, as for every method here.
pub mod Fifo
use hy_link.Prelude.{ℕ, Bool, Option, none, some, List, [], ◌∷◌, ◌++◌, ◌==◌, if◌then◌else◌}
use hy_link.Keys.{OpKey}
use hy_link.Planner.{Plan}

pub record PendingCollective : Type 0 where
  pub domain : ℕ
  pub op_key : OpKey
  pub plan : Plan
  pub fast_success : Bool
  pub pcie_success : Bool
  pub user_recvbuf : ℕ
  pub tmp_recvbuf : ℕ
  pub owns_tmp_recvbuf : Bool
  pub nranks : ℕ
  pub rank : ℕ
  pub fast_bytes : ℕ
  pub pcie_bytes : ℕ
  pub fast_timer : Option ℕ
  pub pcie_timer : Option ℕ

-- stream_to_pending_
abbrev pub PendingTable : Type 0
PendingTable = ℕ → List PendingCollective

-- table[stream] = entries
abbrev pub put : PendingTable → ℕ → List PendingCollective → PendingTable
put table stream entries = λ s. if s == stream then entries else table s

-- The collective is registered without timers.
unfoldable pub register_stream_pending : PendingTable → ℕ → PendingCollective → PendingTable
register_stream_pending table stream p =
    put table stream (table stream ++ record p { fast_timer = none; pcie_timer = none } ∷ [])

-- The last entry, with the timers.
unfoldable pub attach_to_last :
    List PendingCollective → Option ℕ → Option ℕ → List PendingCollective
attach_to_last [] fast pcie = []
attach_to_last (p ∷ []) fast pcie = record p { fast_timer = fast; pcie_timer = pcie } ∷ []
attach_to_last (p ∷ q ∷ entries) fast pcie = p ∷ attach_to_last (q ∷ entries) fast pcie

unfoldable pub attach_timers_to_last_stream_pending :
    PendingTable → ℕ → Option ℕ → Option ℕ → PendingTable
unfolding attach_to_last
attach_timers_to_last_stream_pending table stream fast pcie =
    put table stream (attach_to_last (table stream) fast pcie)

-- The oldest entry and the others.
abbrev pub split_oldest : List PendingCollective → Option PendingCollective × List PendingCollective
split_oldest [] = (none, [])
split_oldest (p ∷ entries) = (some p, entries)

unfoldable pub take_stream_pending : PendingTable → ℕ → Option PendingCollective × PendingTable
take_stream_pending table stream =
    let (oldest, rest) = split_oldest (table stream) in (oldest, put table stream rest)

pub clear_pending : PendingTable → PendingTable
clear_pending table = λ s. []

-- The calls of the manager, in the order in which they get its mutex.
pub data Operation : Type 0 where
  register : ℕ → PendingCollective → Operation
  attach : ℕ → Option ℕ → Option ℕ → Operation
  take : ℕ → Operation

-- What a take gives, with its stream.
abbrev pub answer_of : ℕ → Option PendingCollective → Option (ℕ × PendingCollective)
answer_of stream none = none
answer_of stream (some p) = some (stream, p)

-- The table after a call, and what a take gives with its stream.
unfoldable pub run_operation :
    PendingTable → Operation → Option (ℕ × PendingCollective) × PendingTable
unfolding register_stream_pending attach_timers_to_last_stream_pending take_stream_pending
run_operation table (register stream p) = (none, register_stream_pending table stream p)
run_operation table (attach stream fast pcie) =
    (none, attach_timers_to_last_stream_pending table stream fast pcie)
run_operation table (take stream) =
    let (oldest, rest) = take_stream_pending table stream in (answer_of stream oldest, rest)
