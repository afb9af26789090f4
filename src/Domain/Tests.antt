-- ===== src/Domain/Tests.antt =====
-- Runs of the queues and the tickets, and the theorems about them.
use hy_link.Prelude.{ℕ, ◌≡◌, refl, true, none, some, List, [], ◌∷◌, ◌++◌, map}
use hy_link.Prelude.Int.{pos}
use hy_link.Domain.Pending.{
  PendingCollective, PendingTable, register_stream_pending, attach_timers_to_last_stream_pending,
  take_stream_pending, Operation, register, attach, take, run_operation,
}
use hy_link.Domain.Pending.Fifo.{untimed, registered, taken, left, taken-registered}
use hy_link.Keys.{all_reduce, OpKey}

abbrev key : OpKey
key = record {
  op = all_reduce;
  bytes = 16;
  bucket_bytes = 0;
  datatype = pos 0;
  nranks = pos 2;
  topology_hash = 1;
}

-- A collective of two ranks into a buffer.
abbrev collective : ℕ → PendingCollective
collective buffer = record {
  domain = 1;
  op_key = key;
  plan = record { fast_bytes = 8; pcie_bytes = 8; use_pcie = true };
  fast_success = true;
  pcie_success = true;
  user_recvbuf = buffer;
  tmp_recvbuf = 0;
  owns_tmp_recvbuf = true;
  nranks = 2;
  rank = 0;
  fast_bytes = 8;
  pcie_bytes = 8;
  fast_timer = none;
  pcie_timer = none;
}

abbrev empty_table : PendingTable
empty_table s = []

abbrev calls : List Operation
calls =
    register 1 (collective 10)
    ∷ register 2 (collective 20)
    ∷ register 1 (collective 11)
    ∷ attach 1 (some 5) none
    ∷ take 1
    ∷ take 2
    ∷ take 2
    ∷ []

taken_first : taken 1 empty_table calls ≡ collective 10 ∷ []
unfolding run_operation register_stream_pending attach_timers_to_last_stream_pending
    take_stream_pending
taken_first = refl

taken-registered_example :
    taken 1 empty_table calls ++ left 1 empty_table calls ≡ map untimed [] ++ registered 1 calls
taken-registered_example = taken-registered 1 empty_table calls
