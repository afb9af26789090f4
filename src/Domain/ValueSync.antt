-- ===== src/Domain/ValueSync.antt =====
-- multipath-orchestrator/libampccl/core/value_sync.cc and core/domain.cc: tickets for the words by
-- which a user stream and the PCIe stream wait for each other, in builds with ACL streams. A pointer
-- is a number of 64-bit words, none for null. What the allocation and the device answer is an
-- argument. The context's mutex is held while a ticket is taken and used.
pub mod Tickets
use hy_link.Prelude.{
  List, ℕ, suc, ◌+◌, ◌-◌, ◌%◌, Bool, false, ◌||◌, not, Option, none, some, ◌==◌, if◌then◌else◌,
  u64_mod,
}

abbrev pub ring_size : ℕ
ring_size = 64

-- std::numeric_limits<uint64_t>::max()
abbrev pub max_sequence : ℕ
max_sequence = u64_mod - 1

pub record ValueSyncTicket : Type 0 where
  pub input_ready_address : ℕ
  pub completion_address : ℕ
  pub sequence : ℕ

pub record ValueSyncContext : Type 0 where
  pub tokens : Option ℕ
  pub next_sequence : ℕ

-- Initialize, given the memory that is allocated and whether it could be cleared.
pub initialize : Option ℕ → Bool → Bool × ValueSyncContext
initialize none cleared = (false, record { tokens = none; next_sequence = 1 })
initialize (some base) cleared =
    (cleared, record { tokens = if cleared then some base else none; next_sequence = 1 })

-- The empty ticket of NextTicket is none.
pub ticket_at : ℕ → ℕ → ValueSyncTicket
ticket_at base sequence =
    let slot = sequence % ring_size in
    record {
      input_ready_address = base + slot;
      completion_address = base + ring_size + slot;
      sequence = sequence;
    }

pub next_ticket_from : Option ℕ → ℕ → Option ValueSyncTicket × ValueSyncContext
unfolding ticket_at
next_ticket_from none next = (none, record { tokens = none; next_sequence = next })
next_ticket_from (some base) next =
    if next == max_sequence
    then (none, record { tokens = some base; next_sequence = next })
    else (some (ticket_at base next), record { tokens = some base; next_sequence = suc next })

pub next_ticket : ValueSyncContext → Option ValueSyncTicket × ValueSyncContext
unfolding next_ticket_from
next_ticket c = next_ticket_from c.tokens c.next_sequence

-- value_sync_contexts_ of a domain, by user stream.
abbrev pub Contexts : Type 0
Contexts = ℕ → Option ValueSyncContext

abbrev put_context : Contexts → ℕ → ValueSyncContext → Contexts
put_context contexts stream c = λ s. if s == stream then some c else contexts s

-- The ticket of a context, which goes back into the table.
pub submission_from : Contexts → ℕ → ValueSyncContext → Option ValueSyncTicket × Contexts
unfolding next_ticket
submission_from contexts stream c =
    let (ticket, after) = next_ticket c in (ticket, put_context contexts stream after)

-- BeginValueSyncSubmission: the streams are null or not, and a context is made for a new user stream.
pub begin_value_sync_submission :
    Contexts → Option ℕ → Bool → Option ℕ → Bool → Option ValueSyncTicket × Contexts
unfolding initialize submission_from
begin_value_sync_submission contexts none pcie_stream memory cleared = (none, contexts)
begin_value_sync_submission contexts (some stream) pcie_stream memory cleared =
    if not pcie_stream then (none, contexts) else elim (contexts stream) [
      | some c ↦ submission_from contexts stream c
      | none ↦
          let (ok, c) = initialize memory cleared in
          if ok then submission_from contexts stream c else (none, contexts)
    ]

-- The four operations on a ticket: refused for the null stream or the ticket without a number;
-- else what the device answers.
pub enqueue : ValueSyncTicket → Bool → Bool → Bool
enqueue ticket stream accepted = if ticket.sequence == 0 || not stream then false else accepted
