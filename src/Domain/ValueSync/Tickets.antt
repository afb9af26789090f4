-- ===== src/Domain/ValueSync/Tickets.antt =====
-- multipath-orchestrator/libampccl/core/value_sync.cc: which tickets share words.
use hy_link.Domain.ValueSync.{
  ring_size, max_sequence, ValueSyncTicket, ValueSyncContext, ticket_at, next_ticket,
}
use hy_link.Prelude.{ℕ, zero, suc, ◌+◌, ◌<◌, ◌≡◌, ap, ◌≢◌, some, arith, slot_distinct, refl, ◌∙◌}

-- The context after `n` calls of NextTicket.
abbrev pub after : ℕ → ValueSyncContext → ValueSyncContext
after zero c = c
after (suc n) c = after n (next_ticket c).1

pub context_at : ℕ → ℕ → ValueSyncContext
context_at base next = record { tokens = some base; next_sequence = next }

next_ticket-step :
    (base next : ℕ)
    → next < max_sequence
    → (next_ticket (context_at base next)).1 ≡ context_at base (suc next)
unfolding context_at next_ticket
next_ticket-step base next h = ground arith

after_lem :
    (n base next : ℕ)
    → next + n < max_sequence
    → after n (context_at base next) ≡ context_at base (next + n)
unfolding context_at
after_lem zero base next h = ap (context_at base) (omega arith)
after_lem (suc n) base next h =
    ap (after n) (next_ticket-step base next (omega arith))
    ∙ after_lem n base (suc next) (omega arith)
    ∙ ap (context_at base) (omega arith)

next_ticket-some :
    (base next : ℕ)
    → next < max_sequence
    → (next_ticket (context_at base next)).0 ≡ some (ticket_at base next)
unfolding context_at next_ticket
next_ticket-some base next h = ground arith

-- No word of one ticket is a word of the other.
abbrev pub Disjoint : ValueSyncTicket → ValueSyncTicket → Type 0
Disjoint t u =
    (t.input_ready_address ≢ u.input_ready_address)
    × (t.completion_address ≢ u.completion_address)
    × (t.input_ready_address ≢ u.completion_address)
    × (t.completion_address ≢ u.input_ready_address)

-- A context that is set up gives tickets of increasing numbers, and two tickets less than 64 calls
-- apart have no word in common, as long as the numbers stay below 2 ^ 64 - 1.
pub next_ticket-Disjoint :
    (base next k d : ℕ)
    → next + k + d < max_sequence
    → 0 < d
    → d < ring_size
    → let c = context_at base next in
      (t u : ValueSyncTicket) × ((next_ticket (after k c)).0 ≡ some t)
      × ((next_ticket (after (k + d) c)).0 ≡ some u)
      × (u.sequence ≡ t.sequence + d)
      × Disjoint t u
unfolding ticket_at
next_ticket-Disjoint base next k d room lo hi =
    let apart = slot_distinct ring_size (next + k) d lo hi in
    let at : after k (context_at base next) ≡ context_at base (next + k) =
      after_lem k base next (omega arith) in
    let at' : after (k + d) (context_at base next) ≡ context_at base (next + k + d) =
      after_lem (k + d) base next (omega arith) ∙ ap (context_at base) (omega arith) in
    (
      ticket_at base (next + k),
      ticket_at base (next + k + d),
      ap (λ c. (next_ticket c).0) at ∙ next_ticket-some base (next + k) (omega arith),
      ap (λ c. (next_ticket c).0) at' ∙ next_ticket-some base (next + k + d) (omega arith),
      refl,
      (
        λ e. apart (omega (arith, e)),
        λ e. apart (omega (arith, e)),
        λ e. absurd (omega (arith, e)),
        λ e. absurd (omega (arith, e)),
      ),
    )
