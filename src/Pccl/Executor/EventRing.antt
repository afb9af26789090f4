-- ===== src/Pccl/Executor/EventRing.antt =====
-- pcie-ccl-cuda/src/executor/event_ring.hpp: the ring of device events of one copy lane, with the
-- ring of DmaSlotInfo that the executor keeps beside it under the same indices. Counters are size_t.
pub mod Fifo
mod Tests
use hy_link.Prelude.{ℕ, ◌+◌, ◌-◌, ◌%◌, leb, ◌==◌, Bool, if◌then◌else◌, add64, sub64}

abbrev pub default_capacity : ℕ
default_capacity = 64

pub record EventRing (A : Type 0) : Type 0 where
  pub capacity : ℕ
  pub head : ℕ
  pub tail : ℕ
  pub slot_info : ℕ → A

module _ {A : Type 0} where
  pub inflight : EventRing A → ℕ
  inflight ring = sub64 ring.head ring.tail

  pub is_full : EventRing A → Bool
  unfolding inflight
  is_full ring = leb ring.capacity (inflight ring)

  -- The index of the event that nextSlot hands out, and the advance of the head.
  pub next_slot : EventRing A → ℕ × EventRing A
  next_slot ring = (ring.head % ring.capacity, record ring { head = add64 ring.head 1 })

  pub last_head_index : EventRing A → ℕ
  last_head_index ring = sub64 (add64 ring.head ring.capacity) 1 % ring.capacity

  pub tail_index : EventRing A → ℕ
  tail_index ring = ring.tail % ring.capacity

  pub release_oldest : EventRing A → EventRing A
  release_oldest ring = record ring { tail = add64 ring.tail 1 }

  pub reset : EventRing A → EventRing A
  reset ring = record ring { head = 0; tail = 0 }

  -- slot_info_rings_[lane][ring.lastHeadIndex()] = info, after nextSlot.
  pub push : EventRing A → A → EventRing A
  unfolding next_slot last_head_index
  push ring info =
      let next = (next_slot ring).1 in
      record next { slot_info = λ i. if last_head_index next == i then info else next.slot_info i }

  -- slot_info[ring.tailIndex()]
  pub oldest : EventRing A → A
  unfolding tail_index
  oldest ring = ring.slot_info (tail_index ring)
