-- ===== src/Pccl/Executor/EventRing/Fifo.antt =====
-- The event ring is a bounded queue: what was submitted first completes first (event_ring.hpp).
use native.Mathlib.Nat.{add-mod_right}
use hy_link.Prelude.{
  ℕ, ◌+◌, ◌-◌, ◌%◌, ◌≤◌, ◌<◌, zero, suc, ◌≡◌, ◌≢◌, refl, ap, ◌∙◌, List, [], ◌∷◌, ◌++◌, arith,
  u64_mod, add64, sub64, length, ◌==◌, false, if◌then◌else◌, subst, ==_refl, slot_distinct,
}
use hy_link.Pccl.Executor.EventRing.{
  EventRing, inflight, is_full, next_slot, last_head_index, tail_index, release_oldest, push,
  oldest,
}

module _ {A : Type 0} where
  -- The entries of `n` slots from the counter `t` on.
  abbrev entries : (ℕ → A) → ℕ → ℕ → ℕ → List A
  entries info c t zero = []
  entries info c t (suc n) = info (t % c) ∷ entries info c (t + 1) n

  -- What is in flight, oldest first.
  unfoldable pub contents : EventRing A → List A
  unfolding inflight
  contents ring = entries ring.slot_info ring.capacity ring.tail (inflight ring)

  -- The tail has not passed the head, the ring is not over-full, and neither counter nears 2 ^ 64.
  abbrev pub IsRing : EventRing A → Type 0
  IsRing ring =
      (ring.tail ≤ ring.head)
      × (ring.head ≤ ring.tail + ring.capacity)
      × (0 < ring.capacity)
      × (ring.head + ring.capacity + 1 < u64_mod)

  entries-write :
      (info : ℕ → A) (c t n i : ℕ) (x : A)
      → ((j : ℕ) → j < n → (t + j) % c ≢ i)
      → entries (λ k. if i == k then x else info k) c t n ≡ entries info c t n
  entries-write info c t zero i x h = refl
  entries-write info c t (suc n) i x h =
      let here : t % c ≢ i = λ e. h 0 (omega arith) (let z : t + 0 ≡ t = omega arith in rw z e) in
      let head_eq : (if i == t % c then x else info (t % c)) ≡ info (t % c) =
        ground (arith, here) in
      let rest = entries-write info c (t + 1) n i x (λ j k e.
        h (suc j) (omega (arith, k)) (let z : t + suc j ≡ t + 1 + j = omega arith in rw z e)) in
      rw head_eq (ap (λ l. info (t % c) ∷ l) rest)

  entries-append :
      (info : ℕ → A) (c t n : ℕ)
      → entries info c t (suc n) ≡ entries info c t n ++ (info ((t + n) % c) ∷ [])
  entries-append info c t zero = let z : t + 0 ≡ t = omega arith in rw z refl
  entries-append info c t (suc n) =
      let z : t + suc n ≡ t + 1 + n = omega arith in
      rw z (ap (λ l. info (t % c) ∷ l) (entries-append info c (t + 1) n))

  inflight-eq : (ring : EventRing A) → IsRing ring → inflight ring ≡ ring.head - ring.tail
  unfolding inflight
  inflight-eq ring h = omega (arith, h)

  length-entries : (info : ℕ → A) (c t n : ℕ) → length (entries info c t n) ≡ n
  length-entries info c t zero = refl
  length-entries info c t (suc n) = ap suc (length-entries info c (t + 1) n)

  -- The head's slot after nextSlot is the one that nextSlot handed out.
  last_head_index-eq :
      (ring : EventRing A) → IsRing ring → last_head_index (next_slot ring).1 ≡ (next_slot ring).0
  unfolding last_head_index next_slot
  last_head_index-eq ring h =
      let e : sub64 (add64 (add64 ring.head 1) ring.capacity) 1 ≡ ring.head + ring.capacity =
        omega (arith, h) in
      rw e (add-mod_right ring.head ring.capacity)

  inflight-push :
      (ring : EventRing A) (x : A) → IsRing ring → inflight (push ring x) ≡ suc (inflight ring)
  unfolding push next_slot inflight
  inflight-push ring x h = omega (arith, h)

  -- The entry of a write stays out of the slots in flight.
  head-apart :
      (ring : EventRing A) (j : ℕ)
      → IsRing ring
      → inflight ring < ring.capacity
      → j < inflight ring
      → (ring.tail + j) % ring.capacity ≢ ring.head % ring.capacity
  head-apart ring j h room k =
      let size = inflight-eq ring h in
      let d : ring.tail + j + (inflight ring - j) ≡ ring.head = omega (arith, h, size, k) in
      subst (λ y. (ring.tail + j) % ring.capacity ≢ y % ring.capacity) d
        (slot_distinct ring.capacity (ring.tail + j) (inflight ring - j) (omega (arith, k))
          (omega (arith, k, room)))

  -- A ring that is not full, whose counters are in order and away from 2^64, takes one more entry
  -- behind the others and keeps those.
  pub push-contents :
      (ring : EventRing A) (x : A)
      → IsRing ring
      → is_full ring ≡ false
      → contents (push ring x) ≡ contents ring ++ (x ∷ [])
  unfolding push next_slot contents is_full
  push-contents ring x h free =
      let size = inflight-eq ring h in
      let n = inflight ring in
      let room : n < ring.capacity = ground (arith, free) in
      let info : ℕ → A = λ k. if ring.head % ring.capacity == k then x else ring.slot_info k in
      let at : ring.tail + n ≡ ring.head = omega (arith, h, size) in
      let last : info ((ring.tail + n) % ring.capacity) ≡ x =
        rw (at, ==_refl (ring.head % ring.capacity)) refl in
      let others : entries info ring.capacity ring.tail n ≡ contents ring =
        entries-write ring.slot_info ring.capacity ring.tail n (ring.head % ring.capacity) x
          (λ j k. head-apart ring j h room k) in
      ap
        (λ a.
          entries (λ i. if a == i then x else ring.slot_info i) ring.capacity ring.tail
            (inflight (push ring x)))
        (last_head_index-eq ring h)
      ∙ ap (λ m. entries info ring.capacity ring.tail m) (inflight-push ring x h)
      ∙ entries-append info ring.capacity ring.tail n
      ∙ rw (others, last) refl

  -- In a ring with an entry in flight, whose counters are in order and away from 2^64, the oldest
  -- entry is the first in flight, and releasing it leaves the others.
  pub release_oldest-contents :
      (ring : EventRing A)
      → IsRing ring
      → 0 < inflight ring
      → contents ring ≡ oldest ring ∷ contents (release_oldest ring)
  unfolding contents oldest tail_index release_oldest inflight
  release_oldest-contents ring h some_left =
      let size = inflight-eq ring h in
      let one : add64 ring.tail 1 ≡ ring.tail + 1 = omega (arith, h, size, some_left) in
      let n : sub64 ring.head ring.tail ≡ suc (sub64 ring.head (ring.tail + 1)) =
        omega (arith, h, size, some_left) in
      rw (n, one) refl

  -- In a ring whose counters are in order and away from 2^64, pushing puts an entry behind those in
  -- flight, where the ring is not full, and releasing takes away the oldest, which is the first of
  -- them, where one is in flight.
  pub push-release_oldest :
      (ring : EventRing A) (x : A)
      → IsRing ring
      → (is_full ring ≡ false → contents (push ring x) ≡ contents ring ++ (x ∷ []))
        × (0 < inflight ring → contents ring ≡ oldest ring ∷ contents (release_oldest ring))
  push-release_oldest ring x h = (push-contents ring x h, release_oldest-contents ring h)
