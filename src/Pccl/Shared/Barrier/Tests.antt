-- ===== src/Pccl/Shared/Barrier/Tests.antt =====
-- Two parties at a barrier.
use hy_link.Prelude.Int.{pos, negsuc}
use hy_link.Pccl.Shared.Barrier.{
  barrier_slot_for_where, comm_index, barrier_expected, outside, advance, Parties, act, give_up,
  acts, unused, Reach, start, later,
}
use hy_link.Pccl.Shared.Barrier.Meeting.{
  has_arrived, barrier-IsJoint, accesses_left, barrier-Progress,
}
use hy_link.Prelude.{
  List, ℕ, ◌+◌, ◌≤◌, ◌<◌, ◌≡◌, refl, ◌≢◌, false, none, some, [], ◌∷◌, arith, if◌then◌else◌, u64_mod,
  zero, suc,
}

abbrev acts_of : List ℕ → Parties → Parties
acts_of [] s = s
acts_of (i ∷ is) s = acts_of is (act 2 s i)

-- Both have read the generation, and the first has arrived.
abbrev one_arrived : Parties
one_arrived = acts_of (0 ∷ 1 ∷ 0 ∷ []) unused

one_arrived-Reach : Reach 2 false one_arrived
one_arrived-Reach =
    later (later (later start (acts 0 (omega arith))) (acts 1 (omega arith))) (acts 0 (omega arith))

one_arrived-small : (i : ℕ) → i < 2 → one_arrived.finished i < u64_mod
unfolding act advance
one_arrived-small i h = ground (arith, h)

-- The second has opened the next round and returned, and the first has not.
abbrev opened : Parties
opened = acts_of (1 ∷ 1 ∷ 1 ∷ []) one_arrived

opened-Reach : Reach 2 false opened
opened-Reach =
    later (later (later one_arrived-Reach (acts 1 (omega arith))) (acts 1 (omega arith)))
      (acts 1 (omega arith))

opened-words : opened.words ≡ record { count = 0; generation = 1 }
unfolding act advance
opened-words = refl

opened-small : (i : ℕ) → i < 2 → opened.finished i < u64_mod
unfolding act advance
opened-small i h = ground (arith, h)

barrier-IsJoint_example :
    opened.finished 1 ≤ opened.finished 0 + (if has_arrived (opened.position 0) then 1 else 0)
barrier-IsJoint_example =
    barrier-IsJoint 2 opened opened-Reach opened-small 1 0 (omega arith) (omega arith)

one_arrived-inside : (i : ℕ) → i < 2 → one_arrived.position i ≢ outside
unfolding act advance
one_arrived-inside zero h e = absurd (cc)
one_arrived-inside (suc zero) h e = absurd (cc)
one_arrived-inside (suc (suc i)) h e = absurd (omega (arith, h))

barrier-Progress_example :
    (i : ℕ) × (i < 2)
    × (accesses_left ((act 2 one_arrived i).position i) < accesses_left (one_arrived.position i))
barrier-Progress_example =
    barrier-Progress 2 one_arrived (omega arith) one_arrived-Reach one_arrived-small
      one_arrived-inside

-- The first gives up, comes again and is taken for the second, which has not called.
abbrev early : Parties
early = acts_of (0 ∷ 0 ∷ 0 ∷ 0 ∷ []) (give_up (acts_of (0 ∷ 0 ∷ []) unused) 0)

early_opening : (early.finished 0 ≡ 1) × (early.finished 1 ≡ 0) × (early.position 1 ≡ outside)
unfolding act advance give_up
early_opening = (refl, refl, refl)

slots :
    (barrier_slot_for_where (some "submitCollective.cached.remote_d2d") ≡ 1)
    × (barrier_slot_for_where (some "pcclCommInitRank") ≡ 0)
    × (barrier_slot_for_where none ≡ 0)
unfolding barrier_slot_for_where
slots = (refl, refl, refl)

parties : (comm_index (negsuc 0) ≡ 0) × (barrier_expected (pos 0) (pos 8) ≡ pos 8)
unfolding comm_index barrier_expected
parties = (refl, refl)
