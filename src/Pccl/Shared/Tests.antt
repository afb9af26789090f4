-- ===== src/Pccl/Shared/Tests.antt =====
-- Words and communicator slots at concrete values.
use hy_link.Pccl.Shared.{SharedWords, CommTable, probe, nonzero_hash, user_ready_comm_slot}
use hy_link.Pccl.Shared.CommSlots.{
  Keeps, user_ready_comm_slot-Keeps, user_ready_comm_slot-exhausted,
}
use hy_link.Prelude.{◌+◌, ◌≡◌, refl, false, none, some, arith, ◌==◌, if◌then◌else◌}

-- No word is set.
abbrev no_words : SharedWords
no_words = record {
  user_ready_seq = λ p. 0;
  fastpath_ready_seq = λ p. 0;
  fastpath_stage_seq = λ p. 0;
  fastpath_direct_ok_seq = λ p. 0;
  fastpath_direct_missing_seq = λ p. 0;
  fastpath_threshold_bytes = λ c r. 0;
  fastpath_available = λ c r. false;
}

abbrev no_comms : CommTable
no_comms = λ i. 0

-- Two communicators whose hashes start at one slot.
abbrev two_comms : CommTable
two_comms = λ i. if i == 6 then 21 else if i == 5 then 5 else 0

-- Every slot is taken by a hash above 100.
abbrev all_taken : CommTable
all_taken = λ i. 100 + i

second_slot : (user_ready_comm_slot two_comms 21).0 ≡ some 6
unfolding user_ready_comm_slot nonzero_hash probe
second_slot = refl

user_ready_comm_slot-Keeps_example :
    ((user_ready_comm_slot two_comms 5).0 ≡ some 5)
    × ((user_ready_comm_slot two_comms 21).0 ≡ some 5 → nonzero_hash 21 ≡ nonzero_hash 5)
    × Keeps two_comms (user_ready_comm_slot two_comms 21).1
user_ready_comm_slot-Keeps_example =
    user_ready_comm_slot-Keeps no_comms two_comms 5 21 5
      (unfold user_ready_comm_slot nonzero_hash probe in refl)
      (unfold user_ready_comm_slot nonzero_hash probe in λ i h. ground arith)

user_ready_comm_slot-exhausted_example : user_ready_comm_slot all_taken 7 ≡ (none, all_taken)
user_ready_comm_slot-exhausted_example =
    user_ready_comm_slot-exhausted all_taken 7
      (unfold nonzero_hash in λ i h. (λ e. omega arith, λ e. omega arith))
