-- ===== src/Pccl/Shared/Barrier/Meeting.antt =====
-- What a barrier promises when no party gives up (memory/shared_state.cpp).
-- The party has called the barrier and arrived in it.
use hy_link.Pccl.Shared.Barrier.{
  Position, outside, loaded, waiting, last, cleared, advance, Parties, act, Reach,
}
use hy_link.Pccl.Shared.Barrier.Rounds.{counted, InRound, IsClosing}
use hy_link.Pccl.Shared.Barrier.Runs.{Reach-IsRound}
use hy_link.Prelude.{
  ℕ, ◌+◌, ◌≤◌, ◌<◌, ◌≡◌, refl, subst, ◌≢◌, inl, inr, Bool, true, false, arith, leb, ◌==◌,
  if◌then◌else◌, ==_refl, Bool-cases, count_marked-missing, u64_mod,
}

abbrev pub has_arrived : Position → Bool
has_arrived outside = false
has_arrived (loaded my_gen) = false
has_arrived (waiting my_gen) = true
has_arrived (last my_gen) = true
has_arrived (cleared my_gen) = true

-- In an open round, a party that has returned from the round before has not arrived.
InRound-calls :
    (gen calls : ℕ) (p : Position)
    → InRound gen p calls
    → (calls ≤ gen) × (gen ≤ calls + (if has_arrived p then 1 else 0))
unfolding InRound
InRound-calls gen calls outside h = (omega (arith, h), omega (arith, h))
InRound-calls gen calls (loaded my_gen) h = (omega (arith, h), omega (arith, h))
InRound-calls gen calls (waiting my_gen) h = (omega (arith, h), omega (arith, h))
InRound-calls gen calls (last my_gen) h = absurd (cc)
InRound-calls gen calls (cleared my_gen) h = absurd (cc)

IsClosing-calls :
    (n : ℕ) (s : Parties) (i : ℕ) → IsClosing n s → i < n → s.finished i ≡ s.words.generation
IsClosing-calls n s i h below = elim (Bool-cases (h.leader == i)) [
  | inl t ↦
      let e : h.leader ≡ i = ground arith in
      subst (λ k. s.finished k ≡ s.words.generation) e h.level
  | inr t ↦ (h.others i below (ground arith)).1
]

-- Whatever the order of the accesses of the parties that a barrier waits for, if none gives up and no
-- number of calls leaves 64 bits: a party has returned from as many calls as any other party has
-- arrived in, at most.
pub barrier-IsJoint :
    (n : ℕ) (s : Parties)
    → Reach n false s
    → ((i : ℕ) → i < n → s.finished i < u64_mod)
    → (i j : ℕ) → i < n
    → j < n
    → s.finished i ≤ s.finished j + (if has_arrived (s.position j) then 1 else 0)
barrier-IsJoint n s r small i j below k = elim (Reach-IsRound n s (omega (arith, below)) r small) [
  | inl h ↦
      let a = InRound-calls _ _ _ (h.each i below) in
      let b = InRound-calls _ _ _ (h.each j k) in omega (arith, a.0, b.1)
  | inr h ↦
      let a = IsClosing-calls n s i h below in
      let b = IsClosing-calls n s j h k in omega (arith, a, b)
]

-- How many accesses are left to a party in its call, if it never has to wait.
unfoldable pub accesses_left : Position → ℕ
accesses_left outside = 0
accesses_left (waiting my_gen) = 1
accesses_left (cleared my_gen) = 2
accesses_left (last my_gen) = 3
accesses_left (loaded my_gen) = 4

-- A party in an open round that is in a call and not among those that wait for it.
open-progress :
    (n : ℕ) (s : Parties) (i : ℕ) (p : Position)
    → s.position i ≡ p
    → InRound s.words.generation p (s.finished i)
    → counted s.words.generation p ≡ false
    → p ≢ outside
    → accesses_left ((act n s i).position i) < accesses_left (s.position i)
unfolding act advance InRound counted accesses_left
open-progress n s i outside e h off inside = absurd (inside refl)
open-progress n s i (loaded my_gen) e h off inside = elim (Bool-cases (s.words.count + 1 == n)) [
  | inl t ↦ rw (e, ==_refl i, t) (omega arith)
  | inr t ↦ rw (e, ==_refl i, t) (omega arith)
]
open-progress n s i (waiting my_gen) e h off inside =
    let over : leb s.words.generation my_gen ≡ false = ground (arith, h, off) in
    rw (e, ==_refl i, over) (omega arith)
open-progress n s i (last my_gen) e h off inside = absurd (cc)
open-progress n s i (cleared my_gen) e h off inside = absurd (cc)

-- If all parties are in a call, none gives up and no number of calls leaves 64 bits, then the next
-- access of some party brings it nearer to its return: the parties never wait for each other.
pub barrier-Progress :
    (n : ℕ) (s : Parties)
    → 0 < n
    → Reach n false s
    → ((i : ℕ) → i < n → s.finished i < u64_mod)
    → ((i : ℕ) → i < n → s.position i ≢ outside)
    → (i : ℕ) × (i < n) × (accesses_left ((act n s i).position i) < accesses_left (s.position i))
unfolding act advance accesses_left
barrier-Progress n s nz r small inside = elim (Reach-IsRound n s nz r small) [
  | inl h ↦
      let (i, below, off) =
        count_marked-missing (λ i. counted s.words.generation (s.position i)) n
          (omega (arith, h.few, h.arrived)) in
      (i, below, open-progress n s i (s.position i) refl (h.each i below) off (inside i below))
  | inr h ↦ (
    h.leader,
    h.known,
    elim h.busy [
      | inl (e, full) ↦ rw (e, ==_refl h.leader) (omega arith)
      | inr (e, none_left) ↦ rw (e, ==_refl h.leader) (omega arith)
    ],
  )
]
