-- ===== src/Pccl/Shared/Barrier.antt =====
-- pcie-ccl-cuda/src/memory/shared_state.cpp: the barrier of a communicator. Each call makes one access
-- of the shared words at a time, and the accesses of the parties interleave in any order.
pub mod Rounds
pub mod Runs
pub mod Meeting
mod Tests
use hy_link.Prelude.{
  ℕ, ◌+◌, ◌<◌, ◌≡◌, Bool, true, false, ◌&&◌, Option, none, some, ltb, leb, ◌==◌, if◌then◌else◌,
  assign_at, add64,
}
use hy_link.Prelude.Int.{ℤ, is_nonneg, to_nat}
use hy_link.Pccl.Shared.{max_concurrent_comms, within}
use Prim.Native.String.{String}
use text.Mathlib.Text.{find?}

-- The words of one communicator and one of its barrier slots.
pub record BarrierWords : Type 0 where
  pub count : ℕ
  pub generation : ℕ

abbrev has_text : String → String → Bool
has_text site text = elim (find? site text) [ none ↦ false | some _ ↦ true ]

unfoldable pub barrier_slot_for_where : Option String → ℕ
barrier_slot_for_where none = 0
barrier_slot_for_where (some site) =
    if has_text site "ProcessState::initialize"
    then 0
    else if has_text site "submitCollective"
    then 1
    else if has_text site "GraphExecutor::runGraph"
    then 2
    else if has_text site "SmallMessageExecutor::execute"
    then 3
    else if has_text site "GraphExecutor::start"
    then 3
    else 0

-- The communicator and the number of parties that a call uses.
unfoldable pub comm_index : ℤ → ℕ
comm_index comm_id = if within comm_id max_concurrent_comms then to_nat comm_id else 0

unfoldable pub barrier_expected : (parties world_size : ℤ) → ℤ
barrier_expected parties world_size =
    if is_nonneg parties && ltb 0 (to_nat parties) then parties else world_size

-- Where a party is: out of a call, or in one after it has read the generation, and then waiting or, as
-- the last to arrive, about to clear the count or to raise the generation.
pub data Position : Type 0 where
  outside : Position
  loaded waiting last cleared : (my_gen : ℕ) → Position

pub record Advance : Type 0 where
  pub words : BarrierWords
  pub position : Position
  pub returned : Bool

abbrev moved : BarrierWords → Position → Advance
moved words position = record { words = words; position = position; returned = false }

-- The call returns true.
abbrev passed : BarrierWords → Advance
passed words = record { words = words; position = outside; returned = true }

-- The next access of a party, of `expected` that are awaited.
unfoldable pub advance : ℕ → BarrierWords → Position → Advance
advance expected w outside = moved w (loaded w.generation)
advance expected w (loaded my_gen) =
    moved (record w { count = w.count + 1 })
      (if w.count + 1 == expected then last my_gen else waiting my_gen)
advance expected w (last my_gen) = moved (record w { count = 0 }) (cleared my_gen)
advance expected w (cleared my_gen) = passed (record w { generation = add64 my_gen 1 })
advance expected w (waiting my_gen) =
    if leb w.generation my_gen then moved w (waiting my_gen) else passed w

-- The parties 0, 1, ... with the number of calls of each that have returned true.
pub record Parties : Type 0 where
  pub words : BarrierWords
  pub position : ℕ → Position
  pub finished : ℕ → ℕ

unfoldable pub act : ℕ → Parties → ℕ → Parties
unfolding advance
act n s i =
    let a = advance n s.words (s.position i) in
    record {
      words = a.words;
      position = assign_at s.position i a.position;
      finished = assign_at s.finished i (if a.returned then s.finished i + 1 else s.finished i);
    }

-- A party that has waited too long returns false and leaves the words as they are.
unfoldable pub give_up : Parties → ℕ → Parties
give_up s i = record s { position = assign_at s.position i outside }

pub data Step (n : ℕ) (timed : Bool) (s : Parties) : Parties → Type 0 where
  acts : (i : ℕ) → i < n → Step n timed s (act n s i)
  gives_up :
      (i my_gen : ℕ)
      → timed ≡ true
      → i < n
      → s.position i ≡ waiting my_gen
      → Step n timed s (give_up s i)

abbrev pub unused : Parties
unused = record {
  words = record { count = 0; generation = 0 };
  position = λ i. outside;
  finished = λ i. 0;
}

pub data Reach (n : ℕ) (timed : Bool) : Parties → Type 0 where
  start : Reach n timed unused
  later : {s t : Parties} → Reach n timed s → Step n timed s t → Reach n timed t
