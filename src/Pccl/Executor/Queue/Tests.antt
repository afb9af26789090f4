-- ===== src/Pccl/Executor/Queue/Tests.antt =====
-- Runs of a queue of depth two, and a witness.
use hy_link.Prelude.{ℕ, ◌≤◌, ◌≡◌, refl, true, false, List, [], ◌∷◌, length}
use hy_link.Pccl.Executor.Queue.{
  WorkItem, Executor, Run, submit_begin, submit_end, take_work, begin_step, end_step, take_step,
  here, more, fresh, active, is_success, take_from,
}
use hy_link.Pccl.Executor.Queue.Slots.{DistinctSlots, in_flight, Run-DistinctSlots}

abbrev slots_of : List WorkItem → List ℕ
slots_of [] = []
slots_of (item ∷ items) = item.slot ∷ slots_of items

abbrev one_queued : Executor
one_queued = (submit_end (submit_begin (fresh 2)).1 true).1

abbrev one_running : Executor
one_running = take_work one_queued

abbrev two_in_flight : Executor
two_in_flight = (submit_end (submit_begin one_running).1 true).1

two_slots : slots_of (in_flight two_in_flight) ≡ 0 ∷ 1 ∷ []
unfolding submit_begin submit_end take_from active is_success
two_slots = refl

-- A submission whose user stream cannot be prepared gives its number up, and the next one takes the
-- slot of the collective that is still running.
shared_slot :
    slots_of (
      in_flight
        (submit_end (submit_begin (submit_end (submit_begin one_running).1 false).1).1 true).1)
    ≡ 0 ∷ 0 ∷ []
unfolding submit_begin submit_end take_from active is_success
shared_slot = refl

two-Run : Run (fresh 2) two_in_flight
unfolding submit_begin submit_end take_from active is_success
two-Run = more (fresh 2) (submit_begin (fresh 2)).1 two_in_flight (begin_step (fresh 2) refl) (
    more (submit_begin (fresh 2)).1 one_queued two_in_flight (end_step (submit_begin (fresh 2)).1) (
      more one_queued one_running two_in_flight (take_step one_queued refl) (
        more one_running (submit_begin one_running).1 two_in_flight (begin_step one_running refl) (
          more (submit_begin one_running).1 two_in_flight two_in_flight
            (end_step (submit_begin one_running).1) (here two_in_flight)))))

Run-DistinctSlots_example :
    DistinctSlots (in_flight two_in_flight)
    × (length (in_flight two_in_flight) ≤ two_in_flight.queue_depth)
Run-DistinctSlots_example = Run-DistinctSlots 2 two_in_flight two-Run
