-- ===== src/Pccl/Progress/Reports.antt =====
-- pcie-ccl-cuda/src/memory/shared_state.hpp: advanceReaderDone as the accesses of shared words that it
-- makes, each compare-exchange loop and each load of a reader's counter one step, with writers and
-- other readers in between. Readers are registered before the first step, and no epoch is reset.
use hy_link.Prelude.{ℕ, ◌%◌, suc, ltb, leb, ◌≡◌, if◌then◌else◌, assign_at}
use hy_link.Prelude.Int.{ℤ, pos, negsuc}
use hy_link.Pccl.Ir.{ProgressKey, max_progress_readers}
use hy_link.Pccl.Progress.{
  ProgressState, slot_of, get_num_readers, advance_write_progress, mark_reader, raise_consume,
}

-- Where a thread stands in advanceReaderDone: reader `i` is the next whose counter it loads.
pub data ReaderReport : Type 0 where
  quiet : ReaderReport
  loading : (key : ProgressKey) (epoch i min_rd : ℕ) → ReaderReport

-- The range test and the first compare-exchange loop.
unfoldable pub begin_report : ProgressState → ProgressKey → ℤ → ℕ → ℕ → ProgressState × ReaderReport
unfolding mark_reader
begin_report st key (negsuc reader) new_val epoch = (st, quiet)
begin_report st key (pos reader) new_val epoch =
    if leb max_progress_readers reader
    then (st, quiet)
    else (mark_reader st key reader new_val epoch, loading key epoch 0 new_val)

-- The next load of the loop over the readers, or after the last the raise of the consume counter.
unfoldable pub report_step : ProgressState → ReaderReport → ProgressState × ReaderReport
unfolding raise_consume get_num_readers
report_step st quiet = (st, quiet)
report_step st (loading key epoch i min_rd) =
    let v = st.reader_done (slot_of key) i (epoch % 2) in
    if ltb i (get_num_readers st key)
    then (st, loading key epoch (suc i) (if ltb v min_rd then v else min_rd))
    else (raise_consume st key min_rd epoch, quiet)

pub record System : Type 0 where
  pub counters : ProgressState
  pub call : ℕ → ReaderReport

abbrev pub after : System → ℕ → ProgressState × ReaderReport → System
after s thread r = record { counters = r.0; call = assign_at s.call thread r.1 }

-- One step of some thread.
pub data Step : System → System → Type 0 where
  write :
      (s : System) (key : ProgressKey) (value epoch : ℕ)
      → Step s (record s { counters = advance_write_progress s.counters key value epoch })
  report :
      (s : System) (thread : ℕ) (key : ProgressKey) (reader : ℤ) (new_val epoch : ℕ)
      → s.call thread ≡ quiet
      → Step s (after s thread (begin_report s.counters key reader new_val epoch))
  go_on :
      (s : System) (thread : ℕ) → Step s (after s thread (report_step s.counters (s.call thread)))

-- Any interleaving of steps.
pub data Run : System → System → Type 0 where
  stop : (s : System) → Run s s
  step : (s next last : System) → Step s next → Run next last → Run s last
