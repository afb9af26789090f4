-- ===== src/Pccl/Progress/Alone.antt =====
-- pcie-ccl-cuda/src/memory/shared_state.hpp: the single accesses of advanceReaderDone, with nothing
-- between them, make the whole call.
use hy_link.Prelude.{ℕ, zero, suc}
use hy_link.Pccl.Progress.{ProgressState}
use hy_link.Pccl.Progress.Reports.{ReaderReport, report_step}

-- So many steps of a report.
abbrev pub report_steps : ℕ → ProgressState × ReaderReport → ProgressState × ReaderReport
report_steps zero r = r
report_steps (suc n) r = report_steps n (report_step r.0 r.1)
