-- ===== src/Pccl/Progress/Tests.antt =====
-- Two readers of one chunk version, and witnesses.
use hy_link.Prelude.{ℕ, ◌%◌, ◌≤◌, ◌<◌, ◌≡◌, ◌≢◌, refl, true, [], ◌∷◌, arith, All}
use hy_link.Prelude.Int.{pos}
use hy_link.Pccl.Ir.{ProgressKey, ProgressSpace, key_eq}
use hy_link.Pccl.Progress.{
  ProgressState, progress_version_index, slot_of, raise, get_consume_progress, get_num_readers,
  mark_reader, raise_consume, advance_reader_done, reset_epoch_keys, has_state, min_loop,
}
use hy_link.Pccl.Progress.Consume.{IsConsumed, Grows, advance_reader_done_complete}
use hy_link.Pccl.Progress.Reports.{
  quiet, begin_report, report_step, System, after, report, go_on, Run, stop, step,
}
use hy_link.Pccl.Progress.Interleave.{Run-IsConsumed, IsClear, SameEpoch, reset_epoch_keys_lem}

abbrev chunk_key : ℕ → ProgressKey
chunk_key version = record {
  space = ProgressSpace.host;
  owner = pos 0;
  chunk = pos 3;
  version = version;
}

-- Two readers are registered for every chunk version, and nothing has run.
abbrev two_readers : ProgressState
two_readers = record {
  write_progress = λ k e. 0;
  consume_progress = λ k e. 0;
  reader_done = λ k i e. 0;
  num_readers = λ k. 2;
}

abbrev first_done : ProgressState
first_done = advance_reader_done two_readers (chunk_key 1) (pos 0) 5 7

abbrev both_done : ProgressState
both_done = advance_reader_done first_done (chunk_key 1) (pos 1) 4 7

consumed_last : get_consume_progress both_done (chunk_key 1) 7 ≡ 4
unfolding get_consume_progress advance_reader_done mark_reader raise_consume raise min_loop slot_of
    key_eq progress_version_index
consumed_last = refl

first_reported :
    (i : ℕ) → i < 2 → i ≢ 1 → 4 ≤ first_done.reader_done (slot_of (chunk_key 1)) i (7 % 2)
unfolding advance_reader_done mark_reader raise_consume slot_of key_eq progress_version_index
first_reported i h k = ground (arith, h, k)

advance_reader_done_complete_example :
    4
    ≤ get_consume_progress
        (advance_reader_done first_done (chunk_key 1) (pos 1) 4 7)
        (chunk_key 1)
        7
unfolding advance_reader_done mark_reader raise_consume get_num_readers
advance_reader_done_complete_example =
    advance_reader_done_complete first_done (chunk_key 1) 1 4 7 4 (omega arith) (omega arith)
      first_reported

abbrev no_calls : System
no_calls = record { counters = two_readers; call = λ thread. quiet }

-- Rank 0 reports slice 5, rank 1 slice 4 while rank 0 is in its loop; both end.
abbrev began : System
began = after no_calls 0 (begin_report two_readers (chunk_key 1) (pos 0) 5 7)

abbrev crossed : System
crossed = after began 1 (begin_report began.counters (chunk_key 1) (pos 1) 4 7)

abbrev go : System → ℕ → System
go s thread = after s thread (report_step s.counters (s.call thread))

abbrev ended : System
ended = go (go (go (go (go (go crossed 0) 1) 0) 1) 1) 0

crossed_consumed : get_consume_progress ended.counters (chunk_key 1) 7 ≡ 4
unfolding get_consume_progress begin_report report_step mark_reader raise_consume raise slot_of
    get_num_readers key_eq progress_version_index
crossed_consumed = refl

interleaved : Run no_calls ended
unfolding begin_report
interleaved = step no_calls began ended (report no_calls 0 (chunk_key 1) (pos 0) 5 7 refl) (
    step began crossed ended (report began 1 (chunk_key 1) (pos 1) 4 7 refl) (
      step crossed (go crossed 0) ended (go_on crossed 0) (
        step (go crossed 0) (go (go crossed 0) 1) ended (go_on (go crossed 0) 1) (
          step (go (go crossed 0) 1) (go (go (go crossed 0) 1) 0) ended
            (go_on (go (go crossed 0) 1) 0)
            (step (go (go (go crossed 0) 1) 0) (go (go (go (go crossed 0) 1) 0) 1) ended
              (go_on (go (go (go crossed 0) 1) 0) 1)
              (step (go (go (go (go crossed 0) 1) 0) 1) (go (go (go (go (go crossed 0) 1) 0) 1) 1)
                ended (go_on (go (go (go (go crossed 0) 1) 0) 1) 1)
                (step (go (go (go (go (go crossed 0) 1) 0) 1) 1) ended ended
                  (go_on (go (go (go (go (go crossed 0) 1) 0) 1) 1) 0) (stop ended))))))))

Run-IsConsumed_example : IsConsumed ended.counters × Grows two_readers ended.counters
Run-IsConsumed_example =
    Run-IsConsumed no_calls ended interleaved (λ thread. refl) (λ slot ep reader h. omega arith)

reset_epoch_keys_lem_example :
    All
      (λ key.
        has_state key ≡ true → IsClear (reset_epoch_keys both_done 8 (chunk_key 1 ∷ [])) 8 key)
      (chunk_key 1 ∷ [])
    × SameEpoch (reset_epoch_keys both_done 8 (chunk_key 1 ∷ [])) both_done 1
reset_epoch_keys_lem_example =
    reset_epoch_keys_lem both_done 8 1 (chunk_key 1 ∷ []) (λ e. omega arith)
