-- ===== src/Pccl/Progress/Interleave.antt =====
-- The progress counters when the ranks' operations interleave, each compare-exchange loop a step of
-- its own, and the reset between epochs (memory/shared_state).
use hy_link.Prelude.Int.{ℤ, pos, negsuc}
use hy_link.Pccl.Progress.Reports.{
  ReaderReport, quiet, loading, begin_report, report_step, System, after, Step, write, report,
  go_on, Run, stop, step,
}
use hy_link.Prelude.{
  ℕ, ◌%◌, ◌≤◌, ◌<◌, true, if◌then◌else◌, List, [], ◌∷◌, ◌≡◌, refl, ◌∙◌, arith, Bool-cases, inl, inr,
  ◌≢◌, All, ==_refl, sym, subst, ltb, leb, ◌==◌, if-intro,
}
use hy_link.Pccl.Ir.{ProgressKey, max_progress_readers}
use hy_link.Pccl.Ir.Keys.{key_eq_refl}
use hy_link.Pccl.Progress.{
  ProgressState, slot_of, raise, get_write_progress, get_consume_progress, get_num_readers,
  advance_write_progress, clear_key, has_state, reset_epoch_keys,
}
use hy_link.Pccl.Progress.Consume.{
  IsConsumed, Grows, mark_reader-Grows, mark_reader-IsConsumed, raise_consume-IsConsumed,
  raise_consume-Grows,
}

-- What a call has loaded so far is at most what every reader that it has visited has reported.
abbrev IsLow : ProgressState → ReaderReport → Type 0
IsLow st quiet = Unit
IsLow st (loading key epoch i min_rd) =
    (j : ℕ) → j < i → min_rd ≤ st.reader_done (slot_of key) j (epoch % 2)

IsLow-Grows :
    (st later : ProgressState) (c : ReaderReport) → Grows st later → IsLow st c → IsLow later c
IsLow-Grows st later quiet g h = tt
IsLow-Grows st later (loading key epoch i min_rd) g h =
    λ j k. let p = h j k in let q = g.2 (slot_of key) j (epoch % 2) in omega (arith, p, q)

Grows-refl : (st : ProgressState) → Grows st st
Grows-refl st =
    (λ slot ep. omega arith, λ slot ep. omega arith, λ slot i ep. omega arith, λ slot. refl)

Grows-trans : (a b c : ProgressState) → Grows a b → Grows b c → Grows a c
Grows-trans a b c g h = (
  λ slot ep. (let p = g.0 slot ep in let q = h.0 slot ep in omega (arith, p, q)),
  λ slot ep. (let p = g.1 slot ep in let q = h.1 slot ep in omega (arith, p, q)),
  λ slot i ep. (let p = g.2 slot i ep in let q = h.2 slot i ep in omega (arith, p, q)),
  λ slot. g.3 slot ∙ h.3 slot,
)

-- What a thread's step does to the counters, and what it knows afterwards.
abbrev Kept : ProgressState → ProgressState × ReaderReport → Type 0
Kept st r = Grows st r.0 × IsConsumed r.0 × IsLow r.0 r.1

begin_report-Kept :
    (st : ProgressState) (key : ProgressKey) (reader : ℤ) (new_val epoch : ℕ)
    → IsConsumed st
    → Kept st (begin_report st key reader new_val epoch)
unfolding begin_report
begin_report-Kept st key (negsuc reader) new_val epoch h = (Grows-refl st, h, tt)
begin_report-Kept st key (pos reader) new_val epoch h =
    if-intro (Kept st) (leb max_progress_readers reader) (λ _. (Grows-refl st, h, tt))
      (λ _. (
        mark_reader-Grows st key reader new_val epoch,
        mark_reader-IsConsumed st key reader new_val epoch h,
        λ j k. absurd (omega (arith, k)),
      ))

report_step-Kept :
    (st : ProgressState) (c : ReaderReport)
    → IsConsumed st
    → IsLow st c
    → Kept st (report_step st c)
unfolding report_step
report_step-Kept st quiet h low = (Grows-refl st, h, tt)
report_step-Kept st (loading key epoch i min_rd) h low =
    let v = st.reader_done (slot_of key) i (epoch % 2) in
    if-intro (Kept st) (ltb i (get_num_readers st key))
      (λ _. (
        Grows-refl st,
        h,
        λ j k. elim (Bool-cases (j == i)) [
          | inl t ↦ let e : j ≡ i = ground arith in rw e (ground arith)
          | inr t ↦ let p = low j (ground (arith, k)) in ground (arith, p)
        ],
      ))
      (λ t. (
        raise_consume-Grows st key min_rd epoch,
        raise_consume-IsConsumed st key min_rd epoch h (λ j k. low j (ground (arith, k, t))),
        tt,
      ))

-- The counters promise what they should, and so does every call in progress.
abbrev IsSound : System → Type 0
IsSound s = IsConsumed s.counters × ((thread : ℕ) → IsLow s.counters (s.call thread))

after-IsSound :
    (s : System) (thread : ℕ) (r : ProgressState × ReaderReport)
    → IsSound s
    → Kept s.counters r
    → Grows s.counters r.0 × IsSound (after s thread r)
after-IsSound s thread r h k = (
  k.0,
  (
    k.1,
    λ other.
        if-intro (IsLow r.0) (thread == other) (λ _. k.2)
          (λ _. IsLow-Grows s.counters r.0 (s.call other) k.0 (h.1 other)),
  ),
)

Step-IsSound :
    (s next : System) → Step s next → IsSound s → Grows s.counters next.counters × IsSound next
unfolding advance_write_progress raise
Step-IsSound _ _ (write s key value epoch) h =
    let g : Grows s.counters (advance_write_progress s.counters key value epoch) =
      (λ slot ep. ground arith, λ slot ep. omega arith, λ slot i ep. omega arith, λ slot. refl) in
    (g, (h.0, λ thread. IsLow-Grows s.counters _ (s.call thread) g (h.1 thread)))
Step-IsSound _ _ (report s thread key reader new_val epoch free) h =
    after-IsSound s thread _ h (begin_report-Kept s.counters key reader new_val epoch h.0)
Step-IsSound _ _ (go_on s thread) h =
    after-IsSound s thread _ h (report_step-Kept s.counters (s.call thread) h.0 (h.1 thread))

Run-IsSound :
    (s last : System) → Run s last → IsSound s → Grows s.counters last.counters × IsSound last
Run-IsSound _ _ (stop s) h = (Grows-refl s.counters, h)
Run-IsSound _ _ (step s next last one run) h =
    let first = Step-IsSound s next one h in
    let rest = Run-IsSound next last run first.1 in
    (Grows-trans s.counters next.counters last.counters first.0 rest.0, rest.1)

-- If no consume counter is ahead of a registered reader at first and no report is under way, then
-- however writes and the single accesses of reports interleave, while no reader is registered and no
-- epoch is reset, none is afterwards, no counter falls and the readers stay the same.
pub Run-IsConsumed :
    (s last : System)
    → Run s last
    → ((thread : ℕ) → s.call thread ≡ quiet)
    → IsConsumed s.counters
    → IsConsumed last.counters × Grows s.counters last.counters
Run-IsConsumed s last run free h =
    let done =
      Run-IsSound s last run (h, λ thread. subst (IsLow s.counters) (sym (free thread)) tt) in
    (done.1.0, done.0)

-- The cell of a key with all its counters at zero.
abbrev pub IsClear : ProgressState → ℕ → ProgressKey → Type 0
IsClear st epoch key =
    (get_write_progress st key epoch ≡ 0)
    × (get_consume_progress st key epoch ≡ 0)
    × ((i : ℕ) → st.reader_done (slot_of key) i (epoch % 2) ≡ 0)

clear_key-IsClear :
    (st : ProgressState) (epoch : ℕ) (key : ProgressKey)
    → IsClear (clear_key st epoch key) epoch key
unfolding clear_key get_write_progress get_consume_progress
clear_key-IsClear st epoch key = (
  rw (key_eq_refl (slot_of key), ==_refl (epoch % 2)) refl,
  rw (key_eq_refl (slot_of key), ==_refl (epoch % 2)) refl,
  λ i. rw (key_eq_refl (slot_of key), ==_refl (epoch % 2)) refl,
)

clear_key-keeps :
    (st : ProgressState) (epoch : ℕ) (key other : ProgressKey)
    → IsClear st epoch other
    → IsClear (clear_key st epoch key) epoch other
unfolding clear_key get_write_progress get_consume_progress
clear_key-keeps st epoch key other h =
    (ground (arith, h.0), ground (arith, h.1), λ i. let p = h.2 i in ground (arith, p))

reset-keeps :
    (st : ProgressState) (epoch : ℕ) (keys : List ProgressKey) (other : ProgressKey)
    → IsClear st epoch other
    → IsClear (reset_epoch_keys st epoch keys) epoch other
unfolding reset_epoch_keys
reset-keeps st epoch [] other h = h
reset-keeps st epoch (key ∷ keys) other h =
    reset-keeps (if has_state key then clear_key st epoch key else st) epoch keys other
      (elim (Bool-cases (has_state key)) [
        | inl t ↦ rw t (clear_key-keeps st epoch key other h)
        | inr t ↦ rw t h
      ])

-- After a reset every listed key in range is at zero in the epoch, for all readers.
pub reset_epoch_keys-IsClear :
    (st : ProgressState) (epoch : ℕ) (keys : List ProgressKey)
    → All (λ key. has_state key ≡ true → IsClear (reset_epoch_keys st epoch keys) epoch key) keys
unfolding reset_epoch_keys
reset_epoch_keys-IsClear st epoch [] = tt
reset_epoch_keys-IsClear st epoch (key ∷ keys) = (
  λ h.
      reset-keeps (if has_state key then clear_key st epoch key else st) epoch keys key
        (rw h (clear_key-IsClear st epoch key)),
  reset_epoch_keys-IsClear (if has_state key then clear_key st epoch key else st) epoch keys,
)

-- The counters of one epoch parity.
abbrev pub SameEpoch : ProgressState → ProgressState → ℕ → Type 0
SameEpoch a b ep =
    (slot : ProgressKey)
    → (a.write_progress slot ep ≡ b.write_progress slot ep)
      × (a.consume_progress slot ep ≡ b.consume_progress slot ep)
      × ((i : ℕ) → a.reader_done slot i ep ≡ b.reader_done slot i ep)

-- A reset does not touch the counters of the other epoch parity, in which the neighbouring
-- collective runs.
pub reset_epoch_keys-SameEpoch :
    (st : ProgressState) (epoch ep : ℕ) (keys : List ProgressKey)
    → epoch % 2 ≢ ep
    → SameEpoch (reset_epoch_keys st epoch keys) st ep
unfolding reset_epoch_keys clear_key
reset_epoch_keys-SameEpoch st epoch ep [] h slot = (refl, refl, λ i. refl)
reset_epoch_keys-SameEpoch st epoch ep (key ∷ keys) h slot =
    let ih =
      reset_epoch_keys-SameEpoch (if has_state key then clear_key st epoch key else st) epoch ep
        keys h slot in
    (ih.0 ∙ ground arith, ih.1 ∙ ground arith, λ i. ih.2 i ∙ ground arith)

-- After a reset every listed key in range is at zero in the epoch, for all readers, and the counters
-- of the other epoch parity, in which the neighbouring collective runs, are untouched.
pub reset_epoch_keys_lem :
    (st : ProgressState) (epoch ep : ℕ) (keys : List ProgressKey)
    → epoch % 2 ≢ ep
    → All (λ key. has_state key ≡ true → IsClear (reset_epoch_keys st epoch keys) epoch key) keys
      × SameEpoch (reset_epoch_keys st epoch keys) st ep
reset_epoch_keys_lem st epoch ep keys h =
    (reset_epoch_keys-IsClear st epoch keys, reset_epoch_keys-SameEpoch st epoch ep keys h)
