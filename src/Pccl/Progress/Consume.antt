-- ===== src/Pccl/Progress/Consume.antt =====
-- What a consume counter promises: every registered reader has got that far (memory/shared_state).
use hy_link.Prelude.{
  ℕ, ◌+◌, ◌%◌, ◌≤◌, ◌<◌, zero, suc, max, ltb, leb, ◌==◌, true, false, ◌&&◌, if◌then◌else◌, ◌≡◌,
  refl, sym, arith, Bool-cases, inl, inr, ◌≢◌, ==_refl,
}
use hy_link.Prelude.Int.{ℤ, pos, negsuc}
use hy_link.Pccl.Ir.{ProgressKey, key_eq, max_progress_readers}
use hy_link.Pccl.Ir.Keys.{key_eq_iff, key_eq_refl}
use hy_link.Pccl.Progress.{
  ProgressState, slot_of, raise, get_consume_progress, get_num_readers, mark_reader, min_loop,
  raise_consume, advance_reader_done,
}

-- No consume counter is ahead of a registered reader of its chunk version.
abbrev pub IsConsumed : ProgressState → Type 0
IsConsumed st =
    (slot : ProgressKey) (ep reader : ℕ)
    → reader < st.num_readers slot
    → st.consume_progress slot ep ≤ st.reader_done slot reader ep

-- The counters of `st` are at most those of `later`, and the readers the same.
abbrev pub Grows : ProgressState → ProgressState → Type 0
Grows st later =
    ((slot : ProgressKey) (ep : ℕ) → st.write_progress slot ep ≤ later.write_progress slot ep)
    × ((slot : ProgressKey) (ep : ℕ) → st.consume_progress slot ep ≤ later.consume_progress slot ep)
    × ((slot : ProgressKey) (reader ep : ℕ)
        → st.reader_done slot reader ep ≤ later.reader_done slot reader ep)
    × ((slot : ProgressKey) → st.num_readers slot ≡ later.num_readers slot)

min_loop-le :
    (done : ℕ → ℕ) (n i m : ℕ)
    → (min_loop done n i m ≤ m) × ((j : ℕ) → i ≤ j → j < i + n → min_loop done n i m ≤ done j)
unfolding min_loop
min_loop-le done zero i m = (omega arith, λ j h k. absurd (omega (arith, h, k)))
min_loop-le done (suc n) i m =
    let ih = min_loop-le done n (suc i) (if ltb (done i) m then done i else m) in
    (
      ground (arith, ih.0),
      λ j h k. elim (Bool-cases (i == j)) [
        | inl t ↦ let e : i ≡ j = ground arith in rw (sym e) (ground (arith, ih.0))
        | inr t ↦ ih.1 j (ground arith) (omega (arith, k))
      ],
    )

min_loop-least :
    (done : ℕ → ℕ) (n i m v : ℕ)
    → v ≤ m
    → ((j : ℕ) → i ≤ j → j < i + n → v ≤ done j)
    → v ≤ min_loop done n i m
unfolding min_loop
min_loop-least done zero i m v h all = h
min_loop-least done (suc n) i m v h all =
    min_loop-least done n (suc i) _ v
      (let p = all i (omega arith) (omega arith) in ground (arith, p, h))
      (λ j a b. all j (omega (arith, a)) (omega (arith, b)))

pub mark_reader-Grows :
    (st : ProgressState) (key : ProgressKey) (reader new_val epoch : ℕ)
    → Grows st (mark_reader st key reader new_val epoch)
unfolding mark_reader
mark_reader-Grows st key reader new_val epoch =
    (λ slot ep. omega arith, λ slot ep. omega arith, λ slot i ep. ground arith, λ slot. refl)

pub mark_reader-IsConsumed :
    (st : ProgressState) (key : ProgressKey) (reader new_val epoch : ℕ)
    → IsConsumed st
    → IsConsumed (mark_reader st key reader new_val epoch)
unfolding mark_reader
mark_reader-IsConsumed st key reader new_val epoch h slot ep i k =
    let p = h slot ep i k in
    let q = (mark_reader-Grows st key reader new_val epoch).2 slot i ep in omega (arith, p, q)

-- The cell of a counter that an operation on `key` and `epoch` writes.
same_cell :
    (key slot : ProgressKey) (epoch ep : ℕ)
    → (key_eq (slot_of key) slot && (epoch % 2 == ep)) ≡ true
    → (slot_of key ≡ slot) × (epoch % 2 ≡ ep)
same_cell key slot epoch ep t =
    ((key_eq_iff (slot_of key) slot).0 (ground (arith, t)), ground (arith, t))

-- Raising the consume counter to a value that every reader has reached.
pub raise_consume-IsConsumed :
    (st : ProgressState) (key : ProgressKey) (min_rd epoch : ℕ)
    → IsConsumed st
    → ((i : ℕ) → i < get_num_readers st key → min_rd ≤ st.reader_done (slot_of key) i (epoch % 2))
    → IsConsumed (raise_consume st key min_rd epoch)
unfolding raise_consume raise get_num_readers
raise_consume-IsConsumed st key min_rd epoch h low slot ep i k =
    elim (Bool-cases (key_eq (slot_of key) slot && (epoch % 2 == ep))) [
      | inl t ↦
          let (e, d) = same_cell key slot epoch ep t in
          let p : min_rd ≤ st.reader_done slot i ep =
            let k' : i < get_num_readers st key = rw (get_num_readers, e) k in
            rw (sym e, sym d) (low i k') in
          let q = h slot ep i k in rw t (omega (arith, p, q))
      | inr t ↦ rw t (h slot ep i k)
    ]

pub raise_consume-Grows :
    (st : ProgressState) (key : ProgressKey) (min_rd epoch : ℕ)
    → Grows st (raise_consume st key min_rd epoch)
unfolding raise_consume raise
raise_consume-Grows st key min_rd epoch =
    (λ slot ep. omega arith, λ slot ep. ground arith, λ slot i ep. omega arith, λ slot. refl)

-- If no consume counter is ahead of a registered reader, none is after a reader's report, whatever
-- the reader's id.
pub advance_reader_done-IsConsumed :
    (st : ProgressState) (key : ProgressKey) (reader : ℤ) (new_val epoch : ℕ)
    → IsConsumed st
    → IsConsumed (advance_reader_done st key reader new_val epoch)
unfolding advance_reader_done get_num_readers
advance_reader_done-IsConsumed st key (negsuc reader) new_val epoch h = h
advance_reader_done-IsConsumed st key (pos reader) new_val epoch h =
    elim (Bool-cases (leb max_progress_readers reader)) [
      | inl t ↦ rw t h
      | inr t ↦
          let marked = mark_reader st key reader new_val epoch in
          let done : ℕ → ℕ = λ i. marked.reader_done (slot_of key) i (epoch % 2) in
          rw t (
            raise_consume-IsConsumed marked key _ epoch
              (mark_reader-IsConsumed st key reader new_val epoch h)
              (λ i k.
                (min_loop-le done (marked.num_readers (slot_of key)) 0 new_val).1 i (omega arith)
                  (omega (arith, k))))
    ]

raise_consume-value :
    (st : ProgressState) (key : ProgressKey) (min_rd epoch : ℕ)
    → get_consume_progress (raise_consume st key min_rd epoch) key epoch
      ≡ max min_rd (get_consume_progress st key epoch)
unfolding raise_consume raise get_consume_progress
raise_consume-value st key min_rd epoch = rw (key_eq_refl (slot_of key), ==_refl (epoch % 2)) refl

mark_reader-value :
    (st : ProgressState) (key : ProgressKey) (reader new_val epoch i : ℕ)
    → (mark_reader st key reader new_val epoch).reader_done (slot_of key) i (epoch % 2) ≡ (
        if reader == i
        then max new_val (st.reader_done (slot_of key) i (epoch % 2))
        else st.reader_done (slot_of key) i (epoch % 2))
unfolding mark_reader
mark_reader-value st key reader new_val epoch i =
    rw (key_eq_refl (slot_of key), ==_refl (epoch % 2)) (ground arith)

-- If a reader with a valid id reports `v` or more and all other readers of the chunk version have
-- reported `v`, the consume counter is at least `v` afterwards: a writer that waits for `v` is
-- released by the last reader.
pub advance_reader_done_complete :
    (st : ProgressState) (key : ProgressKey) (reader new_val epoch v : ℕ)
    → reader < max_progress_readers
    → v ≤ new_val
    → ((i : ℕ)
        → i < get_num_readers st key
        → i ≢ reader
        → v ≤ st.reader_done (slot_of key) i (epoch % 2))
    → v ≤ get_consume_progress (advance_reader_done st key (pos reader) new_val epoch) key epoch
unfolding advance_reader_done get_num_readers mark_reader
advance_reader_done_complete st key reader new_val epoch v below h others =
    let marked = mark_reader st key reader new_val epoch in
    let done : ℕ → ℕ = λ i. marked.reader_done (slot_of key) i (epoch % 2) in
    let least = min_loop done (marked.num_readers (slot_of key)) 0 new_val in
    let low : v ≤ least =
      min_loop-least done (marked.num_readers (slot_of key)) 0 new_val v h (λ j a b.
        elim (Bool-cases (reader == j)) [
          | inl t ↦
              let value = mark_reader-value st key reader new_val epoch j in
              ground (arith, value, t, h)
          | inr t ↦
              let value = mark_reader-value st key reader new_val epoch j in
              let p = others j (omega (arith, b)) (ground arith) in ground (arith, value, t, p)
        ]) in
    let t : leb max_progress_readers reader ≡ false = ground (arith, below) in
    let value = raise_consume-value marked key least epoch in rw t (omega (arith, value, low))

-- A consume counter read by the key.
pub consume-reader :
    (st : ProgressState) (key : ProgressKey) (epoch : ℕ)
    → IsConsumed st
    → (reader : ℕ) → reader < get_num_readers st key
    → get_consume_progress st key epoch ≤ st.reader_done (slot_of key) reader (epoch % 2)
unfolding get_consume_progress get_num_readers
consume-reader st key epoch h reader k = h (slot_of key) (epoch % 2) reader k
