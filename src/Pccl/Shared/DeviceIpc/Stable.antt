-- ===== src/Pccl/Shared/DeviceIpc/Stable.antt =====
-- What a reader accepts is a record that was published, and never parts of two (memory/shared_state.cpp).
use hy_link.Pccl.Shared.DeviceIpc.{
  DeviceIpcBuffer, even_seq, Writer, idle, storing, begin_publish, write_step, stored, Reader,
  attempts, reading, accepted, refused, read_step, record_words,
}
use hy_link.Pccl.Shared.DeviceIpc.Stores.{words_of, stored-stores_of, even_seq-even}
use hy_link.Pccl.Shared.DeviceIpc.Exchange.{
  Exchange, begun, written, Step, overtakes, begins, writes, dies, calls, reads, Reach, start,
  later, IsReading, IsWriting, IsStable,
}
use hy_link.Prelude.{
  ℕ, zero, suc, ◌+◌, ◌*◌, ◌%◌, ◌≤◌, ◌<◌, ◌≡◌, refl, sym, ap, ◌∙◌, subst, inl, inr, ◌&&◌, ◌||◌, not,
  [], ◌∷◌, arith, ltb, ◌==◌, Bool-cases, if-intro, assign_at, assign_at-same, assign_at-other,
  u64_mod, add64, add64-eq, true,
}

-- The record published under another number stays.
published-other :
    (s : Exchange) (r : DeviceIpcBuffer) (from seq i : ℕ)
    → seq < from + 2
    → assign_at s.published (from + 2) (words_of r) seq i ≡ s.published seq i
published-other s r from seq i h =
    ap (λ (f : ℕ → ℕ). f i)
      (assign_at-other s.published (from + 2) seq (words_of r) (omega (arith, h)))

-- What a reader has stays right when the slot's number goes up and older records stay.
reader-keeps :
    (seq seq' : ℕ) (published published' : ℕ → ℕ → ℕ) (reader : Reader)
    → seq < seq'
    → ((m i : ℕ) → m ≤ seq → published' m i ≡ published m i)
    → IsReading seq published reader
    → IsReading seq' published' reader
reader-keeps seq seq' published published' (attempts left) up same h = h
reader-keeps seq seq' published published' refused up same h = h
reader-keeps seq seq' published published' (reading left seq1 next got) up same (a, b, c, d) =
    (omega (arith, a, up), b, c, λ e. absurd (omega (arith, e, a, up)))
reader-keeps seq seq' published published' (accepted seq1 got) up same (a, b) =
    (omega (arith, a, up), λ i h. b i h ∙ sym (same seq1 i a))

begins-IsStable :
    (k : ℕ) (s : Exchange) (r : DeviceIpcBuffer)
    → 2 * suc k < u64_mod
    → IsStable k s
    → IsStable (suc k) (begun s r)
unfolding begun begin_publish
begins-IsStable k s r small h =
    let (even, up, near) = even_seq-even s.slot.seq (omega (arith, small, h.bound)) in
    let below : even_seq s.slot.seq ≤ 2 * k = omega (arith, even, near, h.bound) in
    let from = even_seq s.slot.seq in
    let e : add64 from 1 ≡ from + 1 = add64-eq from 1 (omega (arith, below, small)) in
    record {
      bound = omega (arith, e, below);
      writing = (
        e,
        even,
        omega (arith, below),
        λ i j.
            stored-stores_of r s.slot.words i j
            ∙ sym (ap (λ (f : ℕ → ℕ). f i) (assign_at-same s.published (from + 2) (words_of r))),
      );
      reading_ok =
          reader-keeps s.slot.seq (begun s r).slot.seq s.published (begun s r).published s.reader
            (omega (arith, e, up))
            (λ seq i j. published-other s r from seq i (omega (arith, j, up))) h.reading_ok;
    }

writes-at :
    (k : ℕ) (s : Exchange) (w : Writer)
    → 2 * k < u64_mod
    → s.writer ≡ w
    → IsStable k s
    → IsStable k (written s)
unfolding written write_step stored
writes-at k s idle small e h =
    let w : IsWriting k s.slot s.published idle =
      subst (IsWriting k s.slot s.published) e h.writing in
    rw e (record { bound = h.bound; writing = w; reading_ok = h.reading_ok })
writes-at k s (storing from ((i, v) ∷ rest)) small e h =
    let w : IsWriting k s.slot s.published (storing from ((i, v) ∷ rest)) =
      subst (IsWriting k s.slot s.published) e h.writing in
    rw e (record { bound = h.bound; writing = w; reading_ok = h.reading_ok })
writes-at k s (storing from []) small e h =
    let (now, even, below, all) : IsWriting k s.slot s.published (storing from []) =
      subst (IsWriting k s.slot s.published) e h.writing in
    let next : add64 from 2 ≡ from + 2 = add64-eq from 2 (omega (arith, below, small)) in
    rw (e, next)
      (record {
        bound = below;
        writing = λ a b. all;
        reading_ok =
            reader-keeps s.slot.seq (from + 2) s.published s.published s.reader (omega (arith, now))
              (λ m i j. refl) h.reading_ok;
      })

-- A writer that dies leaves an odd number.
dies-at :
    (k : ℕ) (s : Exchange) (w : Writer)
    → s.writer ≡ w
    → IsStable k s
    → IsWriting k s.slot s.published idle
dies-at k s idle e h = subst (IsWriting k s.slot s.published) e h.writing
dies-at k s (storing from rest) e h =
    let (now, even, below, all) : IsWriting k s.slot s.published (storing from rest) =
      subst (IsWriting k s.slot s.published) e h.writing in
    λ a b. absurd (omega (arith, now, even, a))

reads-at :
    (k : ℕ) (s : Exchange) (reader : Reader)
    → s.reader ≡ reader
    → IsStable k s
    → IsReading s.slot.seq s.published (read_step s.slot reader)
unfolding read_step
reads-at k s refused e h = tt
reads-at k s (accepted seq1 got) e h = subst (IsReading s.slot.seq s.published) e h.reading_ok
reads-at k s (attempts zero) e h = tt
reads-at k s (attempts (suc left)) e h =
    if-intro (IsReading s.slot.seq s.published) (s.slot.seq == 0 || not (s.slot.seq % 2 == 0))
      (λ t. tt)
      (λ t. (omega arith, ground (arith, t), ground (arith, t), λ _ i j. absurd (omega (arith, j))))
reads-at k s (reading left seq1 next got) e h =
    let (a, b, c, d) : IsReading s.slot.seq s.published (reading left seq1 next got) =
      subst (IsReading s.slot.seq s.published) e h.reading_ok in
    if-intro (IsReading s.slot.seq s.published) (ltb next record_words)
      (λ t. (
        a,
        b,
        c,
        λ same i j l. elim (Bool-cases (next == i)) [
          | inl u ↦
              let at_seq1 =
                subst (λ m. s.slot.words i ≡ s.published m i) (sym same)
                  (dies-at k s s.writer refl h (omega (arith, b, same)) (λ z. c (same ∙ z)) i l) in
              let here : next ≡ i = ground arith in
              rw u (subst (λ m. s.slot.words m ≡ s.published seq1 i) (sym here) at_seq1)
          | inr u ↦ rw u (d same i (ground (arith, j, u)) l)
        ],
      ))
      (λ t.
        if-intro (IsReading s.slot.seq s.published) (seq1 == s.slot.seq && (s.slot.seq % 2 == 0))
          (λ u. (a, λ i l. d (ground (arith, u)) i (ground (arith, t, l)) l)) (λ u. tt))

Step-IsStable :
    (k n : ℕ) (s t : Exchange) → 2 * n < u64_mod → Step true k s n t → IsStable k s → IsStable n t
Step-IsStable k _ s _ small (overtakes i v weak free) h = absurd (cc)
Step-IsStable k _ s _ small (begins r free) h = begins-IsStable k s r small h
Step-IsStable k _ s _ small writes h = writes-at k s s.writer small refl h
Step-IsStable k _ s _ small dies h = record {
  bound = h.bound;
  writing = dies-at k s s.writer refl h;
  reading_ok = h.reading_ok;
}
Step-IsStable k _ s _ small calls h = record {
  bound = h.bound;
  writing = h.writing;
  reading_ok = tt;
}
Step-IsStable k _ s _ small reads h = record {
  bound = h.bound;
  writing = h.writing;
  reading_ok = reads-at k s s.reader refl h;
}

Step-calls : (k n : ℕ) (s t : Exchange) → Step true k s n t → k ≤ n
Step-calls k _ s _ (overtakes i v weak free) = omega arith
Step-calls k _ s _ (begins r free) = omega arith
Step-calls k _ s _ writes = omega arith
Step-calls k _ s _ dies = omega arith
Step-calls k _ s _ calls = omega arith
Step-calls k _ s _ reads = omega arith

Reach-IsStable : (k : ℕ) (s : Exchange) → 2 * k < u64_mod → Reach true k s → IsStable k s
Reach-IsStable _ _ small start = record {
  bound = omega arith;
  writing = λ a b. absurd (b refl);
  reading_ok = tt;
}
Reach-IsStable _ t small (later {k} {n} {s} r step) =
    Step-IsStable k n s t small step
      (Reach-IsStable k s (omega (arith, small, Step-calls k n s t step)) r)

-- On memory that makes a thread's stores visible in their order, which the code does not ask for:
-- whatever the order of the accesses of a writer, which may die, and of a reader, if the writers make
-- fewer than 2^63 calls, the words that the reader accepts are all those of the one record that was
-- published under the sequence number that it saw.
pub read-IsPublished :
    (k : ℕ) (s : Exchange) (seq1 : ℕ) (got : ℕ → ℕ)
    → 2 * k < u64_mod
    → Reach true k s
    → s.reader ≡ accepted seq1 got
    → (i : ℕ) → i < record_words
    → got i ≡ s.published seq1 i
read-IsPublished k s seq1 got small r e =
    (subst (IsReading s.slot.seq s.published) e (Reach-IsStable k s small r).reading_ok).1
