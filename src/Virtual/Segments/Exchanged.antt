-- ===== src/Virtual/Segments/Exchanged.antt =====
-- multipath-orchestrator/libampccl/core/virtual_collective.h: after AllToAll and its callback the
-- receive buffer holds this rank's segment of the send buffer of every rank.
pub mod Callbacks
pub mod Branches
pub mod Total
use hy_link.Virtual.{pcie}
use hy_link.Virtual.Segments.{pcie_segments, Workspace, timed, pack_calls, merge_calls}
use hy_link.Virtual.Segments.Copies.{
  Buffer, Memory, Transfers, AllCopied, exec_one, exec, exec-merge_calls, exec-pack_calls,
}
use hy_link.Prelude.{
  List, ℕ, ◌+◌, ◌*◌, ◌≤◌, ◌<◌, ◌≡◌, sym, ap, ◌∙◌, subst, inl, inr, true, false, ◌&&◌, arith, ltb,
  if◌then◌else◌, Bool-cases,
}

module _ {D : Type 0} (t : Transfers D) (send : ℕ → Buffer D) (me es : ℕ) (ws : Workspace) where
  -- What the backends document of their calls and the runtime of its copies, in bytes, with elements of `es` bytes; the fast backend
  -- may exchange within one buffer.
  pub record ExchangeLaws : Type 0 where
    pub copies : AllCopied t
    pub whole_by_fast-at :
        (n r b : ℕ) (old : Buffer D)
        → r < ws.nranks
        → b < n * es
        → t.whole_by_fast n old (r * (n * es) + b) ≡ send r (me * (n * es) + b)
    pub whole_by_pcie-at :
        (n r b : ℕ) (old : Buffer D)
        → r < ws.nranks
        → b < n * es
        → t.whole_by_pcie (n * ws.nranks) old (r * (n * es) + b) ≡ send r (me * (n * es) + b)
    pub segments_by_fast-at :
        (n stride r b : ℕ) (old : Buffer D)
        → r < ws.nranks
        → b < n * es
        → n ≤ stride
        → t.segments_by_fast n stride old (r * (stride * es) + b) ≡ send r (me * (stride * es) + b)
    pub segments_by_pcie-at :
        (n stride r b : ℕ) (old : Buffer D)
        → r < ws.nranks
        → stride * es ≤ b
        → b < n * es
        → t.segments_by_pcie (n * ws.nranks) stride old (r * (n * es) + b)
          ≡ send r (me * (n * es) + b)
    pub segments_by_pcie-keeps :
        (n stride r b : ℕ) (old : Buffer D)
        → r < ws.nranks
        → b < stride * es
        → b < n * es
        → t.segments_by_pcie (n * ws.nranks) stride old (r * (n * es) + b) ≡ old (r * (n * es) + b)
    pub dense_by_fast-at :
        (n r b : ℕ) (m : Memory D)
        → r < ws.nranks
        → b < n * es
        → (t.dense_by_fast n m).dense me (r * (n * es) + b) ≡ m.dense r (me * (n * es) + b)

  abbrev pub IsExchanged : ℕ → Memory D → Type 0
  IsExchanged count m =
      (r b : ℕ)
      → r < ws.nranks
      → b < count * es
      → m.recv (r * (count * es) + b) ≡ send r (me * (count * es) + b)

  module _ (laws : ExchangeLaws) where
    pub both_parts :
        (count stride r b : ℕ) (old : Buffer D)
        → r < ws.nranks
        → b < count * es
        → (b < stride * es → old (r * (count * es) + b) ≡ send r (me * (count * es) + b))
        → t.segments_by_pcie (count * ws.nranks) stride old (r * (count * es) + b)
          ≡ send r (me * (count * es) + b)
    both_parts count stride r b old h k first = elim (Bool-cases (ltb b (stride * es))) [
      | inl u ↦
          laws.segments_by_pcie-keeps count stride r b old h (ground arith) k ∙ first (ground arith)
      | inr u ↦ laws.segments_by_pcie-at count stride r b old h (ground arith) k
    ]

    -- The dense buffer, exchanged after every rank has packed it, merged into what PCIe has left.
    pub exchanged-parts :
        (count fe fb pb r b : ℕ) (m : Memory D)
        → fb ≡ fe * es
        → fb + pb ≡ count * es
        → me < ws.nranks
        → r < ws.nranks
        → b < count * es
        → (exec t send me (merge_calls ws.nranks fb (fb + pb)) (
              exec t send me (timed pcie (pcie_segments (count * ws.nranks) fe)) (
                t.dense_by_fast fe (exec t send me (pack_calls ws.nranks fb (count * es)) m)))).recv
            (r * (count * es) + b)
          ≡ send r (me * (count * es) + b)
    unfolding exec exec_one
    exchanged-parts count fe fb pb r b m whole total mine h k =
        let packed = exec t send me (pack_calls ws.nranks fb (count * es)) m in
        let swapped = t.dense_by_fast fe packed in
        let m2 = exec t send me (timed pcie (pcie_segments (count * ws.nranks) fe)) swapped in
        let merged =
          (exec-merge_calls t send me laws.copies m2 ws.nranks fb (fb + pb) r b (omega arith)
            (omega (arith, total, k))).0 in
        let at : (exec t send me (merge_calls ws.nranks fb (fb + pb)) m2).recv
              (r * (count * es) + b)
            ≡ (if ltb r ws.nranks && ltb b fb
                then m2.dense me (r * fb + b)
                else m2.recv (r * (count * es) + b)) =
          subst
            (λ w. (exec t send me (merge_calls ws.nranks fb (fb + pb)) m2).recv (r * w + b) ≡ (
              if ltb r ws.nranks && ltb b fb
              then m2.dense me (r * fb + b)
              else m2.recv (r * w + b)))
            total merged in
        at ∙ elim (Bool-cases (ltb b fb)) [
          | inl u ↦
              let go : (ltb r ws.nranks && ltb b fb) ≡ true = ground (arith, u, h) in
              let low : b < fe * es = ground (arith, u, whole) in
              rw go (
                ap (λ w. swapped.dense me (r * w + b)) whole
                ∙ laws.dense_by_fast-at fe r b packed h low
                ∙ ap (λ w. packed.dense r (me * w + b)) (sym whole)
                ∙ exec-pack_calls t send me laws.copies m ws.nranks fb (count * es) r me b mine
                    (ground (arith, u)))
          | inr u ↦
              let go : (ltb r ws.nranks && ltb b fb) ≡ false = ground (arith, u) in
              rw go
                (laws.segments_by_pcie-at count fe r b swapped.recv h (ground (arith, u, whole)) k)
        ]
