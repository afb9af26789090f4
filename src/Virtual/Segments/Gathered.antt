-- ===== src/Virtual/Segments/Gathered.antt =====
-- multipath-orchestrator/libampccl/core/virtual_collective.h: after AllGather the receive buffer holds
-- the send buffers of all ranks, one after the other.
pub mod Branches
pub mod Total
use hy_link.Virtual.Segments.{Workspace, merge_calls}
use hy_link.Virtual.Segments.Copies.{Buffer, Memory, Transfers, AllCopied, exec, exec-merge_calls}
use hy_link.Prelude.{
  List, ℕ, ◌+◌, ◌*◌, ◌≤◌, ◌<◌, ◌≡◌, ap, ◌∙◌, subst, inl, inr, true, false, ◌&&◌, arith, ltb,
  if◌then◌else◌, Bool-cases,
}

module _ {D : Type 0} (t : Transfers D) (send : ℕ → Buffer D) (me es : ℕ) (ws : Workspace) where
  -- What the backends document of their calls and the runtime of its copies, in bytes, with elements of `es` bytes.
  pub record GatherLaws : Type 0 where
    pub copies : AllCopied t
    pub whole_by_fast-at :
        (n r b : ℕ) (old : Buffer D)
        → r < ws.nranks
        → b < n * es
        → t.whole_by_fast n old (r * (n * es) + b) ≡ send r b
    pub whole_by_pcie-at :
        (n r b : ℕ) (old : Buffer D)
        → r < ws.nranks
        → b < n * es
        → t.whole_by_pcie n old (r * (n * es) + b) ≡ send r b
    pub segments_by_fast-at :
        (n stride r b : ℕ) (old : Buffer D)
        → r < ws.nranks
        → b < n * es
        → n ≤ stride
        → t.segments_by_fast n stride old (r * (stride * es) + b) ≡ send r b
    pub segments_by_pcie-at :
        (n stride r b : ℕ) (old : Buffer D)
        → r < ws.nranks
        → stride * es ≤ b
        → b < n * es
        → t.segments_by_pcie n stride old (r * (n * es) + b) ≡ send r b
    pub segments_by_pcie-keeps :
        (n stride r b : ℕ) (old : Buffer D)
        → r < ws.nranks
        → b < stride * es
        → b < n * es
        → t.segments_by_pcie n stride old (r * (n * es) + b) ≡ old (r * (n * es) + b)
    pub dense_by_fast-at :
        (n r b : ℕ) (m : Memory D)
        → r < ws.nranks
        → b < n * es
        → (t.dense_by_fast n m).dense me (r * (n * es) + b) ≡ send r b

  abbrev pub IsGathered : ℕ → Memory D → Type 0
  IsGathered count m =
      (r b : ℕ) → r < ws.nranks → b < count * es → m.recv (r * (count * es) + b) ≡ send r b

  module _ (laws : GatherLaws) where
    pub both_parts :
        (count stride r b : ℕ) (old : Buffer D)
        → r < ws.nranks
        → b < count * es
        → (b < stride * es → old (r * (count * es) + b) ≡ send r b)
        → t.segments_by_pcie count stride old (r * (count * es) + b) ≡ send r b
    both_parts count stride r b old h k first = elim (Bool-cases (ltb b (stride * es))) [
      | inl u ↦
          laws.segments_by_pcie-keeps count stride r b old h (ground arith) k ∙ first (ground arith)
      | inr u ↦ laws.segments_by_pcie-at count stride r b old h (ground arith) k
    ]

    -- The dense buffer merged into the parts that PCIe has left.
    pub merged-parts :
        (count fe fb pb r b : ℕ) (m : Memory D)
        → fb ≡ fe * es
        → fb + pb ≡ count * es
        → r < ws.nranks
        → b < count * es
        → (exec t send me (merge_calls ws.nranks fb (fb + pb)) (record (t.dense_by_fast fe m) {
          recv = t.segments_by_pcie count fe (t.dense_by_fast fe m).recv;
        })).recv
            (r * (count * es) + b)
          ≡ send r b
    merged-parts count fe fb pb r b m whole total h k =
        let old = (t.dense_by_fast fe m).recv in
        let m2 : Memory D = record (t.dense_by_fast fe m) {
          recv = t.segments_by_pcie count fe old;
        } in
        let merged =
          (exec-merge_calls t send me laws.copies m2 ws.nranks fb (fb + pb) r b (omega arith)
            (omega (arith, total, k))).0 in
        let at : (exec t send me (merge_calls ws.nranks fb (fb + pb)) m2).recv
              (r * (count * es) + b)
            ≡ (if ltb r ws.nranks && ltb b fb
                then m2.dense me (r * fb + b)
                else m2.recv (r * (count * es) + b)) =
          subst
            (λ w. (exec t send me (merge_calls ws.nranks fb (fb + pb)) m2).recv (r * w + b) ≡ (
              if ltb r ws.nranks && ltb b fb
              then m2.dense me (r * fb + b)
              else m2.recv (r * w + b)))
            total merged in
        at ∙ elim (Bool-cases (ltb b fb)) [
          | inl u ↦
              let go : (ltb r ws.nranks && ltb b fb) ≡ true = ground (arith, u, h) in
              rw go (
                ap (λ w. m2.dense me (r * w + b)) whole
                ∙ laws.dense_by_fast-at fe r b m h (ground (arith, u, whole)))
          | inr u ↦
              let go : (ltb r ws.nranks && ltb b fb) ≡ false = ground (arith, u) in
              rw go (laws.segments_by_pcie-at count fe r b old h (ground (arith, u, whole)) k)
        ]
