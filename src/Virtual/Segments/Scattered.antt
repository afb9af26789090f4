-- ===== src/Virtual/Segments/Scattered.antt =====
-- multipath-orchestrator/libampccl/core/virtual_collective.h: after ReduceScatter the receive buffer
-- holds this rank's segment of the reduced send buffers.
pub mod Branches
pub mod Total
use hy_link.Virtual.Segments.{Workspace, pack_calls}
use hy_link.Virtual.Segments.Copies.{Buffer, Memory, Transfers, AllCopied, exec, exec-pack_calls}
use hy_link.Prelude.{List, ℕ, ◌+◌, ◌*◌, ◌≤◌, ◌<◌, ◌≡◌, ◌∙◌, subst, inl, inr, arith, ltb, Bool-cases}

module _ {D : Type 0} (t : Transfers D) (reduced : (ℕ → Buffer D) → Buffer D) (send : ℕ → Buffer D)
    (me es : ℕ) (ws : Workspace) where
  -- What the backends document of their calls and the runtime of its copies, in bytes, with elements of `es` bytes: `reduced` takes a
  -- buffer of each rank, and reduces element by element.
  pub record ScatterLaws : Type 0 where
    pub copies : AllCopied t
    pub reduced-elements :
        (a b : ℕ → Buffer D) (x y n k : ℕ)
        → k < n * es
        → ((j i : ℕ) → i < n * es → a j (x * es + i) ≡ b j (y * es + i))
        → reduced a (x * es + k) ≡ reduced b (y * es + k)
    pub whole_by_fast-at :
        (n k : ℕ) (old : Buffer D)
        → k < n * es
        → t.whole_by_fast n old k ≡ reduced send (me * (n * es) + k)
    pub whole_by_pcie-at :
        (n k : ℕ) (old : Buffer D)
        → k < n * es
        → t.whole_by_pcie n old k ≡ reduced send (me * (n * es) + k)
    pub segments_by_fast-at :
        (n stride k : ℕ) (old : Buffer D)
        → k < n * es
        → n ≤ stride
        → t.segments_by_fast n stride old k ≡ reduced send (me * (stride * es) + k)
    pub segments_by_pcie-at :
        (n stride k : ℕ) (old : Buffer D)
        → stride * es ≤ k
        → k < n * es
        → t.segments_by_pcie (n * ws.nranks) stride old k ≡ reduced send (me * (n * es) + k)
    pub segments_by_pcie-keeps :
        (n stride k : ℕ) (old : Buffer D)
        → k < stride * es
        → k < n * es
        → t.segments_by_pcie (n * ws.nranks) stride old k ≡ old k
    pub dense_by_fast-at :
        (n k : ℕ) (m : Memory D)
        → k < n * es
        → (t.dense_by_fast n m).recv k ≡ reduced m.dense (me * (n * es) + k)

  abbrev pub IsScattered : ℕ → Memory D → Type 0
  IsScattered count m = (k : ℕ) → k < count * es → m.recv k ≡ reduced send (me * (count * es) + k)

  module _ (laws : ScatterLaws) where
    pub both_parts :
        (count stride k : ℕ) (old : Buffer D)
        → k < count * es
        → (k < stride * es → old k ≡ reduced send (me * (count * es) + k))
        → t.segments_by_pcie (count * ws.nranks) stride old k ≡ reduced send (me * (count * es) + k)
    both_parts count stride k old h first = elim (Bool-cases (ltb k (stride * es))) [
      | inl u ↦
          laws.segments_by_pcie-keeps count stride k old (ground arith) h ∙ first (ground arith)
      | inr u ↦ laws.segments_by_pcie-at count stride k old (ground arith) h
    ]

    -- The fast backend's part from buffers that every rank has packed.
    pub packed-part :
        (count fe k : ℕ) (m : Memory D)
        → fe ≤ count
        → me < ws.nranks
        → k < fe * es
        → (t.dense_by_fast fe (exec t send me (pack_calls ws.nranks (fe * es) (count * es)) m)).recv
            k
          ≡ reduced send (me * (count * es) + k)
    packed-part count fe k m few below h =
        let packed = exec t send me (pack_calls ws.nranks (fe * es) (count * es)) m in
        let at = laws.dense_by_fast-at fe k packed h in
        let a : me * fe * es ≡ me * (fe * es) = grind arith in
        let b : me * count * es ≡ me * (count * es) = grind arith in
        let same : (j i : ℕ)
            → i < fe * es
            → packed.dense j (me * fe * es + i) ≡ send j (me * count * es + i) =
          λ j i l.
            rw (a, b)
              (exec-pack_calls t send me laws.copies m ws.nranks (fe * es) (count * es) j me i below
                l) in
        let moved = laws.reduced-elements packed.dense send (me * fe) (me * count) fe k h same in
        at
        ∙ subst (λ x. reduced packed.dense (x + k) ≡ reduced send (me * (count * es) + k)) a
            (subst (λ x. reduced packed.dense (me * fe * es + k) ≡ reduced send (x + k)) b moved)
