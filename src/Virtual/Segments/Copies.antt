-- ===== src/Virtual/Segments/Copies.antt =====
-- What the calls of a collective on segments do to the buffers
-- (multipath-orchestrator/libampccl/core/virtual_collective.h). The calls of the backends are
-- parameters; the copies are between byte ranges.
use hy_link.Virtual.Segments.{
  SegmentCall, on_stream, fast_whole, fast_segments, fast_dense, pcie_whole, pcie_segments, pack,
  merge, allocate_dense, free, free_async, register_dense, merge_calls, pack_calls,
}
use hy_link.Prelude.{
  List, ℕ, zero, suc, ◌+◌, ◌-◌, ◌*◌, ◌≤◌, ◌<◌, ◌≡◌, refl, sym, ap, ◌∙◌, subst, ◌≢◌, ◌⊎◌, inl, inr,
  true, false, ◌&&◌, [], ◌∷◌, ◌++◌, arith, ltb, leb, ◌==◌, if◌then◌else◌, Bool-cases, mul_mono,
  Bool,
}

abbrev pub Buffer : Type 0 → Type 0
Buffer D = ℕ → D

-- The receive buffer of this rank, and the dense buffers of all ranks.
pub record Memory (D : Type 0) : Type 0 where
  pub recv : Buffer D
  pub dense : ℕ → Buffer D

-- What the calls of the backends write, by their arguments.
pub record Transfers (D : Type 0) : Type 0 where
  pub whole_by_fast : ℕ → Buffer D → Buffer D
  pub segments_by_fast : (count stride : ℕ) → Buffer D → Buffer D
  pub dense_by_fast : ℕ → Memory D → Memory D
  pub whole_by_pcie : ℕ → Buffer D → Buffer D
  pub segments_by_pcie : (count stride : ℕ) → Buffer D → Buffer D
  -- The device runtime accepts a copy and completes it.
  pub copy_accepted : (to from bytes : ℕ) → Bool

unfoldable pub copied : {D : Type 0} → (to from bytes : ℕ) → Buffer D → Buffer D → Buffer D
copied to from bytes src dst =
    λ i. if leb to i && ltb i (to + bytes) then src (from + (i - to)) else dst i

-- DeviceMemcpyD2DAsync, which drops the status of the runtime.
unfoldable pub device_memcpy :
    {D : Type 0} → Transfers D → (to from bytes : ℕ) → Buffer D → Buffer D → Buffer D
unfolding copied
device_memcpy t to from bytes src dst =
    if t.copy_accepted to from bytes then copied to from bytes src dst else dst

-- No copy fails.
abbrev pub AllCopied : {D : Type 0} → Transfers D → Type 0
AllCopied t = (to from bytes : ℕ) → t.copy_accepted to from bytes ≡ true

-- The calls that touch buffers, which the ranks of a collective must make alike.
abbrev pub buffer_calls : List SegmentCall → List SegmentCall
buffer_calls [] = []
buffer_calls (on_stream call ∷ calls) = buffer_calls calls
buffer_calls (allocate_dense bytes ∷ calls) = buffer_calls calls
buffer_calls (free ∷ calls) = buffer_calls calls
buffer_calls (free_async ∷ calls) = buffer_calls calls
buffer_calls (register_dense plan fast_ok pcie_ok owned ∷ calls) = buffer_calls calls
buffer_calls (call ∷ calls) = call ∷ buffer_calls calls

-- Every rank makes the same of them as this one.
abbrev pub AllIssue : (ℕ → List SegmentCall) → ℕ → List SegmentCall → Type 0
AllIssue issued nranks calls =
    (rank : ℕ) → rank < nranks → buffer_calls (issued rank) ≡ buffer_calls calls

module _ {D : Type 0} (t : Transfers D) (send : ℕ → Buffer D) (me : ℕ) where
  unfoldable pub exec_one : SegmentCall → Memory D → Memory D
  unfolding device_memcpy
  exec_one (on_stream call) m = m
  exec_one (fast_whole count) m = record m { recv = t.whole_by_fast count m.recv }
  exec_one (fast_segments count stride) m = record m {
    recv = t.segments_by_fast count stride m.recv;
  }
  exec_one (fast_dense count) m = t.dense_by_fast count m
  exec_one (pcie_whole count) m = record m { recv = t.whole_by_pcie count m.recv }
  exec_one (pcie_segments count stride) m = record m {
    recv = t.segments_by_pcie count stride m.recv;
  }
  exec_one (pack to from bytes) m = record m {
    dense = λ j. device_memcpy t to from bytes (send j) (m.dense j);
  }
  exec_one (merge to from bytes) m = record m {
    recv = device_memcpy t to from bytes (m.dense me) m.recv;
  }
  exec_one (allocate_dense bytes) m = m
  exec_one free m = m
  exec_one free_async m = m
  exec_one (register_dense plan fast_ok pcie_ok owned) m = m

  unfoldable pub exec : List SegmentCall → Memory D → Memory D
  unfolding exec_one
  exec [] m = m
  exec (call ∷ calls) m = exec calls (exec_one call m)

  pub exec-append : (a b : List SegmentCall) (m : Memory D) → exec (a ++ b) m ≡ exec b (exec a m)
  unfolding exec
  exec-append [] b m = refl
  exec-append (call ∷ a) b m = exec-append a b (exec_one call m)

copied-in :
    {D : Type 0} (to from bytes : ℕ) (src dst : Buffer D) (i b : ℕ)
    → i ≡ to + b
    → b < bytes
    → copied to from bytes src dst i ≡ src (from + b)
unfolding copied
copied-in to from bytes src dst i b e h =
    let inside : (leb to i && ltb i (to + bytes)) ≡ true = ground (arith, e, h) in
    let back : i - to ≡ b = omega (arith, e) in rw (inside, back) refl

copied-out :
    {D : Type 0} (to from bytes : ℕ) (src dst : Buffer D) (i : ℕ)
    → (i < to) ⊎ (to + bytes ≤ i)
    → copied to from bytes src dst i ≡ dst i
unfolding copied
copied-out to from bytes src dst i h =
    let outside : (leb to i && ltb i (to + bytes)) ≡ false = ground (arith, h) in rw outside refl

device_memcpy-copied :
    {D : Type 0} (t : Transfers D) (to from bytes : ℕ) (src dst : Buffer D) (i : ℕ)
    → AllCopied t
    → device_memcpy t to from bytes src dst i ≡ copied to from bytes src dst i
unfolding device_memcpy
device_memcpy-copied t to from bytes src dst i copies = rw (copies to from bytes) refl

-- Segments of `s` bytes: byte `b` of segment `r` is not in the first `f` of segment `n`, if it is in
-- another segment or past them.
pub segment_outside :
    (s f r n b : ℕ)
    → f ≤ s
    → b < s
    → (r ≢ n) ⊎ (f ≤ b)
    → (r * s + b < n * s) ⊎ (n * s + f ≤ r * s + b)
segment_outside s f r n b fits below h = elim (Bool-cases (ltb r n)) [
  | inl t ↦
      let p : suc r * s ≤ n * s = mul_mono (suc r) n s (ground arith) in
      let q : suc r * s ≡ r * s + s = grind arith in inl (omega (arith, p, q, below))
  | inr t ↦ elim (Bool-cases (r == n)) [
    | inl u ↦
        let e : n ≡ r = ground arith in
        subst (λ k. (r * s + b < k * s) ⊎ (k * s + f ≤ r * s + b)) (sym e)
          (inr (ground (arith, h, e)))
    | inr u ↦
        let p : suc n * s ≤ r * s = mul_mono (suc n) r s (ground arith) in
        let q : suc n * s ≡ n * s + s = grind arith in inr (omega (arith, p, q, fits))
  ]
]

module _ {D : Type 0} (t : Transfers D) (send : ℕ → Buffer D) (me : ℕ) (copies : AllCopied t) where
  -- The merge puts the first parts of all segments in their places and leaves the rest.
  pub exec-merge_calls :
      (m : Memory D) (n f s r b : ℕ)
      → f ≤ s
      → b < s
      → ((exec t send me (merge_calls n f s) m).recv (r * s + b)
          ≡ (if ltb r n && ltb b f then m.dense me (r * f + b) else m.recv (r * s + b)))
        × ((exec t send me (merge_calls n f s) m).dense ≡ m.dense)
  unfolding exec exec_one merge_calls
  exec-merge_calls m zero f s r b fits below =
      let no : ltb r 0 ≡ false = ground arith in (sym (rw no refl), refl)
  exec-merge_calls m (suc n) f s r b fits below =
      let (ih, same) = exec-merge_calls m n f s r b fits below in
      let done = exec t send me (merge_calls n f s) m in
      let last : List SegmentCall = merge (n * s) (n * f) f ∷ [] in
      let split = exec-append t send me (merge_calls n f s) last m in
      let after : (exec t send me (merge_calls (suc n) f s) m).recv (r * s + b)
          ≡ copied (n * s) (n * f) f (done.dense me) done.recv (r * s + b) =
        ap (λ (x : Memory D). x.recv (r * s + b)) split
        ∙ device_memcpy-copied t (n * s) (n * f) f (done.dense me) done.recv (r * s + b) copies in
      (
        elim (Bool-cases ((r == n) && ltb b f)) [
          | inl u ↦
              let e : r ≡ n = ground (arith, u) in
              let here =
                copied-in (n * s) (n * f) f (done.dense me) done.recv (r * s + b) b
                  (ap (λ x. x * s + b) e) (ground (arith, u)) in
              let value : done.dense me (n * f + b) ≡ m.dense me (r * f + b) =
                ap (λ (x : ℕ → Buffer D). x me (n * f + b)) same
                ∙ ap (λ x. m.dense me (x * f + b)) (sym e) in
              let now : (ltb r (suc n) && ltb b f) ≡ true = ground (arith, u) in
              after ∙ here ∙ value ∙ sym (rw now refl)
          | inr u ↦
              let apart : (r ≢ n) ⊎ (f ≤ b) = ground (arith, u) in
              let there =
                copied-out (n * s) (n * f) f (done.dense me) done.recv (r * s + b)
                  (segment_outside s f r n b fits below apart) in
              let old : (ltb r n && ltb b f) ≡ (ltb r (suc n) && ltb b f) = ground (arith, u) in
              after ∙ there ∙ rw (sym old) ih
        ],
        ap (λ (x : Memory D). x.dense) split ∙ same,
      )

  -- Packing puts the first parts of all segments of every rank next to each other.
  pub exec-pack_calls :
      (m : Memory D) (n f s j r b : ℕ)
      → r < n
      → b < f
      → (exec t send me (pack_calls n f s) m).dense j (r * f + b) ≡ send j (r * s + b)
  unfolding exec exec_one pack_calls
  exec-pack_calls m zero f s j r b h below = absurd (omega (arith, h))
  exec-pack_calls m (suc n) f s j r b h below =
      let done = exec t send me (pack_calls n f s) m in
      let last : List SegmentCall = pack (n * f) (n * s) f ∷ [] in
      let after : (exec t send me (pack_calls (suc n) f s) m).dense j (r * f + b)
          ≡ copied (n * f) (n * s) f (send j) (done.dense j) (r * f + b) =
        ap (λ (x : Memory D). x.dense j (r * f + b))
          (exec-append t send me (pack_calls n f s) last m)
        ∙ device_memcpy-copied t (n * f) (n * s) f (send j) (done.dense j) (r * f + b) copies in
      elim (Bool-cases (r == n)) [
        | inl u ↦
            let e : r ≡ n = ground arith in
            after
            ∙ copied-in (n * f) (n * s) f (send j) (done.dense j) (r * f + b) b
                (ap (λ x. x * f + b) e) below
            ∙ ap (λ x. send j (x * s + b)) (sym e)
        | inr u ↦
            after
            ∙ copied-out (n * f) (n * s) f (send j) (done.dense j) (r * f + b)
                (segment_outside f f r n b (omega arith) below (inl (ground arith)))
            ∙ exec-pack_calls m n f s j r b (ground (arith, u, h)) below
      ]
