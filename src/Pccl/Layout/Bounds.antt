-- ===== src/Pccl/Layout/Bounds.antt =====
-- The chunks of a segment follow each other, cover it and fit in a host chunk (ir/compiler.cpp).
use native.Mathlib.Nat.{
  div-lt_iff_lt-mul, le-div_iff_mul-le, mod-lt, lt-div-mul-add, div-mul-le_self, div-le_self,
  suc-mod, mod_self, mod-eq_of_lt, mul-div_cancel,
}
use hy_link.Prelude.{
  ℕ, ◌+◌, ◌-◌, ◌*◌, ◌/◌, ◌%◌, ◌≤◌, ◌<◌, ◌≡◌, refl, arith, zero, suc, max, u64_mod, add64, sub64,
  mul64, sub64-eq, ◌==◌, get_elem?, some, ◌⊎◌, inl, inr, ◌∙◌, ap, Bool-cases, ltb, ltb→lt, ltb→le,
  ◌≢◌, false, mul_mono,
}
use hy_link.Pccl.Layout.{
  div_up, begin_elem, chunk_offset, chunk_size_of, max_chunk_bytes, for_chunks, make_device_layout,
}

get_elem?-for_chunks :
    (f : ℕ → ℕ) (c n i k : ℕ) → i < n → c + i ≡ k → get_elem? (for_chunks f c n) i ≡ some (f k)
unfolding for_chunks
get_elem?-for_chunks f c zero i k h e = absurd (omega arith)
get_elem?-for_chunks f c (suc n) zero k h e = let d : c ≡ k = omega arith in ap (λ x. some (f x)) d
get_elem?-for_chunks f c (suc n) (suc i) k h e =
    get_elem?-for_chunks f (suc c) n i k (omega (arith, h)) (omega (arith, e))

-- The bytes between two element indices.
span-eq :
    (x y size : ℕ)
    → x ≤ y
    → y < u64_mod
    → y * size < u64_mod
    → mul64 (sub64 y x) size + x * size ≡ y * size
span-eq x y size h k l =
    let p : (y - x) * size + x * size ≡ y * size = grind arith in
    rw (sub64-eq y x h k) (omega (arith, p, l))

module _ (active size cps : ℕ) (pos : 0 < cps)
    (fits : (active + 1) * (cps + 1) * (size + 1) < u64_mod) where
  step-le : (j : ℕ) → j ≤ cps → active * j ≤ active * cps
  step-le j h = grind arith

  no_wrap : active * (cps + 1) < u64_mod
  no_wrap =
      let p : active * (cps + 1) * 1 ≤ (active + 1) * (cps + 1) * (size + 1) = grind arith in
      omega (arith, p, fits)

  begin-eq : (j : ℕ) → j ≤ cps → begin_elem active cps j ≡ active * j / cps
  unfolding begin_elem
  begin-eq j h =
      let p = step-le j h in
      let q = no_wrap in let e : mul64 active j ≡ active * j = omega (arith, p, q) in rw e refl

  edge-le : (j : ℕ) → j ≤ cps → active * j / cps ≤ active * cps
  edge-le j h =
      let p = step-le j h in
      let q : active * j / cps ≤ active * j = div-le_self (active * j) cps in omega (arith, p, q)

  edge-bound : (j : ℕ) → j ≤ cps → active * j / cps * size < u64_mod
  edge-bound j h =
      let p = mul_mono _ _ size (edge-le j h) in
      let q : active * cps * size ≤ (active + 1) * (cps + 1) * (size + 1) = grind arith in
      omega (arith, p, q, fits)

  begin_mono : (j : ℕ) → active * j / cps ≤ active * (j + 1) / cps
  begin_mono j = (le-div_iff_mul-le pos).1 (let p = div-mul-le_self (active * j) cps in grind arith)

  offset-eq : (c : ℕ) → chunk_offset size active cps c ≡ active * (c % cps) / cps * size
  unfolding chunk_offset
  offset-eq c =
      let h = mod-lt c pos in
      let p = edge-bound (c % cps) (omega (arith, h)) in
      rw (begin-eq (c % cps) (omega (arith, h))) (omega (arith, p))

  size-eq :
      (c : ℕ)
      → chunk_size_of size active cps c + active * (c % cps) / cps * size
        ≡ active * (c % cps + 1) / cps * size
  unfolding chunk_size_of
  size-eq c =
      let h = mod-lt c pos in
      let p = edge-bound (c % cps + 1) (omega (arith, h)) in
      let q = edge-le (c % cps + 1) (omega (arith, h)) in
      let n = no_wrap in
      rw (begin-eq (c % cps) (omega (arith, h)), begin-eq (c % cps + 1) (omega (arith, h)))
        (span-eq _ _ size (begin_mono (c % cps)) (omega (arith, q, n)) p)

  share-le : (j : ℕ) → active * (j + 1) / cps ≤ active * j / cps + (active + cps - 1) / cps
  share-le j =
      let u = lt-div-mul-add {a = active * j} pos in
      let v = lt-div-mul-add {a = active + cps - 1} pos in
      let top : active * (j + 1) < (active * j / cps + (active + cps - 1) / cps + 1) * cps =
        grind (arith, u, v) in
      let r = (div-lt_iff_lt-mul pos).1 top in omega (arith, r)

  next_mod : (c : ℕ) → ((c + 1) % cps ≡ c % cps + 1) ⊎ ((c + 1) % cps ≡ 0) × (c % cps + 1 ≡ cps)
  next_mod c =
      let h = mod-lt c pos in
      let e : (c + 1) % cps ≡ (c % cps + 1) % cps =
        let s : suc c ≡ c + 1 = omega arith in
        let t : suc (c % cps) ≡ c % cps + 1 = omega arith in cc (suc-mod c cps, s, t) in
      elim (Bool-cases (ltb (c % cps + 1) cps)) [
        | inl t ↦ inl (e ∙ mod-eq_of_lt (ltb→lt _ _ t))
        | inr t ↦
            let k : c % cps + 1 ≡ cps = omega (arith, h, ltb→le _ _ t) in
            inr (e ∙ ap (λ x. x % cps) k ∙ mod_self cps, k)
      ]

  -- With at least one chunk per segment and sizes below the wrap-around: inside a segment each
  -- chunk begins where the one before ends; the first begins at 0 and the last ends with the last
  -- active byte.
  pub chunk_offset-suc :
      (c : ℕ)
      → (c % cps ≡ 0 → chunk_offset size active cps c ≡ 0)
        × ((c + 1) % cps ≢ 0
            → chunk_offset size active cps c + chunk_size_of size active cps c
              ≡ chunk_offset size active cps (c + 1))
        × ((c + 1) % cps ≡ 0
            → chunk_offset size active cps c + chunk_size_of size active cps c ≡ active * size)
  chunk_offset-suc c =
      let ends = size-eq c in
      let here = offset-eq c in
      (
        λ h.
            let z : active * 0 / cps ≤ active * 0 = div-le_self (active * 0) cps in
            here ∙ rw h (let w : active * 0 / cps ≡ 0 = omega (arith, z) in rw w (omega arith)),
        λ h. elim (next_mod c) [
          | inl e ↦ rw (offset-eq (c + 1), e) (omega (arith, ends, here))
          | inr e ↦ absurd (h e.0)
        ],
        λ h. elim (next_mod c) [
          | inl e ↦ absurd (omega (arith, e, h))
          | inr e ↦
              let full : active * (c % cps + 1) / cps ≡ active =
                rw e.1 (mul-div_cancel active pos) in
              omega (arith, ends, here, ap (λ x. x * size) full)
        ],
      )

  -- With at least one chunk per segment and sizes below the wrap-around, no chunk is larger than
  -- the bytes that a host chunk is given.
  pub chunk_size_of-max :
      (c : ℕ) → chunk_size_of size active cps c ≤ max_chunk_bytes active size cps
  unfolding max_chunk_bytes div_up
  chunk_size_of-max c =
      let v = (active + cps - 1) / cps in
      let ends = size-eq c in
      let share = mul_mono _ _ size (share-le (c % cps)) in
      let room : active + cps < u64_mod =
        let p : (active + 1) * (cps + 1) * 1 ≤ (active + 1) * (cps + 1) * (size + 1) =
          grind arith in
        grind (arith, p, fits) in
      let whole : v < active + 1 = (div-lt_iff_lt-mul pos).1 (grind arith) in
      let bytes = mul_mono v active size (omega (arith, whole)) in
      let last : active * size ≤ (active + 1) * (cps + 1) * (size + 1) = grind arith in
      let e : sub64 (add64 active cps) 1 ≡ active + cps - 1 = omega (arith, room, pos) in
      let m : max 1 cps ≡ cps = omega (arith, pos) in
      let nonzero : (cps == 0) ≡ false = ground arith in
      rw (m, e, nonzero)
        (let split : (active * (c % cps) / cps + v) * size
              ≡ active * (c % cps) / cps * size + v * size =
            grind arith in
          omega (arith, ends, share, split, bytes, last, fits))

  -- With at least one chunk per segment and sizes below the wrap-around: inside a segment each
  -- chunk begins where the one before ends; the first begins at 0, the last ends with the last
  -- active byte, and none is larger than the bytes that a host chunk is given.
  pub chunk_offset-chunk_size_of :
      (c : ℕ)
      → let offset = chunk_offset size active cps in
        let bytes = chunk_size_of size active cps in
        (c % cps ≡ 0 → offset c ≡ 0)
        × ((c + 1) % cps ≢ 0 → offset c + bytes c ≡ offset (c + 1))
        × ((c + 1) % cps ≡ 0 → offset c + bytes c ≡ active * size)
        × (bytes c ≤ max_chunk_bytes active size cps)
  chunk_offset-chunk_size_of c =
      let (first, seam, last) = chunk_offset-suc c in (first, seam, last, chunk_size_of-max c)

-- The lists of a device layout hold, for each chunk of the graph, its offset and its size.
pub make_device_layout-get_elem? :
    (segment stride size active total cps slot c : ℕ)
    → c < total
    → (get_elem? (make_device_layout segment stride size active total cps slot).chunk_offsets c
        ≡ some (chunk_offset size active (max 1 cps) c))
      × (get_elem? (make_device_layout segment stride size active total cps slot).chunk_sizes c
          ≡ some (chunk_size_of size active (max 1 cps) c))
unfolding make_device_layout
make_device_layout-get_elem? segment stride size active total cps slot c h = (
  get_elem?-for_chunks (chunk_offset size active (max 1 cps)) 0 total c c h (omega arith),
  get_elem?-for_chunks (chunk_size_of size active (max 1 cps)) 0 total c c h (omega arith),
)
