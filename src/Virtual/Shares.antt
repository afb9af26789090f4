-- ===== src/Virtual/Shares.antt =====
-- multipath-orchestrator/libampccl/core/virtual_collective.h: the parts of a plan in bytes and in
-- elements.
use native.Mathlib.Nat.{mul-div_cancel, le-div_iff_mul-le, div-add-mod'}
use hy_link.Planner.Split.{IsExact}
use hy_link.Planner.{Plan}
use hy_link.Prelude.{ℕ, ◌+◌, ◌-◌, ◌*◌, ◌/◌, ◌%◌, ◌≤◌, ◌<◌, ◌≡◌, sym, ap, ◌∙◌, arith}

-- A first part that ends with a whole number of elements leaves a whole number of elements.
pub split_parts :
    (es count q fast_bytes pcie_bytes : ℕ)
    → 0 < es
    → fast_bytes ≡ q * es
    → fast_bytes + pcie_bytes ≡ count * es
    → (fast_bytes ≡ fast_bytes / es * es) × (fast_bytes / es + pcie_bytes / es ≡ count)
split_parts es count q fb pb nz whole total =
    let a : fb / es ≡ q = ap (λ x. x / es) whole ∙ mul-div_cancel q nz in
    let below : q ≤ count =
      let p : q * es ≤ count * es = omega arith in
      let r : q ≤ count * es / es = (le-div_iff_mul-le nz).1 p in
      omega (arith, r, mul-div_cancel count nz) in
    let rest : pb ≡ (count - q) * es =
      let p : (count - q) * es + q * es ≡ count * es = grind arith in
      omega (arith, p, whole, total) in
    let b : pb / es ≡ count - q = ap (λ x. x / es) rest ∙ mul-div_cancel (count - q) nz in
    (rw a whole, omega (arith, a, b, below))

-- 128 bytes are a whole number of elements.
pub aligned_parts : (es bytes : ℕ) → 128 % es ≡ 0 → bytes % 128 ≡ 0 → (q : ℕ) × (bytes ≡ q * es)
aligned_parts es bytes h k =
    let a = div-add-mod' 128 es in
    let b = div-add-mod' bytes 128 in
    let c : bytes / 128 * (128 / es) * es ≡ bytes / 128 * (128 / es * es) = grind arith in
    let d : 128 / es * es ≡ 128 = omega (arith, a, h) in
    (bytes / 128 * (128 / es), sym (rw (c, d) (omega (arith, b, k))))

-- A plan's parts are whole numbers of elements, and together all of them.
abbrev pub IsShare : (elem_size count : ℕ) → Plan → Type 0
IsShare es count plan =
    (plan.fast_bytes ≡ plan.fast_bytes / es * es)
    × (plan.fast_bytes / es ≤ count)
    × (plan.fast_bytes + plan.pcie_bytes ≡ count * es)

pub exact-IsShare :
    (min_chunk es count : ℕ) (plan : Plan)
    → 0 < es
    → 128 % es ≡ 0
    → IsExact min_chunk (count * es) plan
    → IsShare es count plan
exact-IsShare min_chunk es count plan nz whole exact =
    let (q, aligned) = aligned_parts es plan.fast_bytes whole exact.1 in
    let (first, both) = split_parts es count q plan.fast_bytes plan.pcie_bytes nz aligned exact.0 in
    (first, omega (arith, both), exact.0)
