-- ===== src/Prelude/Families.antt =====
-- Functions on the numbers that stand for the parties of a protocol: a write at one of them, and the
-- number of those below `n` that are marked.
use Prim.Native.Nat.{ℕ, zero, suc, ◌+◌, ◌≤◌, ◌<◌}
use mathlib.Core.Path.{◌≡◌, refl, subst}
use mathlib.Core.Logic.{◌≢◌, ◌↔◌, inl, inr}
use mathlib.Core.Bool.{Bool, true, false}
use native.Mathlib.Omega.{arith}
use hy_link.Prelude.Tests.{◌==◌, if◌then◌else◌, Bool-cases}

abbrev pub assign_at {ℓ} : {A : Type ℓ} → (ℕ → A) → ℕ → A → ℕ → A
assign_at f i a = λ j. if i == j then a else f j

module _ {ℓ} {A : Type ℓ} where
  pub assign_at-same : (f : ℕ → A) (i : ℕ) (a : A) → assign_at f i a i ≡ a
  assign_at-same f i a = ground arith

  pub assign_at-other : (f : ℕ → A) (i j : ℕ) (a : A) → i ≢ j → assign_at f i a j ≡ f j
  assign_at-other f i j a h = ground arith

unfoldable pub count_marked : (ℕ → Bool) → ℕ → ℕ
count_marked mark zero = 0
count_marked mark (suc n) = count_marked mark n + (if mark n then 1 else 0)

pub count_marked-le : (mark : ℕ → Bool) (n : ℕ) → count_marked mark n ≤ n
unfolding count_marked
count_marked-le mark zero = omega arith
count_marked-le mark (suc n) = ground (arith, count_marked-le mark n)

pub count_marked-ext :
    (mark other : ℕ → Bool) (n : ℕ)
    → ((i : ℕ) → i < n → mark i ≡ other i)
    → count_marked mark n ≡ count_marked other n
unfolding count_marked
count_marked-ext mark other zero h = refl
count_marked-ext mark other (suc n) h =
    let ih = count_marked-ext mark other n (λ i k. h i (omega (arith, k))) in
    rw (ih, h n (omega arith)) refl

-- One more mark.
pub count_marked-add :
    (mark other : ℕ → Bool) (n i : ℕ)
    → i < n
    → mark i ≡ false
    → other i ≡ true
    → ((j : ℕ) → i ≢ j → mark j ≡ other j)
    → count_marked other n ≡ count_marked mark n + 1
unfolding count_marked
count_marked-add mark other zero i h off on same = absurd (omega arith)
count_marked-add mark other (suc n) i h off on same = elim (Bool-cases (i == n)) [
  | inl t ↦
      let e : i ≡ n = ground arith in
      let off' = subst (λ k. mark k ≡ false) e off in
      let on' = subst (λ k. other k ≡ true) e on in
      let rest = count_marked-ext mark other n (λ j k. same j (λ p. omega (arith, p, e, k))) in
      rw (off', on') (omega (arith, rest))
  | inr t ↦
      let rest = count_marked-add mark other n i (ground arith) off on same in
      let last = same n (ground arith) in rw last (omega (arith, rest))
]

pub count_marked-none :
    (mark : ℕ → Bool) (n : ℕ) → ((i : ℕ) → i < n → mark i ≡ false) → count_marked mark n ≡ 0
unfolding count_marked
count_marked-none mark zero h = refl
count_marked-none mark (suc n) h =
    let ih = count_marked-none mark n (λ i k. h i (omega (arith, k))) in
    rw (h n (omega arith)) (omega (arith, ih))

-- If as many are marked as there are, every one is.
pub count_marked-all :
    (mark : ℕ → Bool) (n : ℕ) → count_marked mark n ≡ n → (i : ℕ) → i < n → mark i ≡ true
unfolding count_marked
count_marked-all mark zero full i h = absurd (omega (arith, h))
count_marked-all mark (suc n) full i h =
    let few = count_marked-le mark n in
    let last : mark n ≡ true = ground (arith, full, few) in
    elim (Bool-cases (i == n)) [
      | inl t ↦ subst (λ m. mark m ≡ true) (ground arith) last
      | inr t ↦ count_marked-all mark n (ground (arith, full, last)) i (ground (arith, h, t))
    ]

-- If one is not marked, not all are.
pub count_marked-below :
    (mark : ℕ → Bool) (n i : ℕ) → i < n → mark i ≡ false → count_marked mark n < n
count_marked-below mark n i h off = elim (Bool-cases (count_marked mark n == n)) [
  | inl t ↦ absurd (let on = count_marked-all mark n (ground arith) i h in cc)
  | inr t ↦ ground (arith, count_marked-le mark n, t)
]

-- If not all are marked, some one is not.
pub count_marked-missing :
    (mark : ℕ → Bool) (n : ℕ) → count_marked mark n < n → (i : ℕ) × (i < n) × (mark i ≡ false)
unfolding count_marked
count_marked-missing mark zero h = absurd (omega (arith, h))
count_marked-missing mark (suc n) h = elim (Bool-cases (mark n)) [
  | inl t ↦
      let (i, k, off) = count_marked-missing mark n (ground (arith, h, t)) in
      (i, omega (arith, k), off)
  | inr t ↦ (n, omega arith, t)
]

-- If all are marked but one, every other is.
pub count_marked-others :
    (mark : ℕ → Bool) (n i : ℕ)
    → i < n
    → mark i ≡ false
    → count_marked mark n + 1 ≡ n
    → (j : ℕ) → j < n
    → i ≢ j
    → mark j ≡ true
unfolding count_marked
count_marked-others mark zero i h off full j k other = absurd (omega (arith, h))
count_marked-others mark (suc n) i h off full j k other = elim (Bool-cases (i == n)) [
  | inl t ↦
      let e : i ≡ n = ground arith in
      let off' = subst (λ m. mark m ≡ false) e off in
      count_marked-all mark n (ground (arith, full, off')) j (omega (arith, k, other, e))
  | inr t ↦ elim (Bool-cases (mark n)) [
    | inl u ↦ elim (Bool-cases (j == n)) [
      | inl v ↦ subst (λ m. mark m ≡ true) (ground arith) u
      | inr v ↦
          count_marked-others mark n i (ground arith) off (ground (arith, full, u)) j
            (ground (arith, k, v)) other
    ]
    | inr u ↦
        let below = count_marked-below mark n i (ground arith) off in
        absurd (ground (arith, full, u, below))
  ]
]

-- None is marked exactly if the number is zero.
pub count_marked-zero :
    (mark : ℕ → Bool) (n : ℕ) → (count_marked mark n ≡ 0) ↔ ((i : ℕ) → i < n → mark i ≡ false)
unfolding count_marked
count_marked-zero mark zero = (λ h i k. absurd (omega (arith, k)), λ h. refl)
count_marked-zero mark (suc n) =
    let ih = count_marked-zero mark n in
    (
      λ h i k. elim (Bool-cases (i == n)) [
        | inl t ↦ let e : i ≡ n = ground arith in rw e (ground (arith, h))
        | inr t ↦ ih.0 (ground (arith, h)) i (ground (arith, k))
      ],
      λ h.
          let last = h n (omega arith) in
          let before = ih.1 (λ i k. h i (omega (arith, k))) in ground (arith, last, before),
    )
