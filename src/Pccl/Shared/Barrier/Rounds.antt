-- ===== src/Pccl/Shared/Barrier/Rounds.antt =====
-- The rounds of a barrier that never gives up (memory/shared_state.cpp): in each, the parties arrive
-- one by one, and the last of them opens the next.
use hy_link.Pccl.Shared.Barrier.{
  Position, outside, loaded, waiting, last, cleared, Parties, BarrierWords,
}
use hy_link.Prelude.{
  ℕ, ◌+◌, ◌<◌, ◌≡◌, refl, sym, ap, ◌≢◌, ◌⊎◌, inl, inr, Bool, true, false, arith, ◌==◌, Bool-cases,
  assign_at, count_marked, count_marked-ext, ==_refl, ◌∙◌, if-false, assign_at-same,
  assign_at-other, count_marked-add, count_marked-none, count_marked-others, subst,
}

-- Waiting in the round of a generation.
unfoldable pub counted : ℕ → Position → Bool
counted gen (waiting my_gen) = my_gen == gen
counted gen outside = false
counted gen (loaded my_gen) = false
counted gen (last my_gen) = false
counted gen (cleared my_gen) = false

-- A party while not all have arrived, and the number of its calls that have returned: one that waits
-- may still have to see that its round is over.
unfoldable pub InRound : ℕ → Position → ℕ → Type 0
InRound gen outside calls = calls ≡ gen
InRound gen (loaded my_gen) calls = (my_gen ≡ gen) × (calls ≡ gen)
InRound gen (waiting my_gen) calls = (my_gen ≡ calls) × ((calls ≡ gen) ⊎ (calls + 1 ≡ gen))
InRound gen (last my_gen) calls = false ≡ true
InRound gen (cleared my_gen) calls = false ≡ true

pub record IsOpen (n : ℕ) (s : Parties) : Type 0 where
  pub few : s.words.count < n
  pub arrived : s.words.count ≡ count_marked (λ i. counted s.words.generation (s.position i)) n
  pub each : (i : ℕ) → i < n → InRound s.words.generation (s.position i) (s.finished i)

-- All have arrived, and `leader` was the last.
pub record IsClosing (n : ℕ) (s : Parties) : Type 0 where
  pub leader : ℕ
  pub known : leader < n
  pub busy :
      ((s.position leader ≡ last s.words.generation) × (s.words.count ≡ n))
      ⊎ ((s.position leader ≡ cleared s.words.generation) × (s.words.count ≡ 0))
  pub level : s.finished leader ≡ s.words.generation
  pub others :
      (j : ℕ)
      → j < n
      → leader ≢ j
      → (s.position j ≡ waiting s.words.generation) × (s.finished j ≡ s.words.generation)

abbrev pub IsRound : ℕ → Parties → Type 0
IsRound n s = IsOpen n s ⊎ IsClosing n s

pub assign_at-each :
    (P : Position → ℕ → Type 0) (position : ℕ → Position) (finished : ℕ → ℕ) (i j : ℕ)
    (p : Position) (calls : ℕ)
    → P p calls
    → (i ≢ j → P (position j) (finished j))
    → P (assign_at position i p j) (assign_at finished i calls j)
assign_at-each P position finished i j p calls mine others = elim (Bool-cases (i == j)) [
  | inl t ↦ rw t mine
  | inr t ↦ rw t (others (ground arith))
]

-- A party moves and is not among the waiting before or after.
count_marked-assign_at :
    (position : ℕ → Position) (gen n i : ℕ) (p : Position)
    → counted gen (position i) ≡ counted gen p
    → count_marked (λ j. counted gen (assign_at position i p j)) n
      ≡ count_marked (λ j. counted gen (position j)) n
count_marked-assign_at position gen n i p h = count_marked-ext _ _ n (λ j k.
    elim (Bool-cases (i == j)) [
      | inl t ↦ let e : i ≡ j = ground arith in rw t (sym (rw (sym e) h))
      | inr t ↦ rw t refl
    ])

counted-waiting : (gen : ℕ) (p : Position) → counted gen p ≡ true → p ≡ waiting gen
unfolding counted
counted-waiting gen (waiting my_gen) h = ap waiting (ground (arith, h))
counted-waiting gen outside h = absurd (cc)
counted-waiting gen (loaded my_gen) h = absurd (cc)
counted-waiting gen (last my_gen) h = absurd (cc)
counted-waiting gen (cleared my_gen) h = absurd (cc)

-- What a move of one party leaves.
abbrev pub put : Parties → BarrierWords → ℕ → Position → ℕ → Parties
put s words i p calls = record {
  words = words;
  position = assign_at s.position i p;
  finished = assign_at s.finished i calls;
}

-- A party that is not among the waiting moves to where it is not either, in an open round.
pub IsOpen-moves :
    (n : ℕ) (s : Parties) (i calls : ℕ) (p : Position)
    → IsOpen n s
    → counted s.words.generation (s.position i) ≡ counted s.words.generation p
    → InRound s.words.generation p calls
    → IsOpen n (put s s.words i p calls)
IsOpen-moves n s i calls p h same mine = record {
  few = h.few;
  arrived =
      omega (arith, h.arrived, count_marked-assign_at s.position s.words.generation n i p same);
  each = λ j k.
      assign_at-each (InRound s.words.generation) s.position s.finished i j p calls mine
        (λ _. h.each j k);
}

-- A party arrives in an open round, and not as the last.
pub arrives :
    (n : ℕ) (s : Parties) (i : ℕ)
    → IsOpen n s
    → i < n
    → s.position i ≡ loaded s.words.generation
    → s.finished i ≡ s.words.generation
    → s.words.count + 1 ≢ n
    → IsOpen n (
        put s
          (record s.words { count = s.words.count + 1 })
          i
          (waiting s.words.generation)
          (s.finished i))
unfolding counted InRound
arrives n s i h below e level more =
    let gen = s.words.generation in
    record {
      few = omega (arith, h.few, more);
      arrived =
          let added =
            count_marked-add (λ j. counted gen (s.position j))
              (λ j. counted gen (assign_at s.position i (waiting gen) j)) n i below (rw e refl)
              (rw (==_refl i) (==_refl gen))
              (λ j other. rw (if-false _ _ (i == j) (ground (arith, other))) refl) in
          omega (arith, added, h.arrived);
      each = λ j k.
          assign_at-each (InRound gen) s.position s.finished i j (waiting gen) (s.finished i)
            (sym level, inl level) (λ _. h.each j k);
    }

-- The last party arrives.
pub fills :
    (n : ℕ) (s : Parties) (i : ℕ)
    → IsOpen n s
    → i < n
    → s.position i ≡ loaded s.words.generation
    → s.finished i ≡ s.words.generation
    → s.words.count + 1 ≡ n
    → IsClosing n (
        put s
          (record s.words { count = s.words.count + 1 })
          i
          (last s.words.generation)
          (s.finished i))
unfolding counted InRound
fills n s i h below e level full =
    let gen = s.words.generation in
    record {
      leader = i;
      known = below;
      busy = inl (assign_at-same s.position i (last gen), full);
      level = assign_at-same s.finished i (s.finished i) ∙ level;
      others = λ j k other.
          let on =
            count_marked-others (λ m. counted gen (s.position m)) n i below (rw e refl)
              (omega (arith, full, h.arrived)) j k other in
          let w = counted-waiting gen (s.position j) on in
          let mine : InRound gen (waiting gen) (s.finished j) =
            subst (λ p. InRound gen p (s.finished j)) w (h.each j k) in
          (
            assign_at-other s.position i j (last gen) other ∙ w,
            assign_at-other s.finished i j (s.finished i) other ∙ sym mine.0,
          );
    }

-- The leader opens the next round.
pub opens :
    (n : ℕ) (s : Parties) (h : IsClosing n s)
    → s.words.count ≡ 0
    → IsOpen n (
        put s
          (record s.words { generation = s.words.generation + 1 })
          h.leader
          outside
          (s.words.generation + 1))
unfolding counted InRound
opens n s h zero_count =
    let gen = s.words.generation in
    let none_here =
      count_marked-none (λ j. counted (gen + 1) (assign_at s.position h.leader outside j)) n
        (λ j k. elim (Bool-cases (h.leader == j)) [
          | inl t ↦ rw t refl
          | inr t ↦ let w = (h.others j k (ground arith)).0 in rw (t, w) (ground arith)
        ]) in
    record {
      few = omega (arith, zero_count, h.known);
      arrived = omega (arith, zero_count, none_here);
      each = λ j k.
          assign_at-each (InRound (gen + 1)) s.position s.finished h.leader j outside (gen + 1) refl
            (λ other. let w = h.others j k other in rw (w.0) (sym w.1, inr (omega (arith, w.1))));
    }
