-- ===== src/Pccl/Shared/Barrier/Runs.antt =====
-- Every access keeps the rounds of a barrier at which no party gives up (memory/shared_state.cpp).
use hy_link.Pccl.Shared.Barrier.{
  Position, outside, loaded, waiting, last, cleared, advance, Parties, act, acts, unused, Reach,
  start, later, gives_up,
}
use hy_link.Pccl.Shared.Barrier.Rounds.{
  counted, InRound, IsOpen, IsClosing, IsRound, assign_at-each, put, IsOpen-moves, arrives, fills,
  opens,
}
use hy_link.Prelude.{
  ℕ, ◌+◌, ◌≤◌, ◌<◌, ◌≡◌, refl, sym, ap, ◌∙◌, subst, ◌≢◌, inl, inr, true, false, arith, leb, ◌==◌,
  ==_refl, Bool-cases, assign_at-same, assign_at-other, count_marked-none, u64_mod, add64, add64-eq,
}

-- An access in an open round. The number of the party's calls stays within 64 bits.
act-open :
    (n : ℕ) (s : Parties) (i : ℕ) (p : Position)
    → i < n
    → s.position i ≡ p
    → IsOpen n s
    → IsRound n (act n s i)
unfolding act advance InRound counted
act-open n s i outside below e h =
    let level : s.finished i ≡ s.words.generation =
      subst (λ q. InRound s.words.generation q (s.finished i)) e (h.each i below) in
    rw e (
      inl
        (IsOpen-moves n s i (s.finished i) (loaded s.words.generation) h (rw e refl) (refl, level)))
act-open n s i (loaded my_gen) below e h =
    let (here, level) : (my_gen ≡ s.words.generation) × (s.finished i ≡ s.words.generation) =
      subst (λ q. InRound s.words.generation q (s.finished i)) e (h.each i below) in
    let e' = e ∙ ap loaded here in
    elim (Bool-cases (s.words.count + 1 == n)) [
      | inl t ↦ rw (e', t) (inr (fills n s i h below e' level (ground arith)))
      | inr t ↦ rw (e', t) (inl (arrives n s i h below e' level (ground arith)))
    ]
act-open n s i (waiting my_gen) below e h =
    let mine : InRound s.words.generation (waiting my_gen) (s.finished i) =
      subst (λ q. InRound s.words.generation q (s.finished i)) e (h.each i below) in
    elim (Bool-cases (leb s.words.generation my_gen)) [
      | inl t ↦
          rw (e, t) (inl (IsOpen-moves n s i (s.finished i) (waiting my_gen) h (rw e refl) mine))
      | inr t ↦
          let over : s.finished i + 1 ≡ s.words.generation = ground (arith, mine, t) in
          let off : (my_gen == s.words.generation) ≡ false = ground (arith, t) in
          rw (e, t) (inl (IsOpen-moves n s i (s.finished i + 1) outside h (rw (e, off) refl) over))
    ]
act-open n s i (last my_gen) below e h =
    absurd
      (let bad = subst (λ q. InRound s.words.generation q (s.finished i)) e (h.each i below) in cc)
act-open n s i (cleared my_gen) below e h =
    absurd
      (let bad = subst (λ q. InRound s.words.generation q (s.finished i)) e (h.each i below) in cc)

-- A party that only waits changes nothing while the round closes.
IsClosing-waits :
    (n : ℕ) (s : Parties) (i : ℕ)
    → (h : IsClosing n s) → h.leader ≢ i
    → s.finished i ≡ s.words.generation
    → IsClosing n (put s s.words i (waiting s.words.generation) (s.finished i))
IsClosing-waits n s i h other level =
    let gen = s.words.generation in
    let away : (i == h.leader) ≡ false = ground (arith, other) in
    record {
      leader = h.leader;
      known = h.known;
      busy = rw away h.busy;
      level = rw away h.level;
      others = λ j k o.
          assign_at-each (λ p calls. (p ≡ waiting gen) × (calls ≡ gen)) s.position s.finished i j
            (waiting gen) (s.finished i) (refl, level) (λ _. h.others j k o);
    }

-- The leader clears the count.
IsClosing-clears :
    (n : ℕ) (s : Parties) (h : IsClosing n s)
    → IsClosing n (
        put s
          (record s.words { count = 0 })
          h.leader
          (cleared s.words.generation)
          (s.finished h.leader))
IsClosing-clears n s h = record {
  leader = h.leader;
  known = h.known;
  busy = inr (assign_at-same s.position h.leader _, refl);
  level = assign_at-same s.finished h.leader _ ∙ h.level;
  others = λ j k o.
      let w = h.others j k o in
      (
        assign_at-other s.position h.leader j _ o ∙ w.0,
        assign_at-other s.finished h.leader j _ o ∙ w.1,
      );
}

-- The access of the leader.
act-leader :
    (n : ℕ) (s : Parties) (h : IsClosing n s)
    → (act n s h.leader).finished h.leader < u64_mod
    → IsRound n (act n s h.leader)
unfolding act advance
act-leader n s h small = elim h.busy [
  | inl (e, full) ↦ rw e (inr (IsClosing-clears n s h))
  | inr (e, none_left) ↦
      let level = h.level in
      let value : (act n s h.leader).finished h.leader ≡ s.finished h.leader + 1 =
        rw (e, ==_refl h.leader) refl in
      let next = subst (λ x. x < u64_mod) value small in
      let wrap : add64 s.words.generation 1 ≡ s.words.generation + 1 =
        add64-eq s.words.generation 1 (omega (arith, level, next)) in
      rw (e, wrap, level) (inl (opens n s h none_left))
]

-- An access while the round closes.
act-closing :
    (n : ℕ) (s : Parties) (i : ℕ)
    → i < n
    → (act n s i).finished i < u64_mod
    → IsClosing n s
    → IsRound n (act n s i)
unfolding act advance
act-closing n s i below small h = elim (Bool-cases (h.leader == i)) [
  | inl t ↦
      let same : i ≡ h.leader = ground arith in
      subst (λ k. IsRound n (act n s k)) (sym same)
        (act-leader n s h (subst (λ k. (act n s k).finished k < u64_mod) same small))
  | inr t ↦
      let other : h.leader ≢ i = ground arith in
      let (e, level) = h.others i below other in
      let stuck : leb s.words.generation s.words.generation ≡ true = ground arith in
      rw (e, stuck) (inr (IsClosing-waits n s i h other level))
]

act-IsRound :
    (n : ℕ) (s : Parties) (i : ℕ)
    → i < n
    → (act n s i).finished i < u64_mod
    → IsRound n s
    → IsRound n (act n s i)
act-IsRound n s i below small (inl h) = act-open n s i (s.position i) below refl h
act-IsRound n s i below small (inr h) = act-closing n s i below small h

act-grows : (n : ℕ) (s : Parties) (i j : ℕ) → s.finished j ≤ (act n s i).finished j
unfolding act
act-grows n s i j = elim (Bool-cases (i == j)) [
  | inl t ↦
      let e : s.finished i ≡ s.finished j = ap s.finished (ground arith) in rw t (ground (arith, e))
  | inr t ↦ rw t (omega arith)
]

unused-IsOpen : (n : ℕ) → 0 < n → IsOpen n unused
unfolding counted InRound
unused-IsOpen n nz = record {
  few = nz;
  arrived = sym (count_marked-none _ n (λ i h. refl));
  each = λ i h. refl;
}

-- Every reachable state is in a round, if all numbers of calls fit in 64 bits.
pub Reach-IsRound :
    (n : ℕ) (s : Parties)
    → 0 < n
    → Reach n false s
    → ((i : ℕ) → i < n → s.finished i < u64_mod)
    → IsRound n s
Reach-IsRound n s nz start small = inl (unused-IsOpen n nz)
Reach-IsRound n t nz (later {s} r (acts i below)) small =
    act-IsRound n s i below (small i below)
      (Reach-IsRound n s nz r (λ j k. omega (arith, small j k, act-grows n s i j)))
Reach-IsRound n t nz (later {s} r (gives_up i my_gen timed below e)) small = absurd (cc)
