-- ===== src/Pccl/Shared/CommSlots.antt =====
-- pcie-ccl-cuda/src/memory/shared_state.cpp: the slots of communicators, which are never given back.
use hy_link.Pccl.Shared.{max_concurrent_comms, CommTable, probe, nonzero_hash, user_ready_comm_slot}
use hy_link.Prelude.{
  ℕ, zero, suc, ◌%◌, ◌≡◌, refl, ◌≢◌, some, arith, add64, ◌<◌, sym, ap, ◌∙◌, subst, inl, inr, Option,
  none, ◌==◌, ==_refl, Bool-cases, false,
}

-- The table keeps what it holds.
abbrev pub Keeps : CommTable → CommTable → Type 0
Keeps t u = (i : ℕ) → t i ≢ 0 → u i ≡ t i

probe-Keeps : (table : CommTable) (hash n attempt : ℕ) → Keeps table (probe table hash n attempt).1
unfolding probe
probe-Keeps table hash zero attempt i h = refl
probe-Keeps table hash (suc n) attempt i h =
    ground (arith, probe-Keeps table hash n (suc attempt) i h)

-- A slot that is found holds the hash.
probe-holds :
    (table : CommTable) (hash n attempt idx : ℕ)
    → (probe table hash n attempt).0 ≡ some idx
    → (probe table hash n attempt).1 idx ≡ hash
unfolding probe
probe-holds table hash zero attempt idx h = absurd (cc)
probe-holds table hash (suc n) attempt idx h =
    ground (arith, probe-holds table hash n (suc attempt) idx)

-- In a later table, a probe for the hash finds the slot again.
probe_again :
    (table later : CommTable) (hash n attempt idx : ℕ)
    → hash ≢ 0
    → Keeps (probe table hash n attempt).1 later
    → (probe table hash n attempt).0 ≡ some idx
    → (probe later hash n attempt).0 ≡ some idx
unfolding probe
probe_again table later hash zero attempt idx nz keep h = absurd (cc)
probe_again table later hash (suc n) attempt idx nz keep h =
    elim (Bool-cases (table (add64 hash attempt % max_concurrent_comms) == 0)) [
      | inl t ↦
          let at = keep (add64 hash attempt % max_concurrent_comms) in
          ground (arith, ==_refl (add64 hash attempt % max_concurrent_comms))
      | inr t ↦ elim (Bool-cases (table (add64 hash attempt % max_concurrent_comms) == hash)) [
        | inl u ↦ let at = keep (add64 hash attempt % max_concurrent_comms) in ground arith
        | inr u ↦
            let e : probe table hash (suc n) attempt ≡ probe table hash n (suc attempt) =
              rw (t, u) in
            let kept : Keeps (probe table hash n (suc attempt)).1 later =
              subst (λ (r : Option ℕ × CommTable). Keeps r.1 later) e keep in
            let found : (probe table hash n (suc attempt)).0 ≡ some idx =
              sym (ap (λ (r : Option ℕ × CommTable). r.0) e) ∙ h in
            let again = probe_again table later hash n (suc attempt) idx nz kept found in
            let at = kept (add64 hash attempt % max_concurrent_comms) in
            ground (
              arith,
              probe-Keeps table hash n (suc attempt) (add64 hash attempt % max_concurrent_comms),
            )
      ]
    ]

-- Who finds a slot that another has is that other.
probe-owner :
    (table later : CommTable) (hash other n attempt idx : ℕ)
    → hash ≢ 0
    → (probe table hash n attempt).0 ≡ some idx
    → Keeps (probe table hash n attempt).1 later
    → (probe later other n attempt).0 ≡ some idx
    → other ≡ hash
probe-owner table later hash other n attempt idx nz found keep mine =
    let own = probe-holds table hash n attempt idx found in
    let at : later idx ≡ hash = keep idx (λ z. nz (sym own ∙ z)) ∙ own in
    let theirs = probe-holds later other n attempt idx mine in
    sym theirs ∙ probe-Keeps later other n attempt idx (λ z. nz (sym at ∙ z)) ∙ at

nonzero_hash-pos : (h : ℕ) → nonzero_hash h ≢ 0
unfolding nonzero_hash
nonzero_hash-pos h = ground arith

-- A communicator finds the slot that it was given again, whatever slots were given out since, no
-- communicator with another hash is given that slot (0 and 1 count as one hash), and no slot that is
-- taken is given up or changes its owner.
pub user_ready_comm_slot-Keeps :
    (table later : CommTable) (h k idx : ℕ)
    → (user_ready_comm_slot table h).0 ≡ some idx
    → Keeps (user_ready_comm_slot table h).1 later
    → ((user_ready_comm_slot later h).0 ≡ some idx)
      × ((user_ready_comm_slot later k).0 ≡ some idx → nonzero_hash k ≡ nonzero_hash h)
      × Keeps later (user_ready_comm_slot later k).1
unfolding user_ready_comm_slot
user_ready_comm_slot-Keeps table later h k idx found keep = (
  probe_again table later (nonzero_hash h) 32 0 idx (nonzero_hash-pos h) keep found,
  λ other.
      probe-owner table later (nonzero_hash h) (nonzero_hash k) 32 0 idx (nonzero_hash-pos h) found
        keep other,
  probe-Keeps later (nonzero_hash k) 32 0,
)

probe-exhausted :
    (table : CommTable) (hash : ℕ)
    → ((i : ℕ) → i < max_concurrent_comms → (table i ≢ 0) × (table i ≢ hash))
    → (n attempt : ℕ) → probe table hash n attempt ≡ (none, table)
unfolding probe
probe-exhausted table hash full zero attempt = refl
probe-exhausted table hash full (suc n) attempt =
    let i = add64 hash attempt % max_concurrent_comms in
    let at = full (add64 hash attempt % max_concurrent_comms) (omega arith) in
    let first : (table (add64 hash attempt % max_concurrent_comms) == 0) ≡ false = ground arith in
    let second : (table (add64 hash attempt % max_concurrent_comms) == hash) ≡ false =
      ground arith in
    rw (first, second) (probe-exhausted table hash full n (suc attempt))

-- Once all 16 slots are taken by other hashes, no communicator is given one any more, and the table
-- stays as it is.
pub user_ready_comm_slot-exhausted :
    (table : CommTable) (h : ℕ)
    → ((i : ℕ) → i < max_concurrent_comms → (table i ≢ 0) × (table i ≢ nonzero_hash h))
    → user_ready_comm_slot table h ≡ (none, table)
unfolding user_ready_comm_slot
user_ready_comm_slot-exhausted table h full = probe-exhausted table (nonzero_hash h) full 32 0
