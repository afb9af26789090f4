-- ===== src/Pccl/Topology/Mapping.antt =====
-- pcie-ccl-cuda/src/topology/topology.cpp: logical nodes stand for physical ones, and pairs.
use hy_link.Prelude.Int.{ℤ, pos, int_eq, int_eq_iff}
use hy_link.Pccl.Topology.{
  LocalTopology, get_numa_for_gpu, get_physical_numa, pair_entry, pair_lca_is_pcie_switch,
  pair_direct_peer_allowed, see, collect_seen, logical_of, tabulate, populate_pairwise_topology,
  build_logical_mapping,
}
use hy_link.Prelude.{
  List, ℕ, zero, suc, ◌+◌, ◌<◌, ◌≡◌, refl, ap, ◌∙◌, ◌≢◌, ◌↔◌, inl, inr, Bool, true, false, some, [],
  ◌∷◌, map, arith, Bool-cases, length, get_elem?, ◌&&◌, ◌||◌, ◌==◌, if◌then◌else◌,
}

see_keeps :
    (seen : List ℤ) (phys : ℤ) (i : ℕ) (n : ℤ)
    → get_elem? seen i ≡ some n
    → get_elem? (see seen phys) i ≡ some n
unfolding see
see_keeps [] phys i n h = cc
see_keeps (s ∷ seen) phys zero n h = ground arith
see_keeps (s ∷ seen) phys (suc i) n h = ground (arith, see_keeps seen phys i n h)

collect_seen_keeps :
    (numas seen : List ℤ) (i : ℕ) (n : ℤ)
    → get_elem? seen i ≡ some n
    → get_elem? (collect_seen seen numas) i ≡ some n
unfolding collect_seen
collect_seen_keeps [] seen i n h = h
collect_seen_keeps (p ∷ numas) seen i n h =
    collect_seen_keeps numas (see seen p) i n (see_keeps seen p i n h)

-- `n` is among the nodes.
abbrev Has : List ℤ → ℤ → Type 0
Has nodes n = (i : ℕ) × (get_elem? nodes i ≡ some n)

see-Has : (seen : List ℤ) (phys : ℤ) → Has (see seen phys) phys
unfolding see
see-Has [] phys = (0, refl)
see-Has (s ∷ seen) phys = elim (Bool-cases (int_eq s phys)) [
  | inl t ↦ rw t (0, ap some ((int_eq_iff s phys).0 t))
  | inr t ↦ rw t (let rest = see-Has seen phys in (suc rest.0, rest.1))
]

collect_seen-Has :
    (numas seen : List ℤ) (g : ℕ) (n : ℤ)
    → get_elem? numas g ≡ some n
    → Has (collect_seen seen numas) n
unfolding collect_seen
collect_seen-Has [] seen g n h = absurd (cc)
collect_seen-Has (p ∷ numas) seen zero n h =
    let (i, at) = see-Has seen p in (i, collect_seen_keeps numas (see seen p) i n (at ∙ h))
collect_seen-Has (p ∷ numas) seen (suc g) n h = collect_seen-Has numas (see seen p) g n h

-- The first place of a node that is there.
logical_of-found :
    (nodes : List ℤ) (l i : ℕ) (n : ℤ)
    → get_elem? nodes i ≡ some n
    → (k : ℕ) × (logical_of nodes l n ≡ l + k) × (get_elem? nodes k ≡ some n)
unfolding logical_of
logical_of-found [] l i n h = absurd (cc)
logical_of-found (m ∷ nodes) l zero n h =
    let same : int_eq m n ≡ true = (int_eq_iff m n).1 (cc) in rw same (0, omega arith, h)
logical_of-found (m ∷ nodes) l (suc i) n h =
    let (k, e, at) = logical_of-found nodes (suc l) i n h in
    elim (Bool-cases (int_eq m n)) [
      | inl t ↦ rw t (0, omega arith, ap some ((int_eq_iff m n).0 t))
      | inr t ↦ rw t (suc k, omega (arith, e), at)
    ]

get_elem?-map :
    {A B : Type 0} (f : A → B) (xs : List A) (i : ℕ) (x : A)
    → get_elem? xs i ≡ some x
    → get_elem? (map f xs) i ≡ some (f x)
get_elem?-map f [] i x h = absurd (cc)
get_elem?-map f (y ∷ xs) zero x h = cc
get_elem?-map f (y ∷ xs) (suc i) x h = get_elem?-map f xs i x h

get_elem?-tabulate :
    {A : Type 0} (f : ℕ → A) (n i k : ℕ) → k < n → get_elem? (tabulate f n i) k ≡ some (f (i + k))
unfolding tabulate
get_elem?-tabulate f zero i k h = absurd (omega arith)
get_elem?-tabulate f (suc n) i zero h = ap (λ t. some (f t)) (omega arith)
get_elem?-tabulate f (suc n) i (suc k) h =
    get_elem?-tabulate f n (suc i) k (omega arith) ∙ ap (λ t. some (f t)) (omega arith)

pair_entry-table :
    (entry : ℕ → ℕ → Bool) (n a b : ℕ)
    → a < n
    → b < n
    → pair_entry (tabulate (λ i. tabulate (entry i) n 0) n 0) (pos a) (pos b) ≡ entry a b
unfolding pair_entry
pair_entry-table entry n a b ha hb =
    let row = get_elem?-tabulate (λ i. tabulate (entry i) n 0) n 0 a ha in
    let cell = get_elem?-tabulate (entry (0 + a)) n 0 b hb in
    let za : 0 + a ≡ a = omega arith in
    let zb : 0 + b ≡ b = omega arith in
    let same : entry (0 + a) (0 + b) ≡ entry a b = cc in
    rw (row, pair_entry) (rw (cell, pair_entry) same)

module _ (forced_switch forced_nvlink : Bool) (pair_is_pix can_access : ℕ → ℕ → Bool)
    (numas : List ℤ) where
  abbrev topo : LocalTopology
  topo = build_logical_mapping forced_switch forced_nvlink pair_is_pix can_access numas

  -- The logical node of a GPU leads back to the physical node that it was found on.
  pub get_physical_numa-get_numa_for_gpu :
      (g : ℕ) (n : ℤ)
      → get_elem? numas g ≡ some n
      → get_physical_numa (topo) (pos (get_numa_for_gpu (topo) (pos g))) ≡ n
  unfolding build_logical_mapping populate_pairwise_topology get_physical_numa get_numa_for_gpu
  get_physical_numa-get_numa_for_gpu g n h =
      let seen = collect_seen [] numas in
      let there = collect_seen-Has numas [] g n h in
      let found = logical_of-found seen 0 there.0 n there.1 in
      let logical : get_numa_for_gpu (topo) (pos g) ≡ logical_of seen 0 n =
        rw (get_elem?-map (logical_of seen 0) numas g n h, get_numa_for_gpu) in
      let place : get_numa_for_gpu (topo) (pos g) ≡ found.0 = logical ∙ omega (arith, found.1) in
      rw place (rw (found.2, get_physical_numa))

  -- Two different GPUs may copy directly exactly if they are below one PCIe switch, or said to be,
  -- and the runtime grants peer access.
  pub pair_direct_peer_allowed_iff :
      (a b : ℕ)
      → a < length numas
      → b < length numas
      → a ≢ b
      → (pair_direct_peer_allowed (topo) (pos a) (pos b) ≡ true)
        ↔ ((pair_lca_is_pcie_switch (topo) (pos a) (pos b) ≡ true) × (can_access a b ≡ true))
  unfolding build_logical_mapping populate_pairwise_topology pair_direct_peer_allowed
      pair_lca_is_pcie_switch pair_entry
  pair_direct_peer_allowed_iff a b ha hb ne =
      let switch =
        pair_entry-table (λ i j. if i == j then false else forced_switch || pair_is_pix i j)
          (length numas) a b ha hb in
      let direct =
        pair_entry-table
          (λ i j. if i == j then true else (forced_switch || pair_is_pix i j) && can_access i j)
          (length numas) a b ha hb in
      ground (arith, switch, direct)
