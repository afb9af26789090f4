-- ===== src/Pccl/Topology.antt =====
-- pcie-ccl-cuda/src/topology: the logical NUMA nodes of the GPUs, and which pairs of GPUs may copy
-- directly. What sysfs, the environment variables, NVML and the device runtime answer is an
-- argument; a query that fails ends the discovery before any of this.
pub mod Mapping
mod Tests
use hy_link.Prelude.Int.{ℤ, pos, negsuc, int_eq}
use hy_link.Prelude.{
  List, ℕ, zero, suc, Bool, true, false, ◌&&◌, ◌||◌, none, some, [], ◌∷◌, map, ◌==◌, if◌then◌else◌,
  length, get_elem?,
}

pub record LocalTopology : Type 0 where
  pub num_gpus : ℕ
  pub num_numa_nodes : ℕ
  pub gpu_to_numa : List ℕ
  pub numa_to_physical : List ℤ
  pub has_nvlink : List (List Bool)
  pub lca_is_pcie_switch : List (List Bool)
  pub direct_peer_allowed : List (List Bool)

-- getNUMAForGPU: 0 out of range.
unfoldable pub get_numa_for_gpu : LocalTopology → ℤ → ℕ
get_numa_for_gpu topo (negsuc gpu) = 0
get_numa_for_gpu topo (pos gpu) = elim (get_elem? topo.gpu_to_numa gpu) [ none ↦ 0 | some n ↦ n ]

-- getPhysicalNUMA: 0 out of range.
unfoldable pub get_physical_numa : LocalTopology → ℤ → ℤ
get_physical_numa topo (negsuc logical) = pos 0
get_physical_numa topo (pos logical) = elim (get_elem? topo.numa_to_physical logical) [
  | none ↦ pos 0
  | some n ↦ n
]

-- An entry of a table of pairs, false out of range.
unfoldable pub pair_entry : List (List Bool) → ℤ → ℤ → Bool
pair_entry table (negsuc a) b = false
pair_entry table (pos a) (negsuc b) = false
pair_entry table (pos a) (pos b) = elim (get_elem? table a) [
  | none ↦ false
  | some row ↦ elim (get_elem? row b) [ none ↦ false | some entry ↦ entry ]
]

unfoldable pub pair_has_nvlink : LocalTopology → ℤ → ℤ → Bool
unfolding pair_entry
pair_has_nvlink topo a b = pair_entry topo.has_nvlink a b

unfoldable pub pair_lca_is_pcie_switch : LocalTopology → ℤ → ℤ → Bool
unfolding pair_entry
pair_lca_is_pcie_switch topo a b = pair_entry topo.lca_is_pcie_switch a b

unfoldable pub pair_direct_peer_allowed : LocalTopology → ℤ → ℤ → Bool
unfolding pair_entry
pair_direct_peer_allowed topo a b =
    if int_eq a b then true else pair_entry topo.direct_peer_allowed a b

-- The inner loop over `seen`, and the push if it finds nothing.
pub see : List ℤ → ℤ → List ℤ
see [] phys = phys ∷ []
see (s ∷ seen) phys = let rest = see seen phys in if int_eq s phys then s ∷ seen else s ∷ rest

-- The physical nodes in the order in which they appear first.
pub collect_seen : List ℤ → List ℤ → List ℤ
unfolding see
collect_seen seen [] = seen
collect_seen seen (phys ∷ numas) = collect_seen (see seen phys) numas

-- The loop over the logical nodes l, l + 1, ...: the first that stands for `phys`, 0 if none does.
pub logical_of : List ℤ → ℕ → ℤ → ℕ
logical_of [] l phys = 0
logical_of (n ∷ nodes) l phys =
    let rest = logical_of nodes (suc l) phys in if int_eq n phys then l else rest

-- f i, f (i + 1), ..., `n` entries.
pub tabulate {ℓ} : {A : Type ℓ} → (ℕ → A) → ℕ → ℕ → List A
tabulate f zero i = []
tabulate f (suc n) i = f i ∷ tabulate f n (suc i)

-- populatePairwiseTopology: the two overrides, whether NVML finds one switch above a pair, and
-- whether the runtime grants peer access.
pub populate_pairwise_topology :
    Bool → Bool → (ℕ → ℕ → Bool) → (ℕ → ℕ → Bool) → LocalTopology → LocalTopology
unfolding tabulate
populate_pairwise_topology forced_switch forced_nvlink pair_is_pix can_access topo =
    let n = topo.num_gpus in
    let table = λ (entry : ℕ → ℕ → Bool). tabulate (λ i. tabulate (entry i) n 0) n 0 in
    let is_pix = λ (i j : ℕ). forced_switch || pair_is_pix i j in
    record topo {
      has_nvlink = table (λ i j. if i == j then false else forced_nvlink);
      lca_is_pcie_switch = table (λ i j. if i == j then false else is_pix i j);
      direct_peer_allowed = table (λ i j. if i == j then true else is_pix i j && can_access i j);
    }

-- buildLogicalMapping, for as many GPUs as there are physical nodes given.
pub build_logical_mapping : Bool → Bool → (ℕ → ℕ → Bool) → (ℕ → ℕ → Bool) → List ℤ → LocalTopology
unfolding collect_seen logical_of populate_pairwise_topology
build_logical_mapping forced_switch forced_nvlink pair_is_pix can_access physical_numas =
    let seen = collect_seen [] physical_numas in
    populate_pairwise_topology forced_switch forced_nvlink pair_is_pix can_access record {
      num_gpus = length physical_numas;
      num_numa_nodes = length seen;
      gpu_to_numa = map (logical_of seen 0) physical_numas;
      numa_to_physical = seen;
      has_nvlink = [];
      lca_is_pcie_switch = [];
      direct_peer_allowed = [];
    }

-- parseGpuNumaMap: the numbers of the map, at most one for each GPU, and 0 for the GPUs left.
pub physical_from_map : List ℤ → ℕ → List ℤ
physical_from_map tokens zero = []
physical_from_map [] (suc n) = pos 0 ∷ physical_from_map [] n
physical_from_map (t ∷ tokens) (suc n) = t ∷ physical_from_map tokens n
