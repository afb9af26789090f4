-- ===== src/Pccl/Loader/Files.antt =====
-- pcie-ccl-cuda/src/ir/ir_loader.cpp: which file holds the schedule of a collective. A file's name
-- is kept in its parts: the collective, the digits of the logical nodes, and whether it ends in
-- _direct. What dladdr and fopen answer is an argument.
pub mod Choice
use hy_link.Prelude.{
  ℕ, zero, suc, Bool, true, false, ◌&&◌, ◌||◌, not, Option, none, some, List, [], ◌∷◌, ◌++◌,
  if◌then◌else◌,
}
use hy_link.Prelude.Int.{pos}
use hy_link.Pccl.Topology.{
  LocalTopology, pair_has_nvlink, pair_lca_is_pcie_switch, pair_direct_peer_allowed,
}
use Prim.Native.String.{String, ◌++◌ as text_append}
use hy_link.Prelude.{◌==◌ as nat_eq}
use text.Mathlib.Text.{◌==◌, starts_with}

pub record FileName : Type 0 where
  pub collective : String
  pub pattern : List ℕ
  pub direct : Bool

-- Equality of the digits.
abbrev pub same_pattern : List ℕ → List ℕ → Bool
same_pattern [] [] = true
same_pattern [] (y ∷ ys) = false
same_pattern (x ∷ xs) [] = false
same_pattern (x ∷ xs) (y ∷ ys) = nat_eq x y && same_pattern xs ys

-- Is the path among those kept so far?
abbrev pub has_path : List String → String → Bool
has_path [] path = false
has_path (p ∷ paths) path = p == path || has_path paths path

-- The loop that drops repeated paths.
unfoldable pub unique_paths : List String → List String → List String
unique_paths kept [] = kept
unique_paths kept (path ∷ paths) =
    unique_paths (if has_path kept path then kept else kept ++ path ∷ []) paths

-- defaultIRSearchPaths, given the directory of the library if dladdr finds it.
unfoldable pub default_ir_search_paths : String → Option String → List String
unfolding unique_paths
default_ir_search_paths ir_path lib_dir =
    let own : List String = if ir_path == "" then [] else ir_path ∷ [] in
    let near : List String = elim lib_dir [
      | none ↦ []
      | some dir ↦
          text_append dir "/ir"
          ∷ text_append dir "/../ir"
          ∷ text_append dir "/share/pccl/ir"
          ∷ text_append dir "/../share/pccl/ir"
          ∷ []
    ] in
    unique_paths [] (own ++ (near ++ "./ir" ∷ "/usr/local/share/pccl/ir" ∷ []))

-- The loop over j, j + 1, ..., `n` of them: no pair (i, j) of different GPUs fails the test.
abbrev pub all_of : ℕ → ℕ → (ℕ → Bool) → Bool
all_of zero j test = true
all_of (suc n) j test = test j && all_of n (suc j) test

-- Both loops over the pairs of different GPUs.
abbrev pub all_pairs : ℕ → (ℕ → ℕ → Bool) → Bool
all_pairs n test = all_of n 0 λ i. all_of n 0 λ j. nat_eq i j || test i j

pub all_pairs_direct_peer_allowed : LocalTopology → Bool
all_pairs_direct_peer_allowed topo =
    all_pairs topo.num_gpus λ i j. pair_direct_peer_allowed topo (pos i) (pos j)

unfoldable pub any_nvlink : LocalTopology → Bool
any_nvlink topo = not (all_pairs topo.num_gpus λ i j. not (pair_has_nvlink topo (pos i) (pos j)))

unfoldable pub pair_direct_both_ways : LocalTopology → ℕ → ℕ → Bool
pair_direct_both_ways topo a b =
    pair_lca_is_pcie_switch topo (pos a) (pos b)
    && pair_direct_peer_allowed topo (pos a) (pos b)
    && pair_direct_peer_allowed topo (pos b) (pos a)

-- The patterns by name: "00", "01", "0000", "0011" and "00112233".
abbrev pub p00 : List ℕ
p00 = 0 ∷ 0 ∷ []

abbrev pub p01 : List ℕ
p01 = 0 ∷ 1 ∷ []

abbrev pub p0000 : List ℕ
p0000 = 0 ∷ 0 ∷ 0 ∷ 0 ∷ []

abbrev pub p0011 : List ℕ
p0011 = 0 ∷ 0 ∷ 1 ∷ 1 ∷ []

abbrev pub p00112233 : List ℕ
p00112233 = 0 ∷ 0 ∷ 1 ∷ 1 ∷ 2 ∷ 2 ∷ 3 ∷ 3 ∷ []

-- The neighbours 0, 1 and, where there are four GPUs, 2, 3. The two places of the source that ask
-- both ways for these pairs differ only in the order of the tests.
unfoldable pub neighbours_direct : LocalTopology → List ℕ → Bool
neighbours_direct topo pattern =
    if same_pattern pattern p00 || same_pattern pattern p01
    then pair_direct_both_ways topo 0 1
    else pair_direct_both_ways topo 0 1 && pair_direct_both_ways topo 2 3

unfoldable pub is_broadcast_root_collective : String → Bool
is_broadcast_root_collective collective = starts_with collective "broadcast_root"

unfoldable pub direct_candidate : String → LocalTopology → Bool
direct_candidate collective topo =
    let pattern = topo.gpu_to_numa in
    let one_node = same_pattern pattern p00 || same_pattern pattern p0000 in
    if (collective == "allgather"
        || collective == "reducescatter"
        || (collective == "allreduce" && one_node))
      && (one_node || same_pattern pattern p0011)
    then not (any_nvlink topo) && neighbours_direct topo pattern
    else if is_broadcast_root_collective collective
        && (same_pattern pattern p00
            || same_pattern pattern p01
            || same_pattern pattern p0000
            || same_pattern pattern p0011
            || same_pattern pattern p00112233)
    then (if same_pattern pattern p00112233
        then all_pairs_direct_peer_allowed topo
        else neighbours_direct topo pattern)
    else false

-- The first directory that has the file.
unfoldable pub first_existing : (String → FileName → Bool) → FileName → List String → Option String
first_existing exists name [] = none
first_existing exists name (dir ∷ dirs) =
    let rest = first_existing exists name dirs in if exists dir name then some dir else rest

-- The directory and the name of the file, or none for the error that there is none.
unfoldable pub find_ir_file :
    (String → FileName → Bool) → List String → String → LocalTopology → Option (String × FileName)
find_ir_file exists search_paths collective topo =
    let name : FileName = record {
      collective = collective;
      pattern = topo.gpu_to_numa;
      direct = direct_candidate collective topo;
    } in
    elim (first_existing exists name search_paths) [ none ↦ none | some dir ↦ some (dir, name) ]

-- findRelayIRFile never takes a direct schedule.
unfoldable pub find_relay_ir_file :
    (String → FileName → Bool) → List String → String → LocalTopology → Option (String × FileName)
find_relay_ir_file exists search_paths collective topo =
    let name : FileName = record {
      collective = collective;
      pattern = topo.gpu_to_numa;
      direct = false;
    } in
    elim (first_existing exists name search_paths) [ none ↦ none | some dir ↦ some (dir, name) ]
