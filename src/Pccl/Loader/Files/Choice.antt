-- ===== src/Pccl/Loader/Files/Choice.antt =====
-- pcie-ccl-cuda/src/ir/ir_loader.cpp: the choice of a file.
use hy_link.Prelude.Int.{pos}
use hy_link.Pccl.Topology.{LocalTopology, pair_lca_is_pcie_switch, pair_direct_peer_allowed}
use hy_link.Pccl.Loader.Files.{
  FileName, same_pattern, pair_direct_both_ways, neighbours_direct, first_existing, String,
  p00112233, direct_candidate, find_ir_file,
}
use hy_link.Prelude.{
  List, ℕ, ◌≡◌, ap, inl, inr, Bool, true, false, some, [], ◌∷◌, ◌++◌, arith, Bool-cases, All, refl,
  subst,
}

-- `dir` is in the list, has the file, and no directory before it does.
abbrev pub IsFirst : (String → FileName → Bool) → FileName → List String → String → Type 0
IsFirst exists name dirs dir =
    (before after : List String) × (dirs ≡ before ++ dir ∷ after)
    × (exists dir name ≡ true)
    × All (λ d. exists d name ≡ false) before

first_existing-IsFirst :
    (exists : String → FileName → Bool) (name : FileName) (dirs : List String) (dir : String)
    → first_existing exists name dirs ≡ some dir
    → IsFirst exists name dirs dir
unfolding first_existing
first_existing-IsFirst exists name [] dir h = absurd (cc)
first_existing-IsFirst exists name (d ∷ dirs) dir h = elim (Bool-cases (exists d name)) [
  | inl t ↦ let e : d ≡ dir = ground arith in ([], dirs, ap (λ x. x ∷ dirs) e, ground arith, tt)
  | inr t ↦
      let e : first_existing exists name dirs ≡ some dir = ground arith in
      let (before, after, split, there, none_before) =
        first_existing-IsFirst exists name dirs dir e in
      (d ∷ before, after, ap (λ l. d ∷ l) split, there, (t, none_before))
]

-- GPUs a and b are below one switch, and each may copy to the other.
abbrev pub IsDirectPair : LocalTopology → ℕ → ℕ → Type 0
IsDirectPair topo a b =
    (pair_lca_is_pcie_switch topo (pos a) (pos b) ≡ true)
    × (pair_direct_peer_allowed topo (pos a) (pos b) ≡ true)
    × (pair_direct_peer_allowed topo (pos b) (pos a) ≡ true)

pair_direct_both_ways-IsDirectPair :
    (topo : LocalTopology) (a b : ℕ) → pair_direct_both_ways topo a b ≡ true → IsDirectPair topo a b
unfolding pair_direct_both_ways
pair_direct_both_ways-IsDirectPair topo a b h = ground arith

neighbours_direct-IsDirectPair :
    (topo : LocalTopology) (pattern : List ℕ)
    → neighbours_direct topo pattern ≡ true
    → IsDirectPair topo 0 1
unfolding neighbours_direct
neighbours_direct-IsDirectPair topo pattern h =
    pair_direct_both_ways-IsDirectPair topo 0 1 (ground arith)

direct_candidate-neighbours :
    (collective : String) (topo : LocalTopology)
    → same_pattern topo.gpu_to_numa p00112233 ≡ false
    → direct_candidate collective topo ≡ true
    → neighbours_direct topo topo.gpu_to_numa ≡ true
unfolding direct_candidate
direct_candidate-neighbours collective topo h k = ground arith

-- The file that is found is in the first directory of the search path that has a file of its name,
-- and it is the direct schedule exactly if the topology allows one: where that one is not there, the
-- other is not taken for it. Outside servers of eight GPUs on four nodes, a direct schedule is only
-- taken if GPUs 0 and 1 are below one switch and may copy to each other.
pub find_ir_file-IsFirst :
    (exists : String → FileName → Bool) (dirs : List String) (collective : String)
    (topo : LocalTopology) (dir : String) (name : FileName)
    → find_ir_file exists dirs collective topo ≡ some (dir, name)
    → IsFirst exists name dirs dir
      × (name.direct ≡ direct_candidate collective topo)
      × (same_pattern topo.gpu_to_numa p00112233 ≡ false
          → name.direct ≡ true
          → IsDirectPair topo 0 1)
unfolding find_ir_file
find_ir_file-IsFirst exists dirs collective topo dir name h =
    let chosen : FileName = record {
      collective = collective;
      pattern = topo.gpu_to_numa;
      direct = direct_candidate collective topo;
    } in
    let found : first_existing exists chosen dirs ≡ some dir = ground arith in
    let same : chosen ≡ name = ground arith in
    subst
      (λ (n : FileName).
        IsFirst exists n dirs dir
        × (n.direct ≡ direct_candidate collective topo)
        × (same_pattern topo.gpu_to_numa p00112233 ≡ false
            → n.direct ≡ true
            → IsDirectPair topo 0 1))
      same
      (
        first_existing-IsFirst exists chosen dirs dir found,
        refl,
        λ small direct.
            neighbours_direct-IsDirectPair topo topo.gpu_to_numa
              (direct_candidate-neighbours collective topo small direct),
      )
