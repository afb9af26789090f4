-- ===== src/Pccl/Topology/Tests.antt =====
-- A server of four GPUs on the physical nodes 3, 3, 1 and 1, with a switch for each pair.
use hy_link.Prelude.Int.{ℤ, pos}
use hy_link.Pccl.Topology.{LocalTopology, build_logical_mapping, physical_from_map}
use hy_link.Prelude.{List, ℕ, ◌/◌, ◌≡◌, refl, Bool, true, false, [], ◌∷◌, ◌==◌}

abbrev same_switch : ℕ → ℕ → Bool
same_switch i j = (i / 2) == (j / 2)

abbrev server_nodes : List ℤ
server_nodes = pos 3 ∷ pos 3 ∷ pos 1 ∷ pos 1 ∷ []

abbrev server : LocalTopology
server = build_logical_mapping false false same_switch (λ i j. true) server_nodes

logical_nodes : server.gpu_to_numa ≡ 0 ∷ 0 ∷ 1 ∷ 1 ∷ []
unfolding build_logical_mapping
logical_nodes = refl

short_map : physical_from_map (pos 1 ∷ []) 3 ≡ pos 1 ∷ pos 0 ∷ pos 0 ∷ []
unfolding physical_from_map
short_map = refl
