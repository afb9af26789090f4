-- ===== src/Pccl/Loader/Tests.antt =====
-- A schedule of two ranks, and the theorems about the loader at it.
use hy_link.Prelude.{
  ℕ, ◌≡◌, refl, ◌↔◌, Bool, true, false, ◌&&◌, ◌||◌, none, some, List, [], ◌∷◌, if◌then◌else◌, All,
}
use hy_link.Prelude.Int.{ℤ, pos}
use hy_link.Pccl.Topology.{LocalTopology, pair_has_nvlink, pair_lca_is_pcie_switch}
use hy_link.Pccl.Loader.{
  chunk_count, Element, RankElement, RootElement, no_rank, Loaded, ok, failed, LoadedProgram,
  parse_document,
}
use hy_link.Pccl.Loader.Files.{
  FileName, default_ir_search_paths, any_nvlink, pair_direct_both_ways, neighbours_direct,
  is_broadcast_root_collective, direct_candidate, first_existing, find_ir_file, find_relay_ir_file,
}
use hy_link.Pccl.Loader.Parse.{Succeeds, IsReadable, HasRank, parse_document-Succeeds}
use hy_link.Pccl.Loader.Small.{IsSmall}
use hy_link.Pccl.Loader.Counts.{IsCounted, parse_document-IsCounted}
use Prim.Native.String.{String}
use text.Mathlib.Text.{◌==◌}

-- The attributes of an instruction that copies chunk `chunk` down or up.
abbrev copy_element : String → ℤ → Element
copy_element op chunk = record {
  attribute = λ name. if name == "op" then some op else none;
  int_attribute = λ name. if name == "src_chunk" || name == "dst_chunk" then some chunk else none;
}

abbrev rank_element : ℤ → List Element → RankElement
rank_element id elems = record {
  element = record {
    attribute = λ name. none;
    int_attribute = λ name. if name == "id" then some id else none;
  };
  instruction_elements = elems;
}

abbrev schedule : RootElement
schedule = record {
  element = record { attribute = λ name. none; int_attribute = λ name. none };
  rank_elements =
      rank_element (pos 0) (copy_element "D2H" (pos 2) ∷ [])
      ∷ rank_element (pos 1) (copy_element "H2D" (pos 5) ∷ [])
      ∷ [];
}

abbrev node_zero : ℤ → ℤ
node_zero rank = pos 0

abbrev counts_of : Loaded LoadedProgram → ℕ × ℕ
counts_of (ok p) = (p.program.input_chunk_count, p.program.output_chunk_count)
counts_of (failed e) = (0, 0)

counts_of-schedule : counts_of (parse_document (some schedule) (pos 1) node_zero) ≡ (3, 6)
unfolding parse_document
counts_of-schedule = refl

unknown_rank : parse_document (some schedule) (pos 7) node_zero ≡ failed (no_rank (pos 7))
unfolding parse_document
unknown_rank = refl

paths : default_ir_search_paths "./ir" none ≡ "./ir" ∷ "/usr/local/share/pccl/ir" ∷ []
unfolding default_ir_search_paths
paths = refl

parse_document-Succeeds_example : Succeeds (parse_document (some schedule) (pos 1) node_zero) ↔ (
    HasRank schedule.rank_elements (pos 1)
    × All (λ r. All IsReadable r.instruction_elements) schedule.rank_elements)
parse_document-Succeeds_example = parse_document-Succeeds schedule (pos 1) node_zero

-- What the schedule gives on rank 1, with or without success.
abbrev program_of : Loaded LoadedProgram → LoadedProgram
program_of (ok p) = p
program_of (failed e) = record {
  name = "";
  nranks = pos 0;
  instructions = [];
  program = record { input_chunk_count = 0; output_chunk_count = 0; all_instructions = [] };
}

abbrev loaded : LoadedProgram
loaded = program_of (parse_document (some schedule) (pos 1) node_zero)

tiny : All IsSmall loaded.instructions × All IsSmall loaded.program.all_instructions
unfolding parse_document
tiny = (((λ _. refl, λ _. refl), tt), ((λ _. refl, λ _. refl), ((λ _. refl, λ _. refl), tt)))

overflowing : chunk_count (pos 2147483647) ≡ 0
unfolding chunk_count
overflowing = refl

parse_document-IsCounted_example :
    All (IsCounted loaded.program) loaded.instructions
    × All (IsCounted loaded.program) loaded.program.all_instructions
parse_document-IsCounted_example =
    parse_document-IsCounted schedule (pos 1) node_zero loaded (unfold parse_document in refl)
      (tiny.0) (tiny.1)

-- Two GPUs on one node, with or without a switch above them.
abbrev pair : Bool → LocalTopology
pair direct = record {
  num_gpus = 2;
  num_numa_nodes = 1;
  gpu_to_numa = 0 ∷ 0 ∷ [];
  numa_to_physical = pos 0 ∷ [];
  has_nvlink = [];
  lca_is_pcie_switch = (false ∷ direct ∷ []) ∷ (direct ∷ false ∷ []) ∷ [];
  direct_peer_allowed = (true ∷ direct ∷ []) ∷ (direct ∷ true ∷ []) ∷ [];
}

abbrev all_reduce_file : Bool → FileName
all_reduce_file direct = record { collective = "allreduce"; pattern = 0 ∷ 0 ∷ []; direct = direct }

-- Only the second directory has files, and only the direct schedule.
abbrev only_direct : String → FileName → Bool
only_direct dir name = dir == "b" && name.direct

no_fallback : find_ir_file only_direct ("a" ∷ "b" ∷ []) "allreduce" (pair false) ≡ none
unfolding find_ir_file direct_candidate neighbours_direct any_nvlink pair_direct_both_ways
    first_existing is_broadcast_root_collective pair_has_nvlink pair_lca_is_pcie_switch
no_fallback = refl

relay_file :
    find_relay_ir_file (λ dir name. true) ("a" ∷ []) "allreduce" (pair true)
    ≡ some ("a", all_reduce_file false)
unfolding find_relay_ir_file first_existing
relay_file = refl
