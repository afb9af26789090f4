-- ===== src/Pccl/Compiler/Nodes/Partition.antt =====
-- The ranks' nodes together are the program (ir/compiler.cpp).
use hy_link.Prelude.{
  ℕ, ◌+◌, ◌<◌, ◌≡◌, refl, ◌==◌, Bool, true, false, some, List, [], ◌∷◌, if◌then◌else◌, arith, zero,
  suc, length, All, Bool-cases, inl, inr, ltb,
}
use hy_link.Prelude.Int.{ℤ, pos, int_eq}
use hy_link.Pccl.Ir.{ProgressKey}
use hy_link.Pccl.Ir.Keys.{base_of, same_base_key, same_base_key_iff}
use hy_link.Pccl.Compiler.Trace.{Access}
use hy_link.Pccl.Compiler.Trace.Writes.{IsGuarded}
use hy_link.Pccl.Compiler.Nodes.{placement, overwrite_guard_of, node_of, nodes_for}
use hy_link.Pccl.Executor.NodeTypes.{InstructionNode}

-- The node waits for the version of its chunk just before the one that it writes.
abbrev pub HasGuard : InstructionNode → Type 0
HasGuard node =
    (guard : ProgressKey) × (node.overwrite_guard ≡ some guard)
    × (base_of guard ≡ base_of node.output)
    × (node.output.version ≡ suc guard.version)

overwrite_guard_of-eq : (a : Access) → IsGuarded a → overwrite_guard_of a ≡ some a.old_output
unfolding overwrite_guard_of
overwrite_guard_of-eq a (b, v) =
    let same : same_base_key a.old_output a.output ≡ true =
      (same_base_key_iff a.old_output a.output).1 b in
    let apart : (a.old_output.version == a.output.version) ≡ false = ground (arith, v) in
    rw (same, apart) refl

module _ (push : Bool) (is_ring : ProgressKey → Bool) (chunk_bytes : ProgressKey → ℕ) where
  -- If every access of the program is guarded by the version before its own, so is every node of
  -- every rank: no node is left without an overwrite guard.
  pub nodes_for-HasGuard :
      (rank : ℤ) (accesses : List Access)
      → All IsGuarded accesses
      → All HasGuard (nodes_for push is_ring chunk_bytes rank accesses)
  unfolding nodes_for node_of
  nodes_for-HasGuard rank [] h = tt
  nodes_for-HasGuard rank (a ∷ rest) h =
      elim (Bool-cases (int_eq (placement push a.instruction).0 rank)) [
        | inl t ↦ rw t (
          (a.old_output, overwrite_guard_of-eq a h.0, h.0.0, h.0.1),
          nodes_for-HasGuard rank rest h.1,
        )
        | inr t ↦ rw t (nodes_for-HasGuard rank rest h.1)
      ]

  -- The number of nodes of the ranks below `n`.
  abbrev pub nodes_total : ℕ → List Access → ℕ
  nodes_total zero accesses = 0
  nodes_total (suc n) accesses =
      nodes_total n accesses + length (nodes_for push is_ring chunk_bytes (pos n) accesses)

  -- The access is run by one of the ranks below `n`.
  abbrev pub IsPlaced : ℕ → Access → Type 0
  IsPlaced n a = (r : ℕ) × ((placement push a.instruction).0 ≡ pos r) × (r < n)

  nodes_total-nil : (n : ℕ) → nodes_total n [] ≡ 0
  unfolding nodes_for
  nodes_total-nil zero = refl
  nodes_total-nil (suc n) = omega (arith, nodes_total-nil n)

  length-nodes_for :
      (a : Access) (rest : List Access) (r n : ℕ)
      → (placement push a.instruction).0 ≡ pos r
      → length (nodes_for push is_ring chunk_bytes (pos n) (a ∷ rest))
        ≡ length (nodes_for push is_ring chunk_bytes (pos n) rest) + (if r == n then 1 else 0)
  unfolding nodes_for
  length-nodes_for a rest r n e = elim (Bool-cases (r == n)) [
    | inl t ↦ rw (e, t) (omega arith)
    | inr t ↦ rw (e, t) (omega arith)
  ]

  nodes_total-cons :
      (a : Access) (rest : List Access) (r n : ℕ)
      → (placement push a.instruction).0 ≡ pos r
      → nodes_total n (a ∷ rest) ≡ nodes_total n rest + (if ltb r n then 1 else 0)
  nodes_total-cons a rest r zero e = ground arith
  nodes_total-cons a rest r (suc n) e =
      let ih = nodes_total-cons a rest r n e in
      let here = length-nodes_for a rest r n e in ground (arith, ih, here)

  -- When every instruction is run by some rank of the world, the ranks' nodes are as many as the
  -- accesses of the program: each is run by exactly one rank.
  pub nodes_total-length :
      (world_size : ℕ) (accesses : List Access)
      → All (IsPlaced world_size) accesses
      → nodes_total world_size accesses ≡ length accesses
  nodes_total-length world_size [] h = nodes_total-nil world_size
  nodes_total-length world_size (a ∷ rest) h =
      let (r, e, inside) = h.0 in
      let ih = nodes_total-length world_size rest h.1 in
      let one = nodes_total-cons a rest r world_size e in ground (arith, one, ih, inside)

  -- When every instruction is run by some rank of the world, the ranks' nodes are as many as the
  -- accesses of the program: each is run by exactly one rank. If also every access is guarded by the
  -- version before its own, so is every node of every rank: none is left without an overwrite guard.
  pub nodes_for_lem :
      (world_size : ℕ) (rank : ℤ) (accesses : List Access)
      → All (IsPlaced world_size) accesses
      → All IsGuarded accesses
      → (nodes_total world_size accesses ≡ length accesses)
        × All HasGuard (nodes_for push is_ring chunk_bytes rank accesses)
  nodes_for_lem world_size rank accesses placed guarded =
      (nodes_total-length world_size accesses placed, nodes_for-HasGuard rank accesses guarded)
