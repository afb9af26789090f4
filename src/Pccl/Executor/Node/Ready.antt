-- ===== src/Pccl/Executor/Node/Ready.antt =====
-- What has happened when a slice of a node is submitted (executor/graph_executor.cpp): its inputs are
-- written, and nobody still needs what it overwrites.
use hy_link.Prelude.{
  ℕ, ◌+◌, ◌-◌, ◌%◌, ◌≤◌, ◌<◌, ◌≡◌, ◌≢◌, refl, true, some, List, [], ◌∷◌, arith, All, leb, ltb,
  Bool-cases, inl, inr, ltb→le,
}
use hy_link.Pccl.Ir.{ProgressKey}
use hy_link.Pccl.Progress.{
  ProgressState, slot_of, get_write_progress, get_consume_progress, get_num_readers,
}
use hy_link.Pccl.Progress.Consume.{IsConsumed, consume-reader}
use hy_link.Pccl.Executor.NodeTypes.{NodeInput, InstructionNode, NodeState, Environment, idle}
use hy_link.Pccl.Executor.Node.{
  inputs_ready, ring_ready, guard_ready, overwrite_ready, try_submit_node,
}

-- Every reader registered for the key has consumed `count` slices.
abbrev pub IsDrained : ProgressState → ℕ → ProgressKey → ℕ → Type 0
IsDrained st epoch key count =
    (reader : ℕ)
    → reader < get_num_readers st key
    → count ≤ st.reader_done (slot_of key) reader (epoch % 2)

-- A slice may run: its inputs are written; if the output is a ring, the readers have drained the
-- slot's last slice; and if a version is overwritten, it is written and drained that far.
abbrev pub IsSafe : ProgressState → ℕ → ℕ → InstructionNode → ℕ → Type 0
IsSafe st epoch slots node sc =
    All (λ input. sc + 1 ≤ get_write_progress st input.key epoch) node.inputs
    × (node.output_ring_buffered ≡ true
        → slots ≤ sc
        → IsDrained st epoch node.output (sc - slots + 1))
    × ((guard : ProgressKey)
        → node.overwrite_guard ≡ some guard
        → (0 < guard.version → sc + 1 ≤ get_write_progress st guard epoch)
          × IsDrained st epoch guard (sc + 1))

module _ (st : ProgressState) (epoch : ℕ) (consumed : IsConsumed st) where
  inputs_ready-written :
      (inputs : List NodeInput) (sc : ℕ)
      → inputs_ready st epoch inputs sc ≡ true
      → All (λ input. sc + 1 ≤ get_write_progress st input.key epoch) inputs
  unfolding inputs_ready
  inputs_ready-written [] sc h = tt
  inputs_ready-written (input ∷ inputs) sc h =
      elim (Bool-cases (ltb (get_write_progress st input.key epoch) (sc + 1))) [
        | inl t ↦ absurd (ground (arith, t, h))
        | inr t ↦ (ltb→le _ _ t, inputs_ready-written inputs sc (ground (arith, t, h)))
      ]

  drained :
      (key : ProgressKey) (count : ℕ)
      → (0 < get_num_readers st key → count ≤ get_consume_progress st key epoch)
      → IsDrained st epoch key count
  drained key count h reader k =
      let p = h (omega (arith, k)) in
      let q = consume-reader st key epoch consumed reader k in omega (arith, p, q)

  ring_ready-IsDrained :
      (slots : ℕ) (node : InstructionNode) (sc : ℕ)
      → ring_ready st epoch slots node sc ≡ true
      → node.output_ring_buffered ≡ true
      → slots ≤ sc
      → IsDrained st epoch node.output (sc - slots + 1)
  unfolding ring_ready
  ring_ready-IsDrained slots node sc h ring late =
      drained node.output (sc - slots + 1) (λ some_readers. ground (arith, h, ring, late))

  guard_ready-IsDrained :
      (guard : ProgressKey) (sc : ℕ)
      → guard_ready st epoch guard sc ≡ true
      → (0 < guard.version → sc + 1 ≤ get_write_progress st guard epoch)
        × IsDrained st epoch guard (sc + 1)
  unfolding guard_ready
  guard_ready-IsDrained guard sc h =
      (λ v. ground (arith, h), drained guard (sc + 1) (λ some_readers. ground (arith, h)))

  overwrite_ready-IsSafe :
      (slots : ℕ) (node : InstructionNode) (sc : ℕ)
      → inputs_ready st epoch node.inputs sc ≡ true
      → overwrite_ready st epoch slots node sc ≡ true
      → IsSafe st epoch slots node sc
  unfolding overwrite_ready
  overwrite_ready-IsSafe slots node sc i o = (
    inputs_ready-written node.inputs sc i,
    ring_ready-IsDrained slots node sc (ground (arith, o)),
    λ guard e. guard_ready-IsDrained guard sc (ground (arith, o, e)),
  )

ready-of :
    (env : Environment) (st : ProgressState) (node : InstructionNode) (state : NodeState)
    → (try_submit_node env st node state).0 ≢ idle
    → (inputs_ready st env.epoch node.inputs state.next_subchunk ≡ true)
      × (overwrite_ready st env.epoch env.ring_slots node state.next_subchunk ≡ true)
      × (state.next_subchunk < env.num_subchunks)
unfolding try_submit_node
ready-of env st node state h =
    let sc = state.next_subchunk in
    elim (Bool-cases (leb env.num_subchunks sc)) [
      | inl t ↦ absurd (h (rw t refl))
      | inr t ↦ elim (Bool-cases (inputs_ready st env.epoch node.inputs sc)) [
        | inr i ↦ absurd (h (rw (t, i) refl))
        | inl i ↦ elim (Bool-cases (overwrite_ready st env.epoch env.ring_slots node sc)) [
          | inr o ↦ absurd (h (rw (t, i, o) refl))
          | inl o ↦ (i, o, ground (arith, t))
        ]
      ]
    ]

-- If no consume counter is ahead of a registered reader, then whatever a submission does to a
-- slice, whether it runs at once, is handed on or fails, it does only when the slice is one of the
-- graph's, its inputs are written and all that it overwrites is written and drained by every
-- registered reader.
pub try_submit_node-IsSafe :
    (env : Environment) (st : ProgressState) (node : InstructionNode) (state : NodeState)
    → IsConsumed st
    → (try_submit_node env st node state).0 ≢ idle
    → (state.next_subchunk < env.num_subchunks)
      × IsSafe st env.epoch env.ring_slots node state.next_subchunk
try_submit_node-IsSafe env st node state consumed h =
    let (i, o, inside) = ready-of env st node state h in
    (
      inside,
      overwrite_ready-IsSafe st env.epoch consumed env.ring_slots node state.next_subchunk i o,
    )
