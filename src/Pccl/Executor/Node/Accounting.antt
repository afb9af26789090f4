-- ===== src/Pccl/Executor/Node/Accounting.antt =====
-- Where the slices of a node are (executor/graph_executor.cpp): each submitted slice is done, in an
-- event ring or with the H2H engine.
use hy_link.Prelude.{
  ℕ, ◌+◌, ◌-◌, ◌≤◌, ◌<◌, suc, ◌≡◌, refl, true, Option, none, some, List, [], ◌∷◌, arith, All, leb,
  ltb, not, ◌&&◌, ◌||◌, ◌==◌, Bool-cases, inl, inr, ltb→le, if-intro,
}
use hy_link.Pccl.Ir.{ProgressKey}
use hy_link.Pccl.Progress.{ProgressState}
use hy_link.Pccl.Executor.NodeTypes.{
  InstructionNode, NodeState, Outcome, Environment, idle, published, h2h_submitted, dma_submitted,
  failed,
}
use hy_link.Pccl.Executor.Node.{
  finish_now, submit_h2h, submit_dma, is_host_op, needs_no_work, lead_blocked, inputs_ready,
  overwrite_ready, is_in_place, remote_blocked, try_submit_node, complete_dma, complete_h2h,
  nodes_complete, terminals_complete,
}

-- `dma` slices of the node are in an event ring.
abbrev pub IsBalanced : ℕ → NodeState → ℕ → Type 0
IsBalanced num_subchunks state dma =
    (state.next_subchunk ≡ state.completed_subchunks + state.h2h_pending + dma)
    × (state.next_subchunk ≤ num_subchunks)

abbrev pub dma_after : Outcome → ℕ → ℕ
dma_after dma_submitted dma = suc dma
dma_after idle dma = dma
dma_after published dma = dma
dma_after h2h_submitted dma = dma
dma_after failed dma = dma

module _ (env : Environment) (st : ProgressState) (node : InstructionNode) (state : NodeState)
    (dma : ℕ) where
  abbrev Keeps : Outcome × ProgressState × NodeState → Type 0
  Keeps (o, after, next) = IsBalanced env.num_subchunks next (dma_after o dma)

  module _ (h : IsBalanced env.num_subchunks state dma)
      (inside : state.next_subchunk < env.num_subchunks) where
    finish_now-Keeps : Keeps (finish_now st env.epoch node state)
    unfolding finish_now
    finish_now-Keeps = (omega (arith, h), omega (arith, inside))

    submit_h2h-Keeps : Keeps (submit_h2h env st state)
    unfolding submit_h2h
    submit_h2h-Keeps =
        if-intro Keeps (not env.has_h2h_engine || not env.h2h_user_ready || (env.h2h_expected == 0))
          (λ _. h) (λ _. (omega (arith, h), omega (arith, inside)))

    copied-Keeps :
        (src dst : Option ℕ) → env.src ≡ src → env.dst ≡ dst → Keeps (submit_dma env st node state)
    unfolding submit_dma
    copied-Keeps src none p q = rw q (if-intro Keeps env.ring_full (λ _. h) (λ _. h))
    copied-Keeps none (some dst) p q = rw (q, p) (if-intro Keeps env.ring_full (λ _. h) (λ _. h))
    copied-Keeps (some src) (some dst) p q =
        rw (q, p)
          (if-intro Keeps env.ring_full (λ _. h)
            (λ _.
              if-intro Keeps (is_in_place env node src dst) (λ _. finish_now-Keeps)
                (λ _.
                  if-intro Keeps (remote_blocked env node) (λ _. h)
                    (λ _.
                      if-intro Keeps (env.copy_succeeds && env.record_succeeds)
                        (λ _. (omega (arith, h), omega (arith, inside))) (λ _. h)))))

  -- A submission keeps the slices of its node accounted for, if they were: those begun are done,
  -- with the H2H engine or in an event ring, and it never begins one past the last.
  pub try_submit_node-IsBalanced :
      IsBalanced env.num_subchunks state dma
      → IsBalanced env.num_subchunks
          (try_submit_node env st node state).2
          (dma_after (try_submit_node env st node state).0 dma)
  unfolding try_submit_node
  try_submit_node-IsBalanced h =
      let sc = state.next_subchunk in
      if-intro Keeps (leb env.num_subchunks sc) (λ _. h)
        (λ t.
          let inside : sc < env.num_subchunks = ground (arith, t) in
          if-intro Keeps
            (not (inputs_ready st env.epoch node.inputs sc)
              || not (overwrite_ready st env.epoch env.ring_slots node sc))
            (λ _. h)
            (λ _.
              if-intro Keeps (needs_no_work env node sc) (λ _. finish_now-Keeps h inside)
                (λ _.
                  if-intro Keeps (lead_blocked env st node sc) (λ _. h)
                    (λ _.
                      if-intro Keeps (is_host_op node.op) (λ _. submit_h2h-Keeps h inside)
                        (λ _. copied-Keeps h inside env.src env.dst refl refl)))))

-- If the slices of a node are accounted for, they still are after the completion of a copy, where
-- one is in an event ring, and after that of a host task, where one is pending.
pub complete-IsBalanced :
    (num_subchunks : ℕ) (st : ProgressState) (epoch : ℕ) (node : InstructionNode)
    (state : NodeState) (sc dma : ℕ)
    → IsBalanced num_subchunks state dma
    → (0 < dma → IsBalanced num_subchunks (complete_dma st epoch node state sc).1 (dma - 1))
      × (0 < state.h2h_pending
          → IsBalanced num_subchunks (complete_h2h st epoch node state sc).1 dma)
unfolding complete_dma complete_h2h
complete-IsBalanced num_subchunks st epoch node state sc dma h =
    (λ k. (omega (arith, h, k), omega (arith, h)), λ k. (omega (arith, h, k), omega (arith, h)))

-- If the slices of a node are accounted for, in that those begun are done, with the H2H engine or in
-- an event ring and none is past the last, they still are after a submission, after the completion of
-- a copy, where one is in an event ring, and after that of a host task, where one is pending.
pub try_submit_node_complete :
    (env : Environment) (st : ProgressState) (node : InstructionNode) (state : NodeState)
    (sc dma : ℕ)
    → IsBalanced env.num_subchunks state dma
    → let r = try_submit_node env st node state in
      IsBalanced env.num_subchunks r.2 (dma_after r.0 dma)
      × (0 < dma
          → IsBalanced env.num_subchunks (complete_dma st env.epoch node state sc).1 (dma - 1))
      × (0 < state.h2h_pending
          → IsBalanced env.num_subchunks (complete_h2h st env.epoch node state sc).1 dma)
try_submit_node_complete env st node state sc dma h =
    let (copied, reduced) =
      complete-IsBalanced env.num_subchunks st env.epoch node state sc dma h in
    (try_submit_node-IsBalanced env st node state dma h, copied, reduced)

-- The nodes of a graph, each with its number of slices in an event ring.
abbrev pub AllBalanced : ℕ → List (NodeState × ℕ) → Type 0
AllBalanced num_subchunks = All (λ s. IsBalanced num_subchunks s.0 s.1)

abbrev pub states_of : List (NodeState × ℕ) → List NodeState
states_of [] = []
states_of ((state, dma) ∷ states) = state ∷ states_of states

nodes_complete-quiet :
    (num_subchunks : ℕ) (states : List (NodeState × ℕ))
    → AllBalanced num_subchunks states
    → nodes_complete num_subchunks (states_of states) ≡ true
    → All (λ s. (s.1 ≡ 0) × (s.0.h2h_pending ≡ 0) × (s.0.next_subchunk ≡ num_subchunks)) states
unfolding nodes_complete
nodes_complete-quiet num_subchunks [] h e = tt
nodes_complete-quiet num_subchunks ((state, dma) ∷ states) h e =
    elim (Bool-cases (ltb state.completed_subchunks num_subchunks)) [
      | inl t ↦ absurd (ground (arith, t, e))
      | inr t ↦
          let done = ltb→le _ _ t in
          (
            (omega (arith, h.0, done), omega (arith, h.0, done), omega (arith, h.0, done)),
            nodes_complete-quiet num_subchunks states h.1 (ground (arith, t, e)),
          )
    ]

-- If the slices of every node are accounted for, then when the executor takes the graph for
-- complete every slice of every node has run and nothing is in flight: no copy in an event ring
-- and no task with the H2H engine.
pub terminals_complete-quiet :
    (st : ProgressState) (epoch num_subchunks : ℕ) (states : List (NodeState × ℕ))
    (terminal_outputs : List ProgressKey)
    → AllBalanced num_subchunks states
    → terminals_complete st epoch num_subchunks (states_of states) terminal_outputs ≡ true
    → All (λ s. (s.1 ≡ 0) × (s.0.h2h_pending ≡ 0) × (s.0.next_subchunk ≡ num_subchunks)) states
unfolding terminals_complete
terminals_complete-quiet st epoch num_subchunks states terminal_outputs h e =
    nodes_complete-quiet num_subchunks states h (ground (arith, e))
