-- ===== src/Pccl/Compiler/Trace/Ranks.antt =====
-- What the compiler on each rank starts from, and that all ranks agree (ir/compiler.cpp).
use hy_link.Pccl.Compiler.Trace.Writes.{IsGuarded, Distinct, assign_all-Facts}
use mathlib.Core.Path.{fun_ext}
use hy_link.Prelude.{
  ℕ, ◌+◌, ◌≤◌, ◌<◌, zero, suc, ◌≡◌, refl, sym, ap, ◌∙◌, Bool, true, false, ◌||◌, none, some, List,
  inl, inr, arith, if◌then◌else◌, Bool-cases, All, subst, ◌==◌,
}
use hy_link.Prelude.Int.{ℤ, pos}
use hy_link.Pccl.Ir.{ProgressKey, IrProgram, key_eq, DeviceBufferKind}
use hy_link.Pccl.Ir.Keys.{base_of, key_eq_iff}
use hy_link.Pccl.Compiler.{KeyMap, assign, emplace, device_key, final_produced, staged_on}
use hy_link.Pccl.Compiler.Trace.{
  CompileState, Access, max_input_chunk_count, enter_chunks, enter_ranks, initial_latest,
  compile_trace,
}
use hy_link.Pccl.Compiler.Trace.Versions.{KeepsBase, version_in}

-- The input chunks `c`, `c + 1`, ... of a rank, as a test.
in_chunks : ℤ → ℕ → ℕ → ProgressKey → Bool
unfolding device_key
in_chunks owner c zero key = false
in_chunks owner c (suc n) key =
    key_eq (device_key DeviceBufferKind.input owner (pos c) 0) key || in_chunks owner (suc c) n key

chunks_of : IrProgram → ℕ → ℕ
chunks_of program r =
    max_input_chunk_count (pos r) program.input_chunk_count program.all_instructions

in_ranks : IrProgram → ℕ → ℕ → ProgressKey → Bool
in_ranks program r zero key = false
in_ranks program r (suc n) key =
    in_chunks (pos r) 0 (chunks_of program r) key || in_ranks program (suc r) n key

-- The map that holds version 0 of the keys of a test, under themselves.
abbrev HoldsInputs : KeyMap ProgressKey → (ProgressKey → Bool) → Type 0
HoldsInputs m dom =
    (key : ProgressKey)
    → (m key ≡ (if dom key then some key else none)) × (dom key ≡ true → base_of key ≡ key)

module _ (m : KeyMap ProgressKey) (dom : ProgressKey → Bool) (h : HoldsInputs m dom) where
  assign-HoldsInputs :
      (key : ProgressKey)
      → base_of key ≡ key
      → HoldsInputs (assign m key key) (λ k. key_eq key k || dom k)
  unfolding assign
  assign-HoldsInputs key b k = elim (Bool-cases (key_eq key k)) [
    | inl t ↦
        let e = (key_eq_iff key k).0 t in rw t (ap some e, λ _. subst (λ x. base_of x ≡ x) e b)
    | inr t ↦ rw t (h k)
  ]

  emplace-HoldsInputs :
      (key : ProgressKey)
      → base_of key ≡ key
      → HoldsInputs (emplace m key key) (λ k. key_eq key k || dom k)
  unfolding emplace base_of
  emplace-HoldsInputs key b = elim (Bool-cases (dom key)) [
    | inl t ↦
        let present : m key ≡ some key = (h key).0 ∙ rw t refl in
        λ k.
          let same = key_eq_iff key k in
          elim (Bool-cases (key_eq key k)) [
            | inl u ↦
                let e = same.0 u in
                rw (u, emplace, present)
                  ((subst (λ x. m x ≡ some x) e present), (λ _. subst (λ x. base_of x ≡ x) e b))
            | inr u ↦ rw (u, emplace, present) (h k)
          ]
    | inr t ↦
        let absent : m key ≡ none = (h key).0 ∙ rw t refl in
        let e : emplace m key key ≡ assign m key key = rw (emplace, absent) refl in
        λ k.
          subst
            (λ x.
              (x k ≡ (if key_eq key k || dom k then some k else none))
              × ((key_eq key k || dom k) ≡ true → base_of k ≡ k))
            (sym e) (assign-HoldsInputs key b k)
  ]

HoldsInputs-eq :
    (m : KeyMap ProgressKey) (dom other : ProgressKey → Bool)
    → ((key : ProgressKey) → dom key ≡ other key)
    → HoldsInputs m dom
    → HoldsInputs m other
HoldsInputs-eq m dom other e h key = rw (sym (e key)) (h key)

KeepsInputs : (KeyMap ProgressKey → ProgressKey → ProgressKey → KeyMap ProgressKey) → Type 0
KeepsInputs put =
    (m : KeyMap ProgressKey) (dom : ProgressKey → Bool)
    → HoldsInputs m dom
    → (key : ProgressKey) → base_of key ≡ key
    → HoldsInputs (put m key key) (λ k. key_eq key k || dom k)

enter_chunks-HoldsInputs :
    (put : KeyMap ProgressKey → ProgressKey → ProgressKey → KeyMap ProgressKey)
    → KeepsInputs put
    → (m : KeyMap ProgressKey) (dom : ProgressKey → Bool) (owner : ℤ) (c n : ℕ) → HoldsInputs m dom
    → HoldsInputs (enter_chunks put m owner c n) (λ k. in_chunks owner c n k || dom k)
unfolding enter_chunks in_chunks KeepsInputs device_key base_of
enter_chunks-HoldsInputs put keeps m dom owner c zero h = h
enter_chunks-HoldsInputs put keeps m dom owner c (suc n) h =
    let key = device_key DeviceBufferKind.input owner (pos c) 0 in
    HoldsInputs-eq _ _ _ (λ k. ground arith)
      (enter_chunks-HoldsInputs put keeps (put m key key) (λ k. key_eq key k || dom k) owner (suc c)
        n (keeps m dom h key refl))

enter_ranks-HoldsInputs :
    (program : IrProgram) (m : KeyMap ProgressKey) (dom : ProgressKey → Bool) (r n : ℕ)
    → HoldsInputs m dom
    → HoldsInputs (enter_ranks program m r n) (λ k. in_ranks program r n k || dom k)
unfolding enter_ranks in_ranks chunks_of KeepsInputs
enter_ranks-HoldsInputs program m dom r zero h = h
enter_ranks-HoldsInputs program m dom r (suc n) h =
    HoldsInputs-eq _ _ _ (λ k. ground arith)
      (enter_ranks-HoldsInputs program (enter_chunks emplace m (pos r) 0 (chunks_of program r))
        (λ k. in_chunks (pos r) 0 (chunks_of program r) k || dom k) (suc r) n
        (enter_chunks-HoldsInputs emplace emplace-HoldsInputs m dom (pos r) 0 (chunks_of program r)
          h))

in_ranks-member :
    (program : IrProgram) (r n rank : ℕ) (key : ProgressKey)
    → r ≤ rank
    → rank < r + n
    → in_chunks (pos rank) 0 (chunks_of program rank) key ≡ true
    → in_ranks program r n key ≡ true
unfolding in_ranks
in_ranks-member program r zero rank key h k e = absurd (omega arith)
in_ranks-member program r (suc n) rank key h k e = elim (Bool-cases (r == rank)) [
  | inl t ↦ let same : r ≡ rank = ground arith in rw (same, e) refl
  | inr t ↦
      rw (in_ranks-member program (suc r) n rank key (ground arith) (omega (arith, k)) e)
        (ground arith)
]

initial_latest-HoldsInputs :
    (program : IrProgram) (rank world_size : ℕ)
    → rank < world_size
    → HoldsInputs (initial_latest program rank world_size) (in_ranks program 0 world_size)
unfolding initial_latest chunks_of KeepsInputs
initial_latest-HoldsInputs program rank world_size h =
    HoldsInputs-eq _ _ _
      (λ k. ground (arith, in_ranks-member program 0 world_size rank k (omega arith) (omega arith)))
      (enter_ranks-HoldsInputs program _ _ 0 world_size (
        enter_chunks-HoldsInputs assign assign-HoldsInputs (λ k. none) (λ k. false) (pos rank) 0
          (chunks_of program rank) (λ k. (refl, λ e. ground (arith, e)))))

initial_latest-KeepsBase :
    (program : IrProgram) (rank world_size : ℕ)
    → rank < world_size
    → KeepsBase (initial_latest program rank world_size)
initial_latest-KeepsBase program rank world_size h b k e =
    let (held, based) = initial_latest-HoldsInputs program rank world_size h b in
    elim (Bool-cases (in_ranks program 0 world_size b)) [
      | inl t ↦ let same : some b ≡ some k = sym (held ∙ rw t refl) ∙ e in ground (arith, same)
      | inr t ↦ let no : none ≡ some k = sym (held ∙ rw t refl) ∙ e in absurd (ground (arith, no))
    ]

-- Ranks of the world whose calls are both in place or both not compile a program to the same accesses
-- and the same state, or both reject it: what one takes for a version or a reader id is what the
-- other takes for it.
pub compile_trace-rank :
    (stage_output : ℤ → ℤ → Bool) (in_place other_in_place : Bool) (program : IrProgram)
    (world_size rank other : ℕ)
    → rank < world_size
    → other < world_size
    → in_place ≡ other_in_place
    → compile_trace (staged_on in_place stage_output) program rank world_size
      ≡ compile_trace (staged_on other_in_place stage_output) program other world_size
unfolding compile_trace
compile_trace-rank stage_output in_place other_in_place program world_size rank other h k same =
    let e : initial_latest program rank world_size ≡ initial_latest program other world_size =
      fun_ext (λ key.
        (initial_latest-HoldsInputs program rank world_size h key).0
        ∙ sym (initial_latest-HoldsInputs program other world_size k key).0) in
    rw (e, same) refl

module _ (staged : ℤ → ℤ → Bool) (program : IrProgram) (rank world_size : ℕ)
    (accesses : List Access) (final : CompileState) (inside : rank < world_size)
    (compiled : compile_trace staged program rank world_size ≡ some (accesses, final)) where
  abbrev start : CompileState
  start = record {
    latest_by_base = initial_latest program rank world_size;
    reader_counts = λ k. none;
  }

  writes :
      All IsGuarded accesses
      × All (λ a. version_in start.latest_by_base a.output < a.output.version) accesses
      × Distinct accesses
  unfolding compile_trace
  writes =
      assign_all-Facts staged (final_produced staged (λ k. none) program.all_instructions)
        program.all_instructions start final accesses
        (initial_latest-KeepsBase program rank world_size inside) compiled

  -- When a rank of the world compiles a program, every write of it is the next version of its
  -- chunk, and what it waits for before it overwrites the chunk is exactly the version before.
  pub compile_trace-IsGuarded : All IsGuarded accesses
  compile_trace-IsGuarded = writes.0

  -- When a rank of the world compiles a program, no two of its instructions, on any ranks, write
  -- the same version of a chunk.
  pub compile_trace-Distinct : Distinct accesses
  compile_trace-Distinct = writes.2
