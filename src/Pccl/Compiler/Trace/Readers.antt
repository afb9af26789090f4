-- ===== src/Pccl/Compiler/Trace/Readers.antt =====
-- The reader ids of each chunk version (ir/compiler.cpp): what the shared progress state takes the
-- minimum over.
use mathlib.Core.List.{append-nil, append_assoc}
use hy_link.Prelude.{
  ℕ, ◌≤◌, ◌<◌, zero, suc, ◌≡◌, refl, sym, ap, ◌∙◌, Bool, none, some, List, [], ◌∷◌, ◌++◌, inl, inr,
  arith, if◌then◌else◌, Bool-cases, Option-cases, leb, subst,
}
use hy_link.Prelude.Int.{ℤ, pos, negsuc}
use hy_link.Pccl.Ir.{OpCode, ProgressKey, Instruction, IrProgram, key_eq, max_progress_readers}
use hy_link.Pccl.Ir.Keys.{key_eq_iff}
use hy_link.Pccl.Compiler.{KeyMap, assign, read_bases, produce, final_produced}
use hy_link.Pccl.Compiler.Trace.{
  CompileState, Access, self_rmw_input, count_of, assign_readers, access_for, assign_all,
  compile_trace, read_all, initial_latest,
}
use hy_link.Pccl.Compiler.Trace.Writes.{assign_all-cases}

-- 0, 1, ..., n - 1
abbrev pub upto : ℕ → List ℕ
upto zero = []
upto (suc n) = upto n ++ (n ∷ [])

-- The reader ids given for one key, in order; the accumulator of a reduction has none.
abbrev pub ids_in : ProgressKey → List ProgressKey → List ℤ → List ℕ
ids_in key [] ids = []
ids_in key (input ∷ inputs) [] = []
ids_in key (input ∷ inputs) (pos id ∷ ids) =
    if key_eq input key then id ∷ ids_in key inputs ids else ids_in key inputs ids
ids_in key (input ∷ inputs) (negsuc id ∷ ids) = ids_in key inputs ids

abbrev pub ids_of : ProgressKey → List Access → List ℕ
ids_of key [] = []
ids_of key (a ∷ others) = ids_in key a.inputs a.input_reader_ids ++ ids_of key others

count_of-assign :
    (counts : KeyMap ℕ) (input key : ProgressKey) (n : ℕ)
    → count_of (assign counts input n) key ≡ (if key_eq input key then n else count_of counts key)
unfolding count_of assign
count_of-assign counts input key n = elim (Bool-cases (key_eq input key)) [
  | inl t ↦ rw (count_of, t) refl
  | inr t ↦ rw (count_of, t) refl
]

-- The ids of one instruction continue the count of their key, and stay below the limit.
IsCounted : KeyMap ℕ → List ℕ → KeyMap ℕ → ProgressKey → Type 0
IsCounted counts ids after key =
    (upto (count_of counts key) ++ ids ≡ upto (count_of after key))
    × (count_of counts key ≤ max_progress_readers → count_of after key ≤ max_progress_readers)

read-IsCounted :
    (counts : KeyMap ℕ) (input key : ProgressKey) (rest : List ℕ) (last : KeyMap ℕ)
    → count_of counts input < max_progress_readers
    → IsCounted (assign counts input (suc (count_of counts input))) rest last key
    → IsCounted counts (if key_eq input key then count_of counts input ∷ rest else rest) last key
unfolding IsCounted
read-IsCounted counts input key rest last below ih =
    let at = count_of-assign counts input key (suc (count_of counts input)) in
    elim (Bool-cases (key_eq input key)) [
      | inl t ↦
          let now : count_of (assign counts input (suc (count_of counts input))) key
              ≡ suc (count_of counts input) =
            at ∙ rw t refl in
          let same : count_of counts input ≡ count_of counts key =
            ap (count_of counts) ((key_eq_iff input key).0 t) in
          rw (t, sym same)
            (
              sym (append_assoc (upto (count_of counts input)) (count_of counts input ∷ []) rest)
                  ∙ ap (λ n. upto n ++ rest) (sym now)
                  ∙ ih.0,
              λ h. ih.1 (omega (arith, now, below)),
            )
      | inr t ↦
          let now : count_of (assign counts input (suc (count_of counts input))) key
              ≡ count_of counts key =
            at ∙ rw t refl in
          rw t (ap (λ n. upto n ++ rest) (sym now) ∙ ih.0, λ h. ih.1 (omega (arith, now, h)))
    ]

assign_readers-IsCounted :
    (op : OpCode) (output : ProgressKey) (idx : ℕ) (inputs : List ProgressKey)
    (counts after : KeyMap ℕ) (ids : List ℤ) (key : ProgressKey)
    → assign_readers op output idx inputs counts ≡ some (ids, after)
    → IsCounted counts (ids_in key inputs ids) after key
unfolding assign_readers IsCounted
assign_readers-IsCounted op output idx [] counts after ids key e =
    let same : counts ≡ after = ground (arith, e) in
    (
      append-nil (upto (count_of counts key)) ∙ ap (λ m. upto (count_of m key)) same,
      subst
          (λ m. count_of counts key ≤ max_progress_readers → count_of m key ≤ max_progress_readers)
          same (λ h. h),
    )
assign_readers-IsCounted op output idx (input ∷ inputs) counts after ids key e =
    elim (Bool-cases (self_rmw_input op idx input output)) [
      | inl t ↦ elim (Option-cases (assign_readers op output (suc idx) inputs counts)) [
        | inl d ↦ absurd (ground (arith, t, d, e))
        | inr ((others, last), d) ↦
            let eqs : (ids ≡ negsuc 0 ∷ others) × (after ≡ last) = ground (arith, t, d, e) in
            rw eqs.0 (
              rw eqs.1
                (assign_readers-IsCounted op output (suc idx) inputs counts last others key d))
      ]
      | inr t ↦ elim (Bool-cases (leb max_progress_readers (count_of counts input))) [
        | inl u ↦ absurd (ground (arith, t, u, e))
        | inr u ↦
            let next = assign counts input (suc (count_of counts input)) in
            elim (Option-cases (assign_readers op output (suc idx) inputs next)) [
              | inl d ↦ absurd (ground (arith, t, u, d, e))
              | inr ((others, last), d) ↦
                  let eqs : (ids ≡ pos (count_of counts input) ∷ others) × (after ≡ last) =
                    ground (arith, t, u, d, e) in
                  let ih =
                    assign_readers-IsCounted op output (suc idx) inputs next last others key d in
                  rw eqs.0 (
                    rw eqs.1 (
                      read-IsCounted counts input key (ids_in key inputs others) last
                        (ground (arith, u)) ih))
            ]
      ]
    ]

access_for-readers :
    (staged : ℤ → ℤ → Bool) (finals : KeyMap ProgressKey) (inst : Instruction) (base : ProgressKey)
    (st next : CompileState) (a : Access)
    → access_for staged finals inst base st ≡ some (a, next)
    → assign_readers inst.op a.output 0 a.inputs st.reader_counts
      ≡ some (a.input_reader_ids, next.reader_counts)
unfolding access_for
access_for-readers staged finals inst base st next a e =
    let reads = read_all finals st.latest_by_base (read_bases staged inst) in
    elim (Option-cases
      (assign_readers inst.op (produce reads.1 base).0 0 reads.0 st.reader_counts)) [
        | inl d ↦ absurd (ground (arith, d, e))
        | inr d ↦ ground (arith, d.1, e)
      ]

module _ (staged : ℤ → ℤ → Bool) (finals : KeyMap ProgressKey) (key : ProgressKey) where
  assign_all-IsCounted :
      (prog : List Instruction) (st final : CompileState) (accesses : List Access)
      → assign_all staged finals prog st ≡ some (accesses, final)
      → IsCounted st.reader_counts (ids_of key accesses) final.reader_counts key
  unfolding assign_all IsCounted
  assign_all-IsCounted [] st final accesses e =
      let nil : accesses ≡ [] = ground (arith, e) in
      let same : st.reader_counts ≡ final.reader_counts = ground (arith, e) in
      rw nil (
        append-nil (upto (count_of st.reader_counts key)) ∙ ap (λ m. upto (count_of m key)) same,
        subst
            (λ m.
              count_of st.reader_counts key ≤ max_progress_readers
              → count_of m key ≤ max_progress_readers)
            same (λ h. h),
      )
  assign_all-IsCounted (inst ∷ rest) st final accesses e =
      elim (assign_all-cases staged finals inst rest st final accesses e) [
        | inl d ↦ assign_all-IsCounted rest st final accesses d
        | inr (base, a, next, others, now, later, eq) ↦
            let first =
              assign_readers-IsCounted inst.op a.output 0 a.inputs st.reader_counts
                next.reader_counts a.input_reader_ids key
                (access_for-readers staged finals inst base st next a now) in
            let ih = assign_all-IsCounted rest next final others later in
            rw eq (
              sym (
                    append_assoc (upto (count_of st.reader_counts key))
                      (ids_in key a.inputs a.input_reader_ids) (ids_of key others))
                  ∙ ap (λ l. l ++ ids_of key others) first.0
                  ∙ ih.0,
              λ h. ih.1 (first.1 h),
            )
      ]

-- When a program compiles, the readers of a chunk version, over all ranks, have the ids 0, 1, ...
-- in the order of the program, each once; their number is the count that the shared state is told,
-- and at most 32.
pub compile_trace-readers :
    (staged : ℤ → ℤ → Bool) (program : IrProgram) (rank world_size : ℕ) (accesses : List Access)
    (final : CompileState) (key : ProgressKey)
    → compile_trace staged program rank world_size ≡ some (accesses, final)
    → (ids_of key accesses ≡ upto (count_of final.reader_counts key))
      × (count_of final.reader_counts key ≤ max_progress_readers)
unfolding compile_trace IsCounted count_of
compile_trace-readers staged program rank world_size accesses final key e =
    let start : CompileState = record {
      latest_by_base = initial_latest program rank world_size;
      reader_counts = λ k. none;
    } in
    let counted =
      assign_all-IsCounted staged (final_produced staged (λ k. none) program.all_instructions) key
        program.all_instructions start final accesses e in
    (counted.0, counted.1 (omega arith))
