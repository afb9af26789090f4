-- ===== src/Pccl/Compiler/Trace/Writes.antt =====
-- The writes of a whole program: their guards, and that no version is written twice (ir/compiler.cpp).
use hy_link.Prelude.{
  ◌<◌, suc, ◌≡◌, ◌≢◌, refl, sym, ap, ◌∙◌, Bool, some, List, [], ◌∷◌, ◌⊎◌, inl, inr, arith,
  Option-cases, Bool-cases, All, subst, All-map,
}
use hy_link.Prelude.Int.{ℤ}
use hy_link.Pccl.Ir.{ProgressKey, Instruction, key_eq}
use hy_link.Pccl.Ir.Keys.{base_of, key_eq_iff}
use hy_link.Pccl.Compiler.{KeyMap, produced_base}
use hy_link.Pccl.Compiler.Trace.{CompileState, Access, access_for, assign_all}
use hy_link.Pccl.Compiler.Trace.Versions.{
  version_in, KeepsBase, IsStep, access_for-IsStep, version_in-base,
}

-- No two writes are of the same version of the same chunk.
abbrev pub Distinct : List Access → Type 0
Distinct [] = Unit
Distinct (a ∷ others) = All (λ b. b.output ≢ a.output) others × Distinct others

-- The overwrite guard of a write: the version of the same chunk just before it.
abbrev pub IsGuarded : Access → Type 0
IsGuarded a =
    (base_of a.old_output ≡ base_of a.output) × (a.output.version ≡ suc a.old_output.version)

module _ (staged : ℤ → ℤ → Bool) (finals : KeyMap ProgressKey) where
  -- A run of the loop on one more instruction.
  abbrev IsCons :
      Instruction → List Instruction → CompileState → List Access → CompileState → Type 0
  IsCons inst rest st accesses final =
      (base : ProgressKey) × (a : Access) × (next : CompileState) × (others : List Access)
      × (access_for staged finals inst base st ≡ some (a, next))
      × (assign_all staged finals rest next ≡ some (others, final))
      × (accesses ≡ a ∷ others)

  pub assign_all-cases :
      (inst : Instruction) (rest : List Instruction) (st final : CompileState)
      (accesses : List Access)
      → assign_all staged finals (inst ∷ rest) st ≡ some (accesses, final)
      → (assign_all staged finals rest st ≡ some (accesses, final))
        ⊎ IsCons inst rest st accesses final
  unfolding assign_all
  assign_all-cases inst rest st final accesses e = elim (Option-cases (produced_base staged inst)) [
    | inl d ↦ inl (ground (arith, d, e))
    | inr (base, d) ↦ elim (Option-cases (access_for staged finals inst base st)) [
      | inl c ↦ absurd (ground (arith, c, d, e))
      | inr ((a, next), c) ↦ elim (Option-cases (assign_all staged finals rest next)) [
        | inl b ↦ absurd (ground (arith, b, c, d, e))
        | inr ((others, last), b) ↦
            inr (base, a, next, others, c, ground (arith, b, c, d, e), ground (arith, b, c, d, e))
      ]
    ]
  ]

  -- Every write is the next version of its chunk.
  abbrev pub Later : CompileState → Access → Type 0
  Later st a = version_in st.latest_by_base a.output < a.output.version

  abbrev Facts : CompileState → List Access → Type 0
  Facts st accesses = All IsGuarded accesses × All (Later st) accesses × Distinct accesses

  -- A write after another one is later than the state before both, and of another version.
  Later-step :
      (st next : CompileState) (a b : Access)
      → IsStep st.latest_by_base a next.latest_by_base
      → Later next b
      → Later st b × (b.output ≢ a.output)
  Later-step st next a b step h =
      let now = step.3 b.output in
      let same_key = key_eq_iff (base_of a.output) (base_of b.output) in
      elim (Bool-cases (key_eq (base_of a.output) (base_of b.output))) [
        | inl t ↦
            let v = version_in-base st.latest_by_base a.output b.output (same_key.0 t) in
            let at : version_in next.latest_by_base b.output ≡ a.output.version = now ∙ rw t refl in
            (
              omega (arith, at, h, v, step.0),
              λ e.
                  let w : b.output.version ≡ a.output.version = ap (λ k. k.version) e in
                  omega (arith, at, h, w),
            )
        | inr t ↦
            let at : version_in next.latest_by_base b.output
                ≡ version_in st.latest_by_base b.output =
              now ∙ rw t refl in
            (omega (arith, at, h), λ e. absurd (ground (arith, same_key.1 (ap base_of (sym e)), t)))
      ]

  pub assign_all-Facts :
      (prog : List Instruction) (st final : CompileState) (accesses : List Access)
      → KeepsBase st.latest_by_base
      → assign_all staged finals prog st ≡ some (accesses, final)
      → Facts st accesses
  unfolding assign_all
  assign_all-Facts [] st final accesses h e =
      let nil : accesses ≡ [] = ground (arith, e) in
      subst (λ x. All IsGuarded x × All (Later st) x × Distinct x) (sym nil) (tt, tt, tt)
  assign_all-Facts (inst ∷ rest) st final accesses h e =
      elim (assign_all-cases inst rest st final accesses e) [
        | inl d ↦ assign_all-Facts rest st final accesses h d
        | inr (base, a, next, others, now, later, eq) ↦
            let step = access_for-IsStep staged finals inst base st next a h now in
            let ih = assign_all-Facts rest next final others step.4 later in
            subst (λ x. All IsGuarded x × All (Later st) x × Distinct x) (sym eq)
              (
                ((step.1, step.0 ∙ ap suc (sym step.2)), ih.0),
                (
                  omega (arith, step.0),
                  All-map (λ b l. (Later-step st next a b step l).0) others ih.1,
                ),
                (All-map (λ b l. (Later-step st next a b step l).1) others ih.1, ih.2),
              )
      ]
