-- ===== src/Pccl/Compiler/Trace/Versions.antt =====
-- The versions that pass 1 of the compiler gives to the writes of a program (ir/compiler.cpp).
use hy_link.Prelude.{
  ℕ, suc, ◌≡◌, refl, sym, ap, ◌∙◌, Bool, none, some, List, [], ◌∷◌, ◌⊎◌, inl, inr, arith,
  if◌then◌else◌, Option-cases, Bool-cases, subst,
}
use hy_link.Prelude.Int.{ℤ}
use hy_link.Pccl.Ir.{ProgressKey, Instruction, key_eq}
use hy_link.Pccl.Ir.Keys.{base_of, key_eq_iff}
use hy_link.Pccl.Compiler.{
  KeyMap, assign, emplace, latest, latest_existing, produce, with_version, read_bases,
}
use hy_link.Pccl.Compiler.Trace.{CompileState, Access, read_all, access_for, assign_readers}

-- The latest version of a chunk; 0 before its first write.
pub version_in : KeyMap ProgressKey → ProgressKey → ℕ
version_in m key = elim (m (base_of key)) [ none ↦ 0 | some k ↦ k.version ]

-- The entry of a chunk is a version of that chunk.
abbrev pub KeepsBase : KeyMap ProgressKey → Type 0
KeepsBase m = (b k : ProgressKey) → m b ≡ some k → base_of k ≡ base_of b

some-injective : {A : Type 0} {a b : A} → some a ≡ some b → a ≡ b
some-injective p = ground (arith, p)

version_in-assign :
    (m : KeyMap ProgressKey) (b v key : ProgressKey)
    → version_in (assign m b v) key
      ≡ (if key_eq b (base_of key) then v.version else version_in m key)
unfolding version_in assign
version_in-assign m b v key = elim (Bool-cases (key_eq b (base_of key))) [
  | inl t ↦ ground arith
  | inr t ↦ ground arith
]

assign-KeepsBase :
    (m : KeyMap ProgressKey) (b v : ProgressKey)
    → KeepsBase m
    → base_of v ≡ base_of b
    → KeepsBase (assign m b v)
unfolding assign
assign-KeepsBase m b v h e c k = elim (Bool-cases (key_eq b c)) [
  | inl t ↦ rw t (λ p. ap base_of (sym (some-injective p)) ∙ e ∙ ap base_of ((key_eq_iff b c).0 t))
  | inr t ↦ rw t (λ p. h c k p)
]

-- A read leaves the map, or enters version 0 of an unknown chunk.
latest-cases :
    (finals m : KeyMap ProgressKey) (b : ProgressKey)
    → ((latest finals m b).1 ≡ m)
      ⊎ (m (base_of b) ≡ none) × ((latest finals m b).1 ≡ assign m (base_of b) (base_of b))
unfolding latest emplace
latest-cases finals m b = elim (Option-cases (m (base_of b))) [
  | inl e ↦ elim (Option-cases (finals (base_of b))) [
    | inl d ↦ inr (e, rw (latest, e, d) (rw (emplace, e) refl))
    | inr d ↦ inl (ground arith)
  ]
  | inr e ↦ inl (ground arith)
]

latest-version :
    (finals m : KeyMap ProgressKey) (b key : ProgressKey)
    → version_in (latest finals m b).1 key ≡ version_in m key
unfolding version_in base_of
latest-version finals m b key = elim (latest-cases finals m b) [
  | inl e ↦ ap (λ x. version_in x key) e
  | inr (absent, e) ↦
      ap (λ x. version_in x key) e
      ∙ version_in-assign m (base_of b) (base_of b) key
      ∙ ground (arith, key_eq_iff (base_of b) (base_of key))
]

latest-KeepsBase :
    (finals m : KeyMap ProgressKey) (b : ProgressKey)
    → KeepsBase m
    → KeepsBase (latest finals m b).1
latest-KeepsBase finals m b h = elim (latest-cases finals m b) [
  | inl e ↦ subst KeepsBase (sym e) h
  | inr (absent, e) ↦ subst KeepsBase (sym e) (assign-KeepsBase m (base_of b) (base_of b) h refl)
]

read_all-version :
    (finals m : KeyMap ProgressKey) (bases : List ProgressKey) (key : ProgressKey)
    → version_in (read_all finals m bases).1 key ≡ version_in m key
unfolding read_all
read_all-version finals m [] key = refl
read_all-version finals m (b ∷ bases) key =
    read_all-version finals (latest finals m b).1 bases key ∙ latest-version finals m b key

read_all-KeepsBase :
    (finals m : KeyMap ProgressKey) (bases : List ProgressKey)
    → KeepsBase m
    → KeepsBase (read_all finals m bases).1
unfolding read_all
read_all-KeepsBase finals m [] h = h
read_all-KeepsBase finals m (b ∷ bases) h =
    read_all-KeepsBase finals (latest finals m b).1 bases (latest-KeepsBase finals m b h)

produce-version :
    (m : KeyMap ProgressKey) (b : ProgressKey)
    → ((produce m b).0.version ≡ suc (version_in m b)) × (base_of (produce m b).0 ≡ base_of b)
unfolding produce version_in with_version base_of
produce-version m b = elim (Option-cases (m (base_of b))) [
  | inl e ↦ ground arith
  | inr e ↦ ground arith
]

produce-next :
    (m : KeyMap ProgressKey) (b key : ProgressKey)
    → version_in (produce m b).1 key
      ≡ (if key_eq (base_of b) (base_of key) then suc (version_in m b) else version_in m key)
unfolding produce
produce-next m b key =
    version_in-assign m (base_of b) (produce m b).0 key ∙ rw ((produce-version m b).0) refl

latest_existing-version :
    (m : KeyMap ProgressKey) (b : ProgressKey)
    → KeepsBase m
    → ((latest_existing m b).version ≡ version_in m b) × (base_of (latest_existing m b) ≡ base_of b)
unfolding latest_existing version_in base_of
latest_existing-version m b h = elim (Option-cases (m (base_of b))) [
  | inl e ↦ ground arith
  | inr e ↦ ground (arith, h (base_of b) e.0 e.1)
]

pub version_in-base :
    (m : KeyMap ProgressKey) (a b : ProgressKey)
    → base_of a ≡ base_of b
    → version_in m a ≡ version_in m b
unfolding version_in
version_in-base m a b e = rw (version_in, e) refl

-- What an access has to do with the map before and after it.
abbrev pub IsStep : KeyMap ProgressKey → Access → KeyMap ProgressKey → Type 0
IsStep m a next =
    (a.output.version ≡ suc (version_in m a.output))
    × (base_of a.old_output ≡ base_of a.output)
    × (a.old_output.version ≡ version_in m a.output)
    × ((key : ProgressKey)
        → version_in next key ≡ (
            if key_eq (base_of a.output) (base_of key) then a.output.version else version_in m key))
    × KeepsBase next

access_for-fields :
    (staged : ℤ → ℤ → Bool) (finals : KeyMap ProgressKey) (inst : Instruction) (base : ProgressKey)
    (st next : CompileState) (a : Access)
    → access_for staged finals inst base st ≡ some (a, next)
    → let m = (read_all finals st.latest_by_base (read_bases staged inst)).1 in
      (a.output ≡ (produce m base).0)
      × (a.old_output ≡ latest_existing m base)
      × (next.latest_by_base ≡ (produce m base).1)
unfolding access_for
access_for-fields staged finals inst base st next a e =
    let reads = read_all finals st.latest_by_base (read_bases staged inst) in
    elim (Option-cases
      (assign_readers inst.op (produce reads.1 base).0 0 reads.0 st.reader_counts)) [
        | inl d ↦ absurd (ground (arith, d, e))
        | inr d ↦ ground (arith, d.1, e)
      ]

pub access_for-IsStep :
    (staged : ℤ → ℤ → Bool) (finals : KeyMap ProgressKey) (inst : Instruction) (base : ProgressKey)
    (st next : CompileState) (a : Access)
    → KeepsBase st.latest_by_base
    → access_for staged finals inst base st ≡ some (a, next)
    → IsStep st.latest_by_base a next.latest_by_base
unfolding base_of produce assign
access_for-IsStep staged finals inst base st next a h e =
    let m = (read_all finals st.latest_by_base (read_bases staged inst)).1 in
    let same = read_all-version finals st.latest_by_base (read_bases staged inst) in
    let keeps = read_all-KeepsBase finals st.latest_by_base (read_bases staged inst) h in
    let (out, old, after) = access_for-fields staged finals inst base st next a e in
    let written = produce-version m base in
    let guard = latest_existing-version m base keeps in
    let based : base_of a.output ≡ base_of base = ap base_of out ∙ written.1 in
    let version : version_in st.latest_by_base a.output ≡ version_in m base =
      sym (same a.output) ∙ version_in-base m a.output base based in
    let is_next : a.output.version ≡ suc (version_in m base) =
      ap (λ k. k.version) out ∙ written.0 in
    (
      is_next ∙ ap suc (sym version),
      ap base_of old ∙ guard.1 ∙ sym based,
      ap (λ k. k.version) old ∙ guard.0 ∙ sym version,
      λ key.
          ap (λ x. version_in x key) after
          ∙ produce-next m base key
          ∙ rw (sym based, sym is_next, same key) refl,
      subst KeepsBase (sym after)
          (assign-KeepsBase m (base_of base) (produce m base).0 keeps (written.1 ∙ refl)),
    )
