-- ===== src/Pccl/Loader/Parse.antt =====
-- pcie-ccl-cuda/src/ir/ir_loader.cpp: which documents are loaded.
use hy_link.Pccl.Loader.Words.{op_name, kind_name, parse_op_code-op_name, kind_read, kind_print}
use hy_link.Prelude.{
  ◌≡◌, ◌↔◌, ◌⊎◌, Option, none, some, List, [], ◌∷◌, arith, refl, subst, inl, inr, Bool-cases, All,
}
use hy_link.Prelude.Int.{ℤ, negsuc, int_eq, int_eq_iff}
use hy_link.Pccl.Loader.{
  Element, RankElement, Loaded, ok, failed, parse_op_code, parse_device_buffer_kind,
  int_attribute_or, RootElement, ◌>>=◌, parse_instruction_common, Tally, count_instruction,
  read_instructions, read_ranks, find_rank, parse_document,
}
use hy_link.Pccl.Ir.{OpCode, DeviceBufferKind}
use Prim.Native.String.{String}

-- A result without an error.
abbrev pub Succeeds : {A : Type 0} → Loaded A → Type 0
Succeeds (ok a) = Unit
Succeeds (failed e) = ⊥

-- The attribute of a buffer is left out or one of the words.
abbrev pub IsKind : Option String → Type 0
IsKind none = Unit
IsKind (some s) = (k : DeviceBufferKind) × (s ≡ kind_name k)

abbrev pub IsOp : Option String → Type 0
IsOp none = ⊥
IsOp (some s) = (op : OpCode) × (s ≡ op_name op)

-- The instruction has a code and names buffers.
abbrev pub IsReadable : Element → Type 0
IsReadable elem =
    IsOp (elem.attribute "op")
    × IsKind (elem.attribute "src_buf")
    × IsKind (elem.attribute "dst_buf")

-- One of the ranks has the id.
abbrev pub HasRank : List RankElement → ℤ → Type 0
HasRank [] rank = ⊥
HasRank (r ∷ ranks) rank = (int_attribute_or r.element "id" (negsuc 0) ≡ rank) ⊎ HasRank ranks rank

Succeeds-ok : {A : Type 0} (r : Loaded A) → Succeeds r → (a : A) × (r ≡ ok a)
Succeeds-ok (ok a) h = (a, refl)
Succeeds-ok (failed e) h = absurd h

ok-Succeeds : {A : Type 0} (r : Loaded A) (a : A) → r ≡ ok a → Succeeds r
ok-Succeeds (ok b) a h = tt
ok-Succeeds (failed e) a h = absurd (cc)

IsOp-Succeeds : (a : Option String) → Succeeds (parse_op_code a) ↔ IsOp a
IsOp-Succeeds none = (λ h. unfold parse_op_code in h, λ h. absurd h)
IsOp-Succeeds (some s) = (
  λ h.
      let (op, e) = Succeeds-ok (parse_op_code (some s)) h in
      (op, (parse_op_code-op_name s op).0 e),
  λ (op, e). ok-Succeeds (parse_op_code (some s)) op ((parse_op_code-op_name s op).1 e),
)

IsKind-Succeeds :
    (a : Option String) (d : DeviceBufferKind) → Succeeds (parse_device_buffer_kind a d) ↔ IsKind a
IsKind-Succeeds none d = (λ _. tt, λ _. unfold parse_device_buffer_kind in tt)
IsKind-Succeeds (some s) d = (
  λ h. let (k, e) = Succeeds-ok (parse_device_buffer_kind (some s) d) h in (k, kind_read s d k e),
  λ (k, e). ok-Succeeds (parse_device_buffer_kind (some s) d) k (kind_print s d k e),
)

-- A chain succeeds if its first part does and the rest does on the result of that.
bind_Succeeds :
    {A B : Type 0} (m : Loaded A) (f : A → Loaded B)
    → Succeeds (m >>= f)
    → (a : A) × (m ≡ ok a) × Succeeds (f a)
bind_Succeeds (ok a) f h = (a, refl, h)
bind_Succeeds (failed e) f h = absurd h

Succeeds-bind :
    {A B : Type 0} (m : Loaded A) (f : A → Loaded B)
    → Succeeds m
    → ((a : A) → Succeeds (f a))
    → Succeeds (m >>= f)
Succeeds-bind (ok a) f h k = k a
Succeeds-bind (failed e) f h k = absurd h

instruction_Succeeds :
    (elem : Element) (rank numa : ℤ)
    → Succeeds (parse_instruction_common elem rank numa) ↔ IsReadable elem
unfolding parse_instruction_common
instruction_Succeeds elem rank numa = (
  λ h.
      let (op, e, h1) = bind_Succeeds (parse_op_code (elem.attribute "op")) _ h in
      let (src, e1, h2) =
        bind_Succeeds (parse_device_buffer_kind (elem.attribute "src_buf") DeviceBufferKind.input) _
          h1 in
      let (dst, e2, h3) =
        bind_Succeeds (parse_device_buffer_kind (elem.attribute "dst_buf") DeviceBufferKind.output)
          _ h2 in
      (
        (IsOp-Succeeds (elem.attribute "op")).0 (ok-Succeeds _ op e),
        (IsKind-Succeeds (elem.attribute "src_buf") _).0 (ok-Succeeds _ src e1),
        (IsKind-Succeeds (elem.attribute "dst_buf") _).0 (ok-Succeeds _ dst e2),
      ),
  λ h. Succeeds-bind _ _ ((IsOp-Succeeds (elem.attribute "op")).1 h.0) λ op.
      Succeeds-bind _ _ ((IsKind-Succeeds (elem.attribute "src_buf") DeviceBufferKind.input).1 h.1)
        λ src.
          Succeeds-bind _ _
            ((IsKind-Succeeds (elem.attribute "dst_buf") DeviceBufferKind.output).1 h.2) λ dst. tt,
)

instructions_Succeeds :
    (elems : List Element) (rank numa : ℤ) (t : Tally)
    → Succeeds (read_instructions elems rank numa t) ↔ All IsReadable elems
unfolding read_instructions
instructions_Succeeds [] rank numa t = (λ _. tt, λ _. tt)
instructions_Succeeds (elem ∷ elems) rank numa t = (
  λ h.
      let (inst, e, rest) = bind_Succeeds (parse_instruction_common elem rank numa) _ h in
      (
        (instruction_Succeeds elem rank numa).0 (ok-Succeeds _ inst e),
        (instructions_Succeeds elems rank numa (count_instruction t inst)).0 rest,
      ),
  λ h.
      Succeeds-bind _ _ ((instruction_Succeeds elem rank numa).1 h.0)
        λ inst. (instructions_Succeeds elems rank numa (count_instruction t inst)).1 h.1,
)

ranks_Succeed :
    (ranks : List RankElement) (numa_of : ℤ → ℤ) (t : Tally)
    → Succeeds (read_ranks ranks numa_of t) ↔ All (λ r. All IsReadable r.instruction_elements) ranks
unfolding read_ranks
ranks_Succeed [] numa_of t = (λ _. tt, λ _. tt)
ranks_Succeed (r ∷ ranks) numa_of t =
    let id : ℤ = int_attribute_or r.element "id" (negsuc 0) in
    (
      λ h.
          let (u, e, rest) =
            bind_Succeeds (read_instructions r.instruction_elements id (numa_of id) t) _ h in
          (
            (instructions_Succeeds r.instruction_elements id (numa_of id) t).0 (ok-Succeeds _ u e),
            (ranks_Succeed ranks numa_of u).0 rest,
          ),
      λ h.
          Succeeds-bind _ _ ((instructions_Succeeds r.instruction_elements id (numa_of id) t).1 h.0)
            λ u. (ranks_Succeed ranks numa_of u).1 h.1,
    )

find_Succeeds :
    (ranks : List RankElement) (rank : ℤ) → Succeeds (find_rank ranks rank) ↔ HasRank ranks rank
unfolding find_rank
find_Succeeds [] rank = (λ h. absurd h, λ h. absurd h)
find_Succeeds (r ∷ ranks) rank =
    let id : ℤ = int_attribute_or r.element "id" (negsuc 0) in
    elim (Bool-cases (int_eq id rank)) [
      | inl t ↦ rw t (λ _. inl ((int_eq_iff id rank).0 t), λ _. tt)
      | inr t ↦ rw t (
        λ h. inr ((find_Succeeds ranks rank).0 h),
        λ h. elim h [
          | inl e ↦ absurd (ground (arith, int_eq_iff id rank))
          | inr there ↦ (find_Succeeds ranks rank).1 there
        ],
      )
    ]

-- What is found is one of the ranks, so what holds of all holds of it.
find_rank-All :
    (P : RankElement → Type 0) (ranks : List RankElement) (rank : ℤ) (r : RankElement)
    → find_rank ranks rank ≡ ok r
    → All P ranks
    → P r
unfolding find_rank
find_rank-All P [] rank r h all = absurd (cc)
find_rank-All P (s ∷ ranks) rank r h all =
    let id : ℤ = int_attribute_or s.element "id" (negsuc 0) in
    elim (Bool-cases (int_eq id rank)) [
      | inl t ↦ let e : s ≡ r = ground arith in subst P e all.0
      | inr t ↦
          let e : find_rank ranks rank ≡ ok r = ground arith in find_rank-All P ranks rank r e all.1
    ]

-- A document with a root is loaded for a rank exactly if some <rank> has its id and every instruction
-- of every rank has a known code and, where it names buffers, known buffers.
pub parse_document-Succeeds :
    (root : RootElement) (rank : ℤ) (numa_of : ℤ → ℤ)
    → Succeeds (parse_document (some root) rank numa_of) ↔ (
        HasRank root.rank_elements rank
        × All (λ r. All IsReadable r.instruction_elements) root.rank_elements)
unfolding parse_document
parse_document-Succeeds root rank numa_of =
    let ranks = root.rank_elements in
    (
      λ h.
          let (r, found, h1) = bind_Succeeds (find_rank ranks rank) _ h in
          let (own, read, h2) =
            bind_Succeeds (read_instructions r.instruction_elements rank (numa_of rank) _) _ h1 in
          let (all, rest, h3) = bind_Succeeds (read_ranks ranks numa_of _) _ h2 in
          (
            (find_Succeeds ranks rank).0 (ok-Succeeds _ r found),
            (ranks_Succeed ranks numa_of _).0 (ok-Succeeds _ all rest),
          ),
      λ h.
          let (r, found) = Succeeds-ok (find_rank ranks rank) ((find_Succeeds ranks rank).1 h.0) in
          let readable =
            find_rank-All (λ s. All IsReadable s.instruction_elements) ranks rank r found h.1 in
          rw found (
            Succeeds-bind _ _
              ((instructions_Succeeds r.instruction_elements rank (numa_of rank) _).1 readable)
              λ own. Succeeds-bind _ _ ((ranks_Succeed ranks numa_of _).1 h.1) λ all. tt),
    )
