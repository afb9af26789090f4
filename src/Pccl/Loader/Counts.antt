-- ===== src/Pccl/Loader/Counts.antt =====
-- pcie-ccl-cuda/src/ir/ir_loader.cpp: the chunk counts of a loaded program.
use hy_link.Pccl.Loader.Small.{
  >>=-loads, IsSmall, SmallTally, read_instructions-StaysSmall, read_ranks-StaysSmall,
}
use hy_link.Prelude.Int.{ℤ, pos, negsuc, int_lt}
use hy_link.Pccl.Loader.{
  Element, RankElement, RootElement, ok, parse_instruction_common, reads_input, writes_output,
  int_max, Tally, count_instruction, read_instructions, read_ranks, find_rank, LoadedProgram,
  parse_document, int_attribute_or, chunk_count,
}
use hy_link.Pccl.Ir.{Instruction, IrProgram}
use hy_link.Prelude.{
  List, ◌≡◌, refl, true, false, some, [], ◌∷◌, arith, if-intro, All, All-append, All-map, subst,
  none, ◌-◌, ◌^◌,
}

-- `idx` is at most `m`.
abbrev IsBound : ℤ → ℤ → Type 0
IsBound m idx = int_lt m idx ≡ false

abbrev Covers : Tally → List Instruction → Type 0
Covers t = All (λ inst.
    (reads_input inst ≡ true → IsBound t.max_src_chunk inst.src.chunk_idx)
    × (writes_output inst ≡ true → IsBound t.max_dst_chunk inst.dst.chunk_idx))

abbrev Grows : Tally → Tally → Type 0
Grows t u =
    ((idx : ℤ) → IsBound t.max_src_chunk idx → IsBound u.max_src_chunk idx)
    × ((idx : ℤ) → IsBound t.max_dst_chunk idx → IsBound u.max_dst_chunk idx)

int_lt_irrefl : (a : ℤ) → int_lt a a ≡ false
int_lt_irrefl (pos a) = ground arith
int_lt_irrefl (negsuc a) = ground arith

int_lt_trans : (a b c : ℤ) → int_lt a b ≡ true → int_lt a c ≡ false → int_lt b c ≡ false
int_lt_trans (pos a) (pos b) (pos c) h k = ground arith
int_lt_trans (pos a) (pos b) (negsuc c) h k = refl
int_lt_trans (pos a) (negsuc b) c h k = cc
int_lt_trans (negsuc a) b (pos c) h k = cc
int_lt_trans (negsuc a) (pos b) (negsuc c) h k = refl
int_lt_trans (negsuc a) (negsuc b) (negsuc c) h k = ground arith

int_max-IsBound : (m x idx : ℤ) → IsBound m idx → IsBound (int_max m x) idx
int_max-IsBound m x idx h =
    if-intro (λ t. IsBound t idx) (int_lt m x) (λ t. int_lt_trans m x idx t h) (λ _. h)

int_max-IsBound_right : (m x : ℤ) → IsBound (int_max m x) x
int_max-IsBound_right m x = if-intro (λ t. IsBound t x) (int_lt m x) (λ _. int_lt_irrefl x) (λ t. t)

Covers-Grows :
    (t u : Tally) (insts : List Instruction) → Grows t u → Covers t insts → Covers u insts
Covers-Grows t u insts g h =
    All-map (λ inst c. (λ r. g.0 inst.src.chunk_idx (c.0 r), λ w. g.1 inst.dst.chunk_idx (c.1 w)))
      insts h

count_instruction-Grows : (t : Tally) (inst : Instruction) → Grows t (count_instruction t inst)
unfolding count_instruction
count_instruction-Grows t inst = (
  λ idx h.
      if-intro (λ m. IsBound m idx) (reads_input inst)
        (λ _. int_max-IsBound t.max_src_chunk inst.src.chunk_idx idx h) (λ _. h),
  λ idx h.
      if-intro (λ m. IsBound m idx) (writes_output inst)
        (λ _. int_max-IsBound t.max_dst_chunk inst.dst.chunk_idx idx h) (λ _. h),
)

count_instruction-Covers :
    (t : Tally) (inst : Instruction)
    → Covers t t.read
    → Covers (count_instruction t inst) (count_instruction t inst).read
unfolding count_instruction
count_instruction-Covers t inst h =
    All-append _ t.read (inst ∷ [])
      (Covers-Grows t (count_instruction t inst) t.read (count_instruction-Grows t inst) h)
      (
        (
          λ r. rw r (int_max-IsBound_right t.max_src_chunk inst.src.chunk_idx),
          λ w. rw w (int_max-IsBound_right t.max_dst_chunk inst.dst.chunk_idx),
        ),
        tt,
      )

read_instructions-Covers :
    (elems : List Element) (rank numa : ℤ) (t u : Tally)
    → read_instructions elems rank numa t ≡ ok u
    → Covers t t.read
    → Grows t u × Covers u u.read
unfolding read_instructions
read_instructions-Covers [] rank numa t u h c =
    let e : t ≡ u = cc in
    subst (λ (v : Tally). Grows t v × Covers v v.read) e ((λ idx b. b, λ idx b. b), c)
read_instructions-Covers (elem ∷ elems) rank numa t u h c =
    let (inst, rest, read) = >>=-loads (parse_instruction_common elem rank numa) h in
    let next = count_instruction t inst in
    let after =
      read_instructions-Covers elems rank numa (count_instruction t inst) u rest
        (count_instruction-Covers t inst c) in
    let first = count_instruction-Grows t inst in
    ((λ idx b. after.0.0 idx (first.0 idx b), λ idx b. after.0.1 idx (first.1 idx b)), after.1)

read_ranks-Covers :
    (ranks : List RankElement) (numa_of : ℤ → ℤ) (t u : Tally)
    → read_ranks ranks numa_of t ≡ ok u
    → Covers t t.read
    → Grows t u × Covers u u.read
unfolding read_ranks
read_ranks-Covers [] numa_of t u h c =
    let e : t ≡ u = cc in
    subst (λ (v : Tally). Grows t v × Covers v v.read) e ((λ idx b. b, λ idx b. b), c)
read_ranks-Covers (r ∷ ranks) numa_of t u h c =
    let (mid, rest, read) = >>=-loads (read_instructions r.instruction_elements _ _ t) h in
    let first = read_instructions-Covers r.instruction_elements _ _ t mid read c in
    let after = read_ranks-Covers ranks numa_of mid u rest first.1 in
    ((λ idx b. after.0.0 idx (first.0.0 idx b), λ idx b. after.0.1 idx (first.0.1 idx b)), after.1)

-- Within the counts of the program.
abbrev pub IsCounted : IrProgram → Instruction → Type 0
IsCounted p inst =
    (reads_input inst ≡ true → int_lt inst.src.chunk_idx (pos p.input_chunk_count) ≡ true)
    × (writes_output inst ≡ true → int_lt inst.dst.chunk_idx (pos p.output_chunk_count) ≡ true)

IsBound-count :
    (m idx : ℤ)
    → int_lt m (pos (2 ^ 31 - 1)) ≡ true
    → IsBound m idx
    → int_lt idx (pos (chunk_count m)) ≡ true
unfolding chunk_count
IsBound-count (pos m) (pos i) s h = ground arith
IsBound-count (pos m) (negsuc i) s h = refl
IsBound-count (negsuc m) (pos i) s h = cc
IsBound-count (negsuc m) (negsuc i) s h = refl

-- The counts from the largest chunks.
abbrev counted : Tally → IrProgram
counted all = record {
  input_chunk_count = chunk_count all.max_src_chunk;
  output_chunk_count = chunk_count all.max_dst_chunk;
  all_instructions = all.read;
}

Covers-IsCounted :
    (all : Tally) (insts : List Instruction)
    → SmallTally all
    → Covers all insts
    → All (IsCounted (counted all)) insts
Covers-IsCounted all insts s h =
    All-map
      (λ inst c. (
        λ r. IsBound-count all.max_src_chunk inst.src.chunk_idx s.0 (c.0 r),
        λ w. IsBound-count all.max_dst_chunk inst.dst.chunk_idx s.1 (c.1 w),
      ))
      insts h

-- The program from the two tallies.
abbrev built : RootElement → Tally → Tally → LoadedProgram
built root own all = record {
  name = elim (root.element.attribute "name") [ none ↦ "" | some s ↦ s ];
  nranks = int_attribute_or root.element "nranks" (pos 0);
  instructions = own.read;
  program = counted all;
}

-- If no instruction of a loaded program, this rank's or any rank's, reads an input chunk or writes an
-- output chunk of index 2^31 - 1 or more, where the int that counts them overflows, then every
-- instruction names input and output chunks below the counts that the program gives.
pub parse_document-IsCounted :
    (root : RootElement) (rank : ℤ) (numa_of : ℤ → ℤ) (p : LoadedProgram)
    → parse_document (some root) rank numa_of ≡ ok p
    → All IsSmall p.instructions
    → All IsSmall p.program.all_instructions
    → All (IsCounted p.program) p.instructions
      × All (IsCounted p.program) p.program.all_instructions
unfolding parse_document
parse_document-IsCounted root rank numa_of p h own_small all_small =
    let (r, h1, found) = >>=-loads (find_rank root.rank_elements rank) h in
    let (own, h2, read) =
      >>=-loads (read_instructions r.instruction_elements rank (numa_of rank) _) h1 in
    let (all, h3, rest) = >>=-loads (read_ranks root.rank_elements numa_of _) h2 in
    let first = read_instructions-Covers r.instruction_elements rank (numa_of rank) _ own read tt in
    let second = read_ranks-Covers root.rank_elements numa_of _ all rest tt in
    let e : built root own all ≡ p = cc in
    let back : p ≡ built root own all = cc in
    let kept = read_instructions-StaysSmall r.instruction_elements rank (numa_of rank) _ own read in
    let own_read : All IsSmall own.read =
      subst (λ (q : LoadedProgram). All IsSmall q.instructions) back own_small in
    let all_read : All IsSmall all.read =
      subst (λ (q : LoadedProgram). All IsSmall q.program.all_instructions) back all_small in
    let grown = read_ranks-StaysSmall root.rank_elements numa_of _ all rest in
    let small : SmallTally all = grown.1 all_read (kept.1 own_read (refl, refl)) in
    subst
      (λ (q : LoadedProgram).
        All (IsCounted q.program) q.instructions
        × All (IsCounted q.program) q.program.all_instructions)
      e
      (
        Covers-IsCounted all own.read small
            (Covers-Grows (record own { read = [] }) all own.read second.0 first.1),
        Covers-IsCounted all all.read small second.1,
      )
