-- ===== src/Pccl/Loader/Small.antt =====
-- pcie-ccl-cuda/src/ir/ir_loader.cpp: the largest chunk index of a document whose indices are below
-- 2^31 - 1.
use hy_link.Prelude.Int.{ℤ, pos, int_lt}
use hy_link.Pccl.Loader.{
  Element, RankElement, Loaded, ok, failed, ◌>>=◌, parse_instruction_common, reads_input,
  writes_output, Tally, count_instruction, read_instructions, read_ranks,
}
use hy_link.Pccl.Ir.{Instruction}
use hy_link.Prelude.{◌-◌, ◌^◌, ◌≡◌, refl, subst, true, List, [], ◌∷◌, ◌++◌, if-intro, All}

pub >>=-loads :
    {A B : Type 0} (m : Loaded A) {next : A → Loaded B} {out : B}
    → (m >>= next) ≡ ok out
    → (read : A) × (next read ≡ ok out) × (m ≡ ok read)
>>=-loads (failed why) h = absurd (cc)
>>=-loads (ok read) h = (read, h, refl)

-- The chunks that count have indices below 2^31 - 1.
abbrev pub IsSmall : Instruction → Type 0
IsSmall inst =
    (reads_input inst ≡ true → int_lt inst.src.chunk_idx (pos (2 ^ 31 - 1)) ≡ true)
    × (writes_output inst ≡ true → int_lt inst.dst.chunk_idx (pos (2 ^ 31 - 1)) ≡ true)

abbrev pub SmallTally : Tally → Type 0
SmallTally t =
    (int_lt t.max_src_chunk (pos (2 ^ 31 - 1)) ≡ true)
    × (int_lt t.max_dst_chunk (pos (2 ^ 31 - 1)) ≡ true)

All-before : (P : Instruction → Type 0) (a b : List Instruction) → All P (a ++ b) → All P a
All-before P [] b h = tt
All-before P (x ∷ a) b h = (h.0, All-before P a b h.1)

All-last :
    (P : Instruction → Type 0) (a : List Instruction) (x : Instruction) → All P (a ++ x ∷ []) → P x
All-last P [] x h = h.0
All-last P (y ∷ a) x h = All-last P a x h.1

count_instruction-SmallTally :
    (t : Tally) (inst : Instruction)
    → SmallTally t
    → IsSmall inst
    → SmallTally (count_instruction t inst)
unfolding count_instruction
count_instruction-SmallTally t inst s i = (
  if-intro (λ m. int_lt m (pos (2 ^ 31 - 1)) ≡ true) (reads_input inst)
      (λ r.
        if-intro (λ m. int_lt m (pos (2 ^ 31 - 1)) ≡ true)
          (int_lt t.max_src_chunk inst.src.chunk_idx) (λ _. i.0 r) (λ _. s.0))
      (λ _. s.0),
  if-intro (λ m. int_lt m (pos (2 ^ 31 - 1)) ≡ true) (writes_output inst)
      (λ w.
        if-intro (λ m. int_lt m (pos (2 ^ 31 - 1)) ≡ true)
          (int_lt t.max_dst_chunk inst.dst.chunk_idx) (λ _. i.1 w) (λ _. s.1))
      (λ _. s.1),
)

-- The instructions read so far are the first of those read in the end, and the maxima stay small if
-- all of them are.
abbrev pub StaysSmall : Tally → Tally → Type 0
StaysSmall t u =
    (All IsSmall u.read → All IsSmall t.read) × (All IsSmall u.read → SmallTally t → SmallTally u)

pub read_instructions-StaysSmall :
    (elems : List Element) (rank numa : ℤ) (t u : Tally)
    → read_instructions elems rank numa t ≡ ok u
    → StaysSmall t u
unfolding read_instructions count_instruction
read_instructions-StaysSmall [] rank numa t u h =
    let e : t ≡ u = cc in subst (λ (v : Tally). StaysSmall t v) e ((λ a. a), λ a s. s)
read_instructions-StaysSmall (elem ∷ elems) rank numa t u h =
    let (inst, rest, read) = >>=-loads (parse_instruction_common elem rank numa) h in
    let next = count_instruction t inst in
    let after = read_instructions-StaysSmall elems rank numa next u rest in
    (
      λ a. All-before IsSmall t.read (inst ∷ []) (after.0 a),
      λ a s.
          after.1 a
            (count_instruction-SmallTally t inst s (All-last IsSmall t.read inst (after.0 a))),
    )

pub read_ranks-StaysSmall :
    (ranks : List RankElement) (numa_of : ℤ → ℤ) (t u : Tally)
    → read_ranks ranks numa_of t ≡ ok u
    → StaysSmall t u
unfolding read_ranks
read_ranks-StaysSmall [] numa_of t u h =
    let e : t ≡ u = cc in subst (λ (v : Tally). StaysSmall t v) e ((λ a. a), λ a s. s)
read_ranks-StaysSmall (r ∷ ranks) numa_of t u h =
    let (mid, rest, read) = >>=-loads (read_instructions r.instruction_elements _ _ t) h in
    let first = read_instructions-StaysSmall r.instruction_elements _ _ t mid read in
    let after = read_ranks-StaysSmall ranks numa_of mid u rest in
    (λ a. first.0 (after.0 a), λ a s. after.1 a (first.1 (after.0 a) s))
