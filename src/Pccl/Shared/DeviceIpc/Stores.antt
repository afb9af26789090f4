-- ===== src/Pccl/Shared/DeviceIpc/Stores.antt =====
-- The stores of a publication leave exactly the published record, whatever was there before
-- (memory/shared_state.cpp).
use hy_link.Pccl.Shared.DeviceIpc.{
  device_ipc_handle_bytes, DeviceIpcBuffer, byte_stores, zeros, stores_of, stored, record_words,
  even_seq,
}
use hy_link.Prelude.{
  List, ℕ, zero, suc, ◌+◌, ◌<◌, ◌≡◌, refl, ap, ◌∙◌, subst, [], ◌∷◌, ◌++◌, arith, assign_at,
  assign_at-same, assign_at-other, ◌%◌, ◌≤◌, inl, inr, ◌==◌, Bool-cases, u64_mod, add64, add64-eq,
}

-- The k-th byte, or `rest` past the end.
abbrev pub byte_or : List ℕ → ℕ → ℕ → ℕ
byte_or [] k rest = rest
byte_or (b ∷ bs) zero rest = b
byte_or (b ∷ bs) (suc k) rest = byte_or bs k rest

-- The words of a record: its handle is filled up with zeros.
unfoldable pub words_of : DeviceIpcBuffer → ℕ → ℕ
words_of r zero = r.base_addr
words_of r (suc zero) = r.offset
words_of r (suc (suc zero)) = r.size
words_of r (suc (suc (suc k))) = byte_or r.handle k 0

stored-append :
    (a b : List (ℕ × ℕ)) (words : ℕ → ℕ) → stored (a ++ b) words ≡ stored b (stored a words)
unfolding stored
stored-append [] b words = refl
stored-append ((i, v) ∷ a) b words = stored-append a b (assign_at words i v)

stored-before :
    (from : ℕ) (bs : List ℕ) (words : ℕ → ℕ) (i : ℕ)
    → i < from
    → stored (byte_stores from bs) words i ≡ words i
unfolding stored byte_stores
stored-before from [] words i h = refl
stored-before from (b ∷ bs) words i h =
    stored-before (suc from) bs (assign_at words from b) i (omega (arith, h))
    ∙ assign_at-other words from i b (omega (arith, h))

stored-bytes :
    (from : ℕ) (bs : List ℕ) (words : ℕ → ℕ) (i k : ℕ)
    → i ≡ from + k
    → stored (byte_stores from bs) words i ≡ byte_or bs k (words i)
unfolding stored byte_stores
stored-bytes from [] words i k h = refl
stored-bytes from (b ∷ bs) words i zero h =
    stored-before (suc from) bs (assign_at words from b) i (omega (arith, h))
    ∙ (let e : from ≡ i = omega (arith, h) in
        subst (λ j. assign_at words from b j ≡ b) e (assign_at-same words from b))
stored-bytes from (b ∷ bs) words i (suc k) h =
    stored-bytes (suc from) bs (assign_at words from b) i k (omega (arith, h))
    ∙ ap (byte_or bs k) (assign_at-other words from i b (omega (arith, h)))

byte_or-zeros : (n k rest : ℕ) → k < n → byte_or (zeros n) k rest ≡ 0
unfolding zeros
byte_or-zeros zero k rest h = absurd (omega (arith, h))
byte_or-zeros (suc n) zero rest h = refl
byte_or-zeros (suc n) (suc k) rest h = byte_or-zeros n k rest (omega (arith, h))

-- After all stores of a publication each word of the slot is that of the record.
pub stored-stores_of :
    (r : DeviceIpcBuffer) (words : ℕ → ℕ) (i : ℕ)
    → i < record_words
    → stored (stores_of r) words i ≡ words_of r i
unfolding stores_of stored words_of
stored-stores_of r words i h =
    ap (λ (f : ℕ → ℕ). f i)
      (stored-append (byte_stores 3 (zeros device_ipc_handle_bytes)) (byte_stores 3 r.handle) first)
    ∙ rest i h
  where
    first : ℕ → ℕ
    first = assign_at (assign_at (assign_at words 0 r.base_addr) 1 r.offset) 2 r.size

    cleared : ℕ → ℕ
    cleared = stored (byte_stores 3 (zeros device_ipc_handle_bytes)) first

    head : (j : ℕ) → j < 3 → stored (byte_stores 3 r.handle) cleared j ≡ first j
    head j k =
        stored-before 3 r.handle cleared j k
        ∙ stored-before 3 (zeros device_ipc_handle_bytes) first j k

    rest : (j : ℕ) → j < record_words → stored (byte_stores 3 r.handle) cleared j ≡ words_of r j
    rest zero k = head 0 (omega arith)
    rest (suc zero) k = head 1 (omega arith)
    rest (suc (suc zero)) k = head 2 (omega arith)
    rest (suc (suc (suc j))) k =
        stored-bytes 3 r.handle cleared (suc (suc (suc j))) j (omega arith)
        ∙ ap (byte_or r.handle j) (
            stored-bytes 3 (zeros device_ipc_handle_bytes) first (suc (suc (suc j))) j (omega arith)
            ∙ byte_or-zeros device_ipc_handle_bytes j _ (omega (arith, k)))

pub even_seq-even :
    (seq : ℕ)
    → seq + 1 < u64_mod
    → (even_seq seq % 2 ≡ 0) × (seq ≤ even_seq seq) × (even_seq seq ≤ seq + 1)
unfolding even_seq
even_seq-even seq h = elim (Bool-cases (seq % 2 == 0)) [
  | inl t ↦ rw t (ground arith, omega arith, omega arith)
  | inr t ↦
      let odd : seq % 2 ≡ 1 = ground arith in
      let e : add64 seq 1 ≡ seq + 1 = add64-eq seq 1 h in
      rw (t, e) (omega (arith, odd), omega arith, omega arith)
]
