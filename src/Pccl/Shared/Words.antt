-- ===== src/Pccl/Shared/Words.antt =====
-- pcie-ccl-cuda/src/memory/shared_state.cpp: what is read of the words that were published.
use hy_link.Prelude.Int.{ℤ}
use hy_link.Pccl.Shared.{
  Place, place_eq, Words, SharedWords, publish_at, read_at, clear_other, set_own, direct_status_at,
  place_of, publish_user_ready_seq, get_user_ready_seq, publish_fastpath_ready_seq,
  get_fastpath_ready_seq, publish_fastpath_stage_seq, get_fastpath_stage_seq,
  publish_fastpath_direct_status, get_fastpath_direct_status,
}
use hy_link.Prelude.{
  ℕ, ◌≡◌, refl, ◌≢◌, Bool, false, Option, none, some, ◌==◌, if◌then◌else◌, inl, inr, true, arith,
  Bool-cases,
}

-- The word of a place, if there is one, and whether it is that of another.
abbrev pub same_place : Option Place → Option Place → Bool
same_place none q = false
same_place (some p) none = false
same_place (some p) (some q) = place_eq p q

read_at-publish_at :
    (words : Words) (p q : Option Place) (seq : ℕ)
    → read_at (publish_at words p seq) q ≡ (if same_place p q then seq else read_at words q)
unfolding read_at publish_at
read_at-publish_at words none q seq = refl
read_at-publish_at words (some p) none seq = refl
read_at-publish_at words (some p) (some q) seq = refl

direct_status_at-published :
    (st : SharedWords) (p q : Option Place) (seq w : ℕ) (all_direct : Bool)
    → w ≢ 0
    → direct_status_at (set_own (clear_other st p all_direct) p all_direct seq) q w ≡ (
        if same_place p q
        then (if w == seq then some all_direct else none)
        else direct_status_at st q w)
unfolding direct_status_at set_own clear_other publish_at
direct_status_at-published st none q seq w true nz = refl
direct_status_at-published st none q seq w false nz = refl
direct_status_at-published st (some p) none seq w all_direct nz = refl
direct_status_at-published st (some p) (some q) seq w true nz = elim (Bool-cases (place_eq p q)) [
  | inl t ↦ rw t (ground arith)
  | inr t ↦ rw t
]
direct_status_at-published st (some p) (some q) seq w false nz = elim (Bool-cases (place_eq p q)) [
  | inl t ↦ rw t (ground arith)
  | inr t ↦ rw t
]

-- After a rank has published for a number whether it can copy directly, that is what is read at the
-- same place for that number, nothing is known there for any other number but 0, and every other
-- place reads as before. Out of range, a publication does nothing and nothing is known.
pub get_fastpath_direct_status-publish :
    (st : SharedWords) (comm rank slot c r s : ℤ) (seq w : ℕ) (all_direct : Bool)
    → w ≢ 0
    → get_fastpath_direct_status
        (publish_fastpath_direct_status st comm rank slot seq all_direct)
        c
        r
        s
        w
      ≡ (if same_place (place_of comm rank slot) (place_of c r s)
          then (if w == seq then some all_direct else none)
          else get_fastpath_direct_status st c r s w)
unfolding get_fastpath_direct_status publish_fastpath_direct_status
get_fastpath_direct_status-publish st comm rank slot c r s seq w all_direct nz =
    direct_status_at-published st (place_of comm rank slot) (place_of c r s) seq w all_direct nz

-- What is published for a user stream or a stage of the fast path is read at its place and nowhere
-- else, and neither of the other two arrays changes.
pub get_user_ready_seq-publish :
    (st : SharedWords) (comm rank slot c r s : ℤ) (seq : ℕ)
    → let same = same_place (place_of comm rank slot) (place_of c r s) in
      let user = publish_user_ready_seq st comm rank slot seq in
      let ready = publish_fastpath_ready_seq st comm rank slot seq in
      let stage = publish_fastpath_stage_seq st comm rank slot seq in
      (get_user_ready_seq user c r s ≡ (if same then seq else get_user_ready_seq st c r s))
      × (get_fastpath_ready_seq ready c r s
          ≡ (if same then seq else get_fastpath_ready_seq st c r s))
      × (get_fastpath_stage_seq stage c r s
          ≡ (if same then seq else get_fastpath_stage_seq st c r s))
      × (get_user_ready_seq ready c r s ≡ get_user_ready_seq st c r s)
      × (get_user_ready_seq stage c r s ≡ get_user_ready_seq st c r s)
      × (get_fastpath_ready_seq user c r s ≡ get_fastpath_ready_seq st c r s)
unfolding get_user_ready_seq get_fastpath_ready_seq get_fastpath_stage_seq publish_user_ready_seq
    publish_fastpath_ready_seq publish_fastpath_stage_seq
get_user_ready_seq-publish st comm rank slot c r s seq =
    let p = place_of comm rank slot in
    let q = place_of c r s in
    (
      read_at-publish_at st.user_ready_seq p q seq,
      read_at-publish_at st.fastpath_ready_seq p q seq,
      read_at-publish_at st.fastpath_stage_seq p q seq,
      refl,
      refl,
      refl,
    )
