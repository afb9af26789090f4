-- ===== src/Domain/Pending/Fifo.antt =====
-- multipath-orchestrator/libampccl/core/domain_manager.h: each stream's queue is first in, first out.
use hy_link.Domain.Pending.{
  PendingCollective, PendingTable, attach_to_last, Operation, register, attach, take, run_operation,
  register_stream_pending, attach_timers_to_last_stream_pending, take_stream_pending,
}
use mathlib.Core.List.{append-nil}
use hy_link.Prelude.{
  List, ℕ, ◌≡◌, refl, sym, ap, Option, none, some, [], ◌∷◌, ◌++◌, map, ◌==◌, if◌then◌else◌, ◌∙◌,
  inl, inr, ==_iff, Bool-cases,
}

-- A collective without its timers.
abbrev pub untimed : PendingCollective → PendingCollective
untimed p = record p { fast_timer = none; pcie_timer = none }

-- What the calls register for a stream, in order.
abbrev pub registered : ℕ → List Operation → List PendingCollective
registered s [] = []
registered s (register stream p ∷ ops) =
    if s == stream then untimed p ∷ registered s ops else registered s ops
registered s (attach stream fast pcie ∷ ops) = registered s ops
registered s (take stream ∷ ops) = registered s ops

-- An entry in front, if it is of the stream.
abbrev pub prepend_of :
    ℕ → Option (ℕ × PendingCollective) → List PendingCollective → List PendingCollective
prepend_of s none taken = taken
prepend_of s (some (stream, p)) taken = if s == stream then untimed p ∷ taken else taken

-- What the calls take for a stream, in order, and what they leave there.
abbrev pub taken : ℕ → PendingTable → List Operation → List PendingCollective
taken s table [] = []
taken s table (op ∷ ops) =
    let (out, next) = run_operation table op in prepend_of s out (taken s next ops)

abbrev pub left : ℕ → PendingTable → List Operation → List PendingCollective
left s table [] = map untimed (table s)
left s table (op ∷ ops) = left s (run_operation table op).1 ops

map-untimed-attach :
    (entries : List PendingCollective) (fast pcie : Option ℕ)
    → map untimed (attach_to_last entries fast pcie) ≡ map untimed entries
unfolding attach_to_last
map-untimed-attach [] fast pcie = refl
map-untimed-attach (p ∷ []) fast pcie = refl
map-untimed-attach (p ∷ q ∷ entries) fast pcie =
    ap (λ l. untimed p ∷ l) (map-untimed-attach (q ∷ entries) fast pcie)

map-untimed-push :
    (entries : List PendingCollective) (p : PendingCollective) (rest : List PendingCollective)
    → map untimed (entries ++ untimed p ∷ []) ++ rest ≡ map untimed entries ++ untimed p ∷ rest
map-untimed-push [] p rest = refl
map-untimed-push (x ∷ entries) p rest = ap (λ l. untimed x ∷ l) (map-untimed-push entries p rest)

-- A take, by the entries of its stream.
taken_step :
    (s : ℕ) (table : PendingTable) (stream : ℕ) (entries rest : List PendingCollective)
    → table stream ≡ entries
    → prepend_of s
        (run_operation table (take stream)).0
        (map untimed ((run_operation table (take stream)).1 s) ++ rest)
      ≡ map untimed (table s) ++ rest
unfolding run_operation
taken_step s table stream [] rest h =
    let e = ap (λ l. map untimed l ++ rest) h in
    let same = λ (q : s ≡ stream). ap (λ x. map untimed (table x) ++ rest) q in
    elim (Bool-cases (s == stream)) [
      | inl t ↦
          let q = same ((==_iff s stream).0 t) in rw (take_stream_pending, h) (rw t (sym (q ∙ e)))
      | inr t ↦ rw (take_stream_pending, h) (rw t)
    ]
taken_step s table stream (p ∷ entries) rest h =
    let e = ap (λ l. map untimed l ++ rest) h in
    let same = λ (q : s ≡ stream). ap (λ x. map untimed (table x) ++ rest) q in
    elim (Bool-cases (s == stream)) [
      | inl t ↦
          let q = same ((==_iff s stream).0 t) in rw (take_stream_pending, h) (rw t (sym (q ∙ e)))
      | inr t ↦ rw (take_stream_pending, h) (rw t)
    ]

-- A call moves an entry from what will be registered to what is pending, or from that to what is taken.
step_lem :
    (s : ℕ) (table : PendingTable) (op : Operation) (rest : List PendingCollective)
    → prepend_of s (run_operation table op).0 (map untimed ((run_operation table op).1 s) ++ rest)
      ≡ map untimed (table s) ++ (registered s (op ∷ []) ++ rest)
unfolding run_operation
step_lem s table (register stream p) rest = elim (Bool-cases (s == stream)) [
  | inl t ↦
      let q = ap (λ x. map untimed (table x) ++ (untimed p ∷ rest)) ((==_iff s stream).0 t) in
      rw (t, register_stream_pending) (map-untimed-push (table stream) p rest ∙ sym q)
  | inr t ↦ rw (t, register_stream_pending)
]
step_lem s table (attach stream fast pcie) rest = elim (Bool-cases (s == stream)) [
  | inl t ↦
      let e = (==_iff s stream).0 t in
      rw (attach_timers_to_last_stream_pending, t, e)
        (rw (map-untimed-attach (table stream) fast pcie))
  | inr t ↦ rw (attach_timers_to_last_stream_pending, t)
]
step_lem s table (take stream) rest = taken_step s table stream (table stream) rest refl

prepend_of-append :
    (s : ℕ) (out : Option (ℕ × PendingCollective)) (xs ys : List PendingCollective)
    → prepend_of s out xs ++ ys ≡ prepend_of s out (xs ++ ys)
prepend_of-append s none xs ys = refl
prepend_of-append s (some (stream, p)) xs ys = elim (Bool-cases (s == stream)) [
  | inl t ↦ rw t
  | inr t ↦ rw t
]

registered-cons :
    (s : ℕ) (op : Operation) (ops : List Operation)
    → registered s (op ∷ []) ++ registered s ops ≡ registered s (op ∷ ops)
registered-cons s (register stream p) ops = elim (Bool-cases (s == stream)) [
  | inl t ↦ rw t
  | inr t ↦ rw t
]
registered-cons s (attach stream fast pcie) ops = refl
registered-cons s (take stream) ops = refl

-- In any sequence of calls for all streams, the collectives taken for a stream and those still
-- pending there are, in this order and apart from their timers, those that were pending before and
-- then the ones registered for it: none is lost, doubled, overtaken or given to another stream.
pub taken-registered :
    (s : ℕ) (table : PendingTable) (ops : List Operation)
    → taken s table ops ++ left s table ops ≡ map untimed (table s) ++ registered s ops
taken-registered s table [] = sym (append-nil _)
taken-registered s table (op ∷ ops) =
    let out = (run_operation table op).0 in
    let next = (run_operation table op).1 in
    prepend_of-append s out (taken s next ops) (left s next ops)
    ∙ ap (prepend_of s out) (taken-registered s (run_operation table op).1 ops)
    ∙ step_lem s table op (registered s ops)
    ∙ ap (λ l. map untimed (table s) ++ l) (registered-cons s op ops)
