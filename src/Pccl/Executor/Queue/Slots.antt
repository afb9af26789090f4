-- ===== src/Pccl/Executor/Queue/Slots.antt =====
-- The completion slots of the collectives in flight (executor/graph_executor.cpp).
use mathlib.Core.List.{append-nil, append_assoc}
use hy_link.Prelude.{
  ℕ, ◌+◌, ◌-◌, ◌%◌, ◌≤◌, ◌<◌, suc, ◌≡◌, ◌≢◌, refl, sym, ap, ◌∙◌, subst, true, List, [], ◌∷◌, ◌++◌,
  arith, length, length-append, All, slot_distinct, if-intro, ltb, not, ◌||◌,
}
use hy_link.Pccl.Executor.Queue.{
  Result, WorkItem, Executor, active, is_success, submit_begin, submit_end, finish_current_work,
  Step, Run, begin_step, end_step, take_step, finish_step, stop_step, here, more, fresh, take_from,
}

-- Items with consecutive sequence numbers, from `first` + 1 to `last`, each in its slot.
abbrev pub IsSequence : ℕ → ℕ → List WorkItem → ℕ → Type 0
IsSequence depth first [] last = first ≡ last
IsSequence depth first (item ∷ items) last =
    (item.slot ≡ first % depth)
    × (item.work_seq ≡ suc first)
    × IsSequence depth (suc first) items last

-- No two items are in the same slot.
abbrev pub DistinctSlots : List WorkItem → Type 0
DistinctSlots [] = Unit
DistinctSlots (item ∷ items) = All (λ other. other.slot ≢ item.slot) items × DistinctSlots items

IsSequence-length :
    (depth first : ℕ) (items : List WorkItem) (last : ℕ)
    → IsSequence depth first items last
    → first + length items ≡ last
IsSequence-length depth first [] last h = omega (arith, h)
IsSequence-length depth first (item ∷ items) last h =
    let ih = IsSequence-length depth (suc first) items last h.2 in omega (arith, ih)

IsSequence-snoc :
    (depth first : ℕ) (items : List WorkItem) (last : ℕ) (item : WorkItem)
    → IsSequence depth first items last
    → item.slot ≡ last % depth
    → item.work_seq ≡ suc last
    → IsSequence depth first (items ++ (item ∷ [])) (suc last)
IsSequence-snoc depth first [] last item h s w =
    (s ∙ ap (λ x. x % depth) (sym h), w ∙ ap suc (sym h), ap suc h)
IsSequence-snoc depth first (i ∷ items) last item h s w =
    (h.0, h.1, IsSequence-snoc depth (suc first) items last item h.2 s w)

IsSequence-suffix :
    (depth first : ℕ) (items others : List WorkItem) (last : ℕ)
    → IsSequence depth first (items ++ others) last
    → IsSequence depth (first + length items) others last
IsSequence-suffix depth first [] others last h =
    let e : first ≡ first + 0 = omega arith in subst (λ x. IsSequence depth x others last) e h
IsSequence-suffix depth first (i ∷ items) others last h =
    let e : suc first + length items ≡ first + suc (length items) = omega arith in
    subst (λ x. IsSequence depth x others last) e
      (IsSequence-suffix depth (suc first) items others last h.2)

IsSequence-apart :
    (depth first k : ℕ) (items : List WorkItem) (last : ℕ)
    → IsSequence depth (first + suc k) items last
    → suc k + length items ≤ depth
    → All (λ other. other.slot ≢ first % depth) items
IsSequence-apart depth first k [] last h fits = tt
IsSequence-apart depth first k (item ∷ items) last h fits =
    let e : suc (first + suc k) ≡ first + suc (suc k) = omega arith in
    (
      λ same.
          slot_distinct depth first (suc k) (omega arith) (omega (arith, fits)) (sym same ∙ h.0),
      IsSequence-apart depth first (suc k) items last
          (subst (λ x. IsSequence depth x items last) e h.2) (omega (arith, fits)),
    )

IsSequence-DistinctSlots :
    (depth first : ℕ) (items : List WorkItem) (last : ℕ)
    → IsSequence depth first items last
    → length items ≤ depth
    → DistinctSlots items
IsSequence-DistinctSlots depth first [] last h fits = tt
IsSequence-DistinctSlots depth first (item ∷ items) last h fits =
    let e : suc first ≡ first + 1 = omega arith in
    (
      subst (λ s. All (λ other. other.slot ≢ s) items) (sym h.0)
          (IsSequence-apart depth first 0 items last
            (subst (λ x. IsSequence depth x items last) e h.2) (omega (arith, fits))),
      IsSequence-DistinctSlots depth (suc first) items last h.2 (omega (arith, fits)),
    )

-- Everything between submit and completion, oldest first.
abbrev pub in_flight : Executor → List WorkItem
in_flight ex = ex.current ++ (ex.queue ++ ex.reserved)

-- The items have the last sequence numbers given out, and fit in the slots.
abbrev pub Ordered : ℕ → List WorkItem → ℕ → Type 0
Ordered depth items counter =
    ((first : ℕ) × IsSequence depth first items counter) × (length items ≤ depth)

abbrev pub IsOrdered : Executor → Type 0
IsOrdered ex = Ordered ex.queue_depth (in_flight ex) ex.work_seq_counter

nil-of : {A : Type 0} (l : List A) → length l ≡ 0 → l ≡ []
nil-of [] h = refl
nil-of (x ∷ l) h = absurd (omega (arith, h))

Ordered-suffix :
    (depth : ℕ) (items others : List WorkItem) (counter : ℕ)
    → Ordered depth (items ++ others) counter
    → Ordered depth others counter
Ordered-suffix depth items others counter (h, fits) = (
  (h.0 + length items, IsSequence-suffix depth h.0 items others counter h.1),
  let e = length-append items others in omega (arith, e, fits),
)

Ordered-snoc :
    (depth : ℕ) (items : List WorkItem) (counter : ℕ) (item : WorkItem)
    → Ordered depth items counter
    → length items < depth
    → item.slot ≡ counter % depth
    → item.work_seq ≡ suc counter
    → Ordered depth (items ++ (item ∷ [])) (suc counter)
Ordered-snoc depth items counter item (h, fits) room s w = (
  (h.0, IsSequence-snoc depth h.0 items counter item h.1 s w),
  let e = length-append items (item ∷ []) in omega (arith, e, room),
)

begin-IsOrdered :
    (ex : Executor) → length ex.reserved ≡ 0 → IsOrdered ex → IsOrdered (submit_begin ex).1
unfolding submit_begin active
begin-IsOrdered ex none_reserved h =
    let nil = nil-of ex.reserved none_reserved in
    let P : Result × Executor → Type 0 = λ p. IsOrdered (p.1) in
    let old : Ordered ex.queue_depth (ex.current ++ ex.queue) ex.work_seq_counter =
      subst (λ l. Ordered ex.queue_depth l ex.work_seq_counter)
        (ap (λ r. ex.current ++ (ex.queue ++ r)) nil
          ∙ ap (λ l. ex.current ++ l) (append-nil ex.queue))
        h in
    if-intro P
      (not (
        ex.stop
        || not (is_success ex.last_result)
        || ltb (length ex.current + length ex.queue) ex.queue_depth))
      (λ _. h)
      (λ t.
        if-intro P ex.stop (λ _. h)
          (λ u.
            if-intro P (not (is_success ex.last_result)) (λ _. h)
              (λ v.
                let room : length ex.current + length ex.queue < ex.queue_depth =
                  ground (arith, t, u, v) in
                let sum = length-append ex.current ex.queue in
                let e : suc ex.work_seq_counter - 1 ≡ ex.work_seq_counter = omega arith in
                subst (λ l. Ordered ex.queue_depth l (suc ex.work_seq_counter))
                  (append_assoc ex.current ex.queue _)
                  (Ordered-snoc ex.queue_depth (ex.current ++ ex.queue) ex.work_seq_counter _ old
                    (omega (arith, sum, room)) (ap (λ x. x % ex.queue_depth) e) refl))))

take-IsOrdered :
    (ex : Executor) (queue : List WorkItem)
    → ex.queue ≡ queue
    → length ex.current ≡ 0
    → IsOrdered ex
    → IsOrdered (take_from ex queue)
unfolding take_from
take-IsOrdered ex [] e idle h = h
take-IsOrdered ex (item ∷ rest) e idle h =
    subst (λ l. Ordered ex.queue_depth l ex.work_seq_counter)
      (ap (λ c. c ++ (ex.queue ++ ex.reserved)) (nil-of ex.current idle)
        ∙ ap (λ q. q ++ ex.reserved) e)
      h

finish-IsOrdered :
    (ex : Executor) (result : Result) → IsOrdered ex → IsOrdered (finish_current_work ex result)
unfolding finish_current_work
finish-IsOrdered ex result h =
    let rest =
      Ordered-suffix ex.queue_depth ex.current (ex.queue ++ ex.reserved) ex.work_seq_counter h in
    if-intro IsOrdered (is_success result) (λ _. rest)
      (λ _. Ordered-suffix ex.queue_depth ex.queue ex.reserved ex.work_seq_counter rest)

end-IsOrdered : (ex : Executor) → IsOrdered ex → IsOrdered (submit_end ex true).1
unfolding submit_end
end-IsOrdered ex h =
    subst (λ l. Ordered ex.queue_depth (ex.current ++ l) ex.work_seq_counter)
      (sym (append-nil (ex.queue ++ ex.reserved))) h

Step-IsOrdered : (ex next : Executor) → Step ex next → IsOrdered ex → IsOrdered next
Step-IsOrdered _ _ (begin_step ex none_reserved) h = begin-IsOrdered ex none_reserved h
Step-IsOrdered _ _ (end_step ex) h = end-IsOrdered ex h
Step-IsOrdered _ _ (take_step ex idle) h = take-IsOrdered ex ex.queue refl idle h
Step-IsOrdered _ _ (finish_step ex result) h = finish-IsOrdered ex result h
Step-IsOrdered _ _ (stop_step ex) h = h

Run-IsOrdered : (ex last : Executor) → Run ex last → IsOrdered ex → IsOrdered last
Run-IsOrdered _ _ (here ex) h = h
Run-IsOrdered _ _ (more ex next last s run) h =
    Run-IsOrdered next last run (Step-IsOrdered ex next s h)

-- While every user stream can be prepared, in any interleaving of the submitting thread and the
-- worker, errors and a stop included, the collectives in flight are at most the queue's depth and
-- no two of them use one completion slot.
pub Run-DistinctSlots :
    (depth : ℕ) (last : Executor)
    → Run (fresh depth) last
    → DistinctSlots (in_flight last) × (length (in_flight last) ≤ last.queue_depth)
Run-DistinctSlots depth last run =
    let ((first, seq), fits) = Run-IsOrdered (fresh depth) last run ((0, refl), omega arith) in
    (
      IsSequence-DistinctSlots last.queue_depth first (in_flight last) last.work_seq_counter seq
          fits,
      fits,
    )
