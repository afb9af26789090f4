-- ===== src/Pccl/Executor/EventRing/Tests.antt =====
-- A ring of three slots whose head has wrapped, and witnesses.
use hy_link.Prelude.{ℕ, ◌≡◌, refl, [], ◌∷◌, ◌++◌, arith, ◌*◌, ◌<◌, false}
use hy_link.Pccl.Executor.EventRing.{EventRing, inflight, is_full, push, oldest, release_oldest}
use hy_link.Pccl.Executor.EventRing.Fifo.{contents, push-release_oldest}

abbrev wrapped : EventRing ℕ
wrapped = record { capacity = 3; head = 4; tail = 2; slot_info = λ i. i * 10 }

wrapped-contents : contents wrapped ≡ 20 ∷ 0 ∷ []
unfolding contents inflight
wrapped-contents = refl

push-release_oldest_example :
    (is_full wrapped ≡ false → contents (push wrapped 7) ≡ contents wrapped ++ (7 ∷ []))
    × (0 < inflight wrapped → contents wrapped ≡ oldest wrapped ∷ contents (release_oldest wrapped))
push-release_oldest_example =
    push-release_oldest wrapped 7 (omega arith, omega arith, omega arith, omega arith)
