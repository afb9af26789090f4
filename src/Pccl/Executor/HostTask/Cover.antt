-- ===== src/Pccl/Executor/HostTask/Cover.antt =====
-- The threads of a host task share its bytes out (executor/h2h_engine.cpp).
use native.Mathlib.Nat.{lt-div-mul-add, mul-div_cancel}
use hy_link.Prelude.{ℕ, ◌+◌, ◌-◌, ◌*◌, ◌/◌, ◌≤◌, ◌<◌, suc, min, ◌≡◌, arith, ap, ◌∙◌, mul_mono}
use hy_link.Pccl.Executor.HostTask.{HostWorkItem, work_unit, per_thread_units, my_start, my_end}

seam : (t q u b : ℕ) → min (min (t * q * u) b + q * u) b ≡ min (suc t * q * u) b
seam t q u b = let e : suc t * q * u ≡ t * q * u + q * u = grind arith in rw e (omega arith)

-- Enough units for every thread's share.
share-covers : (elements n u : ℕ) → 0 < n → elements * u ≤ n * ((elements + n - 1) / n) * u
share-covers elements n u h =
    let p = lt-div-mul-add {a = elements + n - 1} h in
    let q : elements ≤ n * ((elements + n - 1) / n) = grind (arith, p) in
    mul_mono elements (n * ((elements + n - 1) / n)) u q

module _ (item : HostWorkItem) where
  abbrev pub at : ℕ → HostWorkItem
  at tid = record item { tid = tid }

  work_unit-positive : 0 < work_unit item
  unfolding work_unit
  work_unit-positive = ground arith

  per_thread-eq :
      (elements : ℕ)
      → item.graph_bytes / work_unit item ≡ elements
      → per_thread_units item ≡ (elements + item.num_threads - 1) / item.num_threads
  unfolding per_thread_units
  per_thread-eq elements e = ap (λ x. (x + item.num_threads - 1) / item.num_threads) e

  start-eq :
      (n : ℕ)
      → suc (n - 1) ≡ n
      → my_start (at (suc (n - 1)))
        ≡ min (n * per_thread_units item * work_unit item) item.graph_bytes
  unfolding my_start per_thread_units work_unit
  start-eq n e = ap (λ x. min (x * per_thread_units item * work_unit item) item.graph_bytes) e

  -- The threads' ranges follow each other from the first byte: each begins where the one before
  -- ends.
  pub my_end-my_start :
      (tid : ℕ) → (my_start (at 0) ≡ 0) × (my_end (at tid) ≡ my_start (at (suc tid)))
  unfolding my_end my_start per_thread_units work_unit
  my_end-my_start tid =
      (omega arith, seam tid (per_thread_units item) (work_unit item) item.graph_bytes)

  -- The last thread's range ends with the last byte, when there is a thread and the task is whole
  -- elements.
  pub my_end-last :
      (elements : ℕ)
      → item.graph_bytes ≡ elements * work_unit item
      → 0 < item.num_threads
      → my_end (at (item.num_threads - 1)) ≡ item.graph_bytes
  unfolding work_unit
  my_end-last elements whole threads =
      let n = item.num_threads in
      let u = work_unit item in
      let units : item.graph_bytes / u ≡ elements =
        ap (λ x. x / u) whole ∙ mul-div_cancel elements work_unit-positive in
      let q : per_thread_units item ≡ (elements + n - 1) / n = per_thread-eq elements units in
      let top : suc (n - 1) ≡ n = omega (arith, threads) in
      let enough = share-covers elements n u threads in
      (my_end-my_start (n - 1)).1 ∙ start-eq n top ∙ rw (q, whole) (omega (arith, enough))

  -- When there is a thread and the task is whole elements, the threads' ranges follow each other from
  -- the first byte, each beginning where the one before ends, and the last ends with the last byte.
  pub my_end_covers :
      (tid elements : ℕ)
      → item.graph_bytes ≡ elements * work_unit item
      → 0 < item.num_threads
      → (my_start (at 0) ≡ 0)
        × (my_end (at tid) ≡ my_start (at (suc tid)))
        × (my_end (at (item.num_threads - 1)) ≡ item.graph_bytes)
  my_end_covers tid elements whole threads =
      let (first, seams) = my_end-my_start tid in (first, seams, my_end-last elements whole threads)
