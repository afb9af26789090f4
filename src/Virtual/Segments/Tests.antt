-- ===== src/Virtual/Segments/Tests.antt =====
-- Two ranks that gather and that reduce, with backends that write exactly what they document.
mod ToAll
use hy_link.Virtual.Segments.ToAll.{
  to_all_segments, to_all_dense, to_all_pcie_only, to_all_launch, all_to_all, all_to_all_completed,
}
use hy_link.Virtual.Segments.Exchanged.{ExchangeLaws, IsExchanged}
use native.Mathlib.Nat.{mul-add-div_right, mul-add-mod_self_right, div-eq_of_lt, mod-eq_of_lt}
use hy_link.Planner.{PlanConfig, create_plan, Plan}
use hy_link.Virtual.{
  success_result, is_ok, Environment, merged_result, pcie_wait_for_user_input_if_needed,
  supported_plan, fast, synchronize, input_wait, pcie_complete_on_user_stream_if_needed,
  sync_pcie_stream_before_callback_if_enabled,
}
use hy_link.Virtual.Segments.{
  Workspace, segments_fast_only, segments_fallback, segments_pcie_only, owns_dense, has_dense,
  SegmentCall, on_stream, segments_waits, dense_calls, pack_calls,
}
use hy_link.Virtual.Segments.Copies.{Buffer, Memory, Transfers, exec}
use hy_link.Virtual.Segments.Gather.{gather_dense, gather_launch, all_gather}
use hy_link.Virtual.Segments.Gathered.{GatherLaws, IsGathered}
use hy_link.Virtual.Segments.Gathered.Total.{all_gather-IsGathered}
use hy_link.Virtual.Segments.Scatter.{
  scatter_dense, scatter_launch, reduce_scatter, dense_registered,
}
use hy_link.Virtual.Segments.Scattered.{ScatterLaws, IsScattered}
use hy_link.Virtual.Segments.Scattered.Total.{reduce_scatter-IsScattered}
use hy_link.Floats.Thousandths.{thousandths, thousandths-laws}
use hy_link.Prelude.{
  ℕ, ◌+◌, ◌*◌, ◌/◌, ◌%◌, ◌<◌, ◌≡◌, refl, ◌∙◌, true, false, none, arith, ltb, leb, if◌then◌else◌,
  Bool, List, [], ◌∷◌,
}

abbrev pub defaults : PlanConfig
defaults = record { pcie_enabled = true; min_msg_size = 4194304; min_chunk_size = 4096 }

abbrev pub machine : Environment
machine = record {
  elem_size = 4;
  supports_collective = true;
  has_user_stream = true;
  has_pcie_stream = true;
  fast_only_bw_log = false;
  sync_before_callback = false;
  has_submission = true;
  input_ready_ok = true;
  input_wait_ok = true;
  complete_write_ok = true;
  complete_wait_ok = true;
  synchronize_ok = true;
  event_wait_ok = true;
  fast_result = success_result;
  pcie_result = success_result;
}

-- The fast backend has no calls for segments, and the dense buffer is allocated.
abbrev pub two_ranks : Workspace
two_ranks = record { nranks = 2; has_segments = false; recvbuf_size = none; alloc_ok = true }

abbrev pub sent : ℕ → Buffer ℕ
sent r b = r + 2 * b

pub in_segment : (r w b : ℕ) → b < w → ((r * w + b) / w ≡ r) × ((r * w + b) % w ≡ b)
in_segment r w b h =
    let nz : 0 < w = omega (arith, h) in
    (
      mul-add-div_right nz r b ∙ omega (arith, div-eq_of_lt h),
      mul-add-mod_self_right r w b ∙ mod-eq_of_lt h,
    )

-- Byte `b` of rank `r`, at byte `i` of a buffer of segments of `w` bytes.
abbrev placed : ℕ → Buffer ℕ
placed w i = sent (i / w) (i % w)

placed-at : (r w b : ℕ) → b < w → placed w (r * w + b) ≡ sent r b
placed-at r w b h = let (p, q) = in_segment r w b h in rw (p, q) refl

abbrev gathering : Transfers ℕ
gathering = record {
  copy_accepted = λ to from bytes. true;
  whole_by_fast = λ n old. placed (n * 4);
  segments_by_fast =
      λ n stride old i. if ltb (i % (stride * 4)) (n * 4) then placed (stride * 4) i else old i;
  dense_by_fast = λ n m. record m { dense = λ j. placed (n * 4) };
  whole_by_pcie = λ n old. placed (n * 4);
  segments_by_pcie =
      λ n stride old i. if leb (stride * 4) (i % (n * 4)) then placed (n * 4) i else old i;
}

gathering-laws : GatherLaws gathering sent 0 4 two_ranks
gathering-laws = record {
  copies = λ to from bytes. refl;
  whole_by_fast-at = λ n r b old h k. placed-at r (n * 4) b k;
  whole_by_pcie-at = λ n r b old h k. placed-at r (n * 4) b k;
  segments_by_fast-at = λ n stride r b old h k few.
      let (p, q) = in_segment r (stride * 4) b (omega (arith, k, few)) in
      let go : ltb b (n * 4) ≡ true = ground (arith, k) in rw (p, q, go) refl;
  segments_by_pcie-at = λ n stride r b old h low k.
      let (p, q) = in_segment r (n * 4) b k in
      let go : leb (stride * 4) b ≡ true = ground (arith, low) in rw (p, q, go) refl;
  segments_by_pcie-keeps = λ n stride r b old h low k.
      let q = (in_segment r (n * 4) b k).1 in
      let go : leb (stride * 4) b ≡ false = ground (arith, low) in rw (q, go) refl;
  dense_by_fast-at = λ n r b m h k. placed-at r (n * 4) b k;
}

abbrev pub blank : Memory ℕ
blank = record { recv = λ i. 0; dense = λ j i. 0 }

gathered_ok : (plan : Plan) → is_ok (all_gather machine two_ranks 2097152 plan).0 ≡ true
unfolding all_gather gather_launch gather_dense is_ok merged_result supported_plan
    segments_fast_only segments_fallback segments_pcie_only has_dense owns_dense
    pcie_wait_for_user_input_if_needed
gathered_ok plan = ground arith

all_gather-IsGathered_example : IsGathered gathering sent 0 4 two_ranks 2097152 (
    exec gathering sent 0
      (all_gather machine two_ranks 2097152
        (create_plan thousandths defaults (2097152 * 4) 500 true)).1
      blank)
all_gather-IsGathered_example =
    all_gather-IsGathered thousandths thousandths-laws gathering sent 0 machine two_ranks defaults
      500 true 2097152 blank
      (λ rank.
        (all_gather machine two_ranks 2097152
          (create_plan thousandths defaults (2097152 * 4) 500 true)).1)
      (λ _. gathering-laws) (λ rank h. refl) refl (omega arith) (omega arith) (omega arith)
      (gathered_ok (create_plan thousandths defaults (2097152 * 4) 500 true))

-- The sum over both ranks.
abbrev summed : (ℕ → Buffer ℕ) → Buffer ℕ
summed a i = a 0 i + a 1 i

abbrev scattering : Transfers ℕ
scattering = record {
  copy_accepted = λ to from bytes. true;
  whole_by_fast = λ n old k. summed sent (1 * (n * 4) + k);
  segments_by_fast = λ n stride old k. summed sent (1 * (stride * 4) + k);
  dense_by_fast = λ n m. record m { recv = λ k. summed m.dense (1 * (n * 4) + k) };
  whole_by_pcie = λ n old k. summed sent (1 * (n * 4) + k);
  segments_by_pcie = λ total stride old k.
      if leb (stride * 4) k then summed sent (1 * (total / 2 * 4) + k) else old k;
}

scattering-laws : ScatterLaws scattering summed sent 1 4 two_ranks
scattering-laws = record {
  copies = λ to from bytes. refl;
  reduced-elements = λ a b x y n k h same. rw (same 0 k h, same 1 k h) refl;
  whole_by_fast-at = λ n k old h. refl;
  whole_by_pcie-at = λ n k old h. refl;
  segments_by_fast-at = λ n stride k old h few. refl;
  segments_by_pcie-at = λ n stride k old low h.
      let go : leb (stride * 4) k ≡ true = ground (arith, low) in
      let half : n * 2 / 2 ≡ n = omega arith in rw (go, half) refl;
  segments_by_pcie-keeps = λ n stride k old low h.
      let go : leb (stride * 4) k ≡ false = ground (arith, low) in rw go refl;
  dense_by_fast-at = λ n k m h. refl;
}

scattered_ok : (plan : Plan) → is_ok (reduce_scatter machine two_ranks 2097152 plan).0 ≡ true
unfolding reduce_scatter scatter_launch scatter_dense is_ok merged_result supported_plan
    segments_fast_only segments_fallback segments_pcie_only has_dense owns_dense
    pcie_wait_for_user_input_if_needed
scattered_ok plan = ground arith

reduce_scatter-IsScattered_example : IsScattered scattering summed sent 1 4 two_ranks 2097152 (
    exec scattering sent 1
      (reduce_scatter machine two_ranks 2097152
        (create_plan thousandths defaults (2097152 * 4) 500 true)).1
      blank)
reduce_scatter-IsScattered_example =
    reduce_scatter-IsScattered thousandths thousandths-laws scattering summed sent 1 machine
      two_ranks defaults 500 true 2097152 blank
      (λ rank.
        (reduce_scatter machine two_ranks 2097152
          (create_plan thousandths defaults (2097152 * 4) 500 true)).1)
      (λ _. scattering-laws) (λ rank h. refl) refl (omega arith) (omega arith) (omega arith)
      (omega arith) (omega arith)
      (scattered_ok (create_plan thousandths defaults (2097152 * 4) 500 true))

abbrev halves : Plan
halves = record { fast_bytes = 4194304; pcie_bytes = 4194304; use_pcie = true }

-- A call that makes the PCIe stream or the host wait for the user's stream.
abbrev orders_input : List SegmentCall → Bool
orders_input [] = false
orders_input (on_stream input_wait ∷ calls) = true
orders_input (on_stream (synchronize fast) ∷ calls) = true
orders_input (_ ∷ calls) = orders_input calls

gather_ordered : orders_input (all_gather machine two_ranks 2097152 halves).1 ≡ true
unfolding all_gather gather_launch gather_dense supported_plan has_dense owns_dense dense_calls
    pcie_wait_for_user_input_if_needed
gather_ordered = refl

to_all_unordered : orders_input (all_to_all machine two_ranks 2097152 halves).1 ≡ false
unfolding all_to_all to_all_launch to_all_dense supported_plan has_dense owns_dense dense_calls
    pack_calls segments_waits pcie_complete_on_user_stream_if_needed
    sync_pcie_stream_before_callback_if_enabled dense_registered
to_all_unordered = refl
