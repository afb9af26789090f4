-- ===== src/Virtual/Segments/Tests/ToAll.antt =====
-- Two ranks that exchange, with backends that write exactly what they document.
use hy_link.Virtual.Segments.Copies.{Buffer, Transfers}
use hy_link.Prelude.{ℕ, ◌+◌, ◌*◌, ◌/◌, ◌%◌, true, ltb, leb, if◌then◌else◌}
use hy_link.Virtual.Segments.Tests.{sent}

-- Rank 1's segment of rank `i / w`.
abbrev swapped : ℕ → Buffer ℕ
swapped w i = sent (i / w) (1 * w + i % w)

abbrev exchanging : Transfers ℕ
exchanging = record {
  copy_accepted = λ to from bytes. true;
  whole_by_fast = λ n old. swapped (n * 4);
  segments_by_fast =
      λ n stride old i. if ltb (i % (stride * 4)) (n * 4) then swapped (stride * 4) i else old i;
  dense_by_fast =
      λ n m. record m { dense = λ j i. m.dense (i / (n * 4)) (j * (n * 4) + i % (n * 4)) };
  whole_by_pcie = λ total old. swapped (total / 2 * 4);
  segments_by_pcie = λ total stride old i.
      if leb (stride * 4) (i % (total / 2 * 4)) then swapped (total / 2 * 4) i else old i;
}
