-- ===== src/Pccl/Layout/Tests.antt =====
-- A buffer of ten elements of four bytes in three chunks per segment, and witnesses.
use hy_link.Prelude.{◌≡◌, refl, [], ◌∷◌}
use hy_link.Pccl.Layout.{chunk_size_of, begin_elem, make_device_layout, for_chunks}

thirds : (make_device_layout 40 0 4 10 6 3 16).chunk_sizes ≡ 12 ∷ 12 ∷ 16 ∷ 12 ∷ 12 ∷ 16 ∷ []
unfolding make_device_layout for_chunks chunk_size_of begin_elem
thirds = refl
