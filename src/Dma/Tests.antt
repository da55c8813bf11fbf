-- ===== src/Dma/Tests.antt =====
-- The theorem on dma.cpp at a small allocator.
use podumat_os.Prelude.{zero, suc, ◌≡◌, refl, ◌⊎◌, true, [], ◌∷◌, arith}
use podumat_os.Phys.{Phys, bit_test}
use podumat_os.Phys.Bitmap.{IsBytes}
use podumat_os.Phys.Count.{count_free}
use podumat_os.Phys.Alloc.{IsReady}
use podumat_os.Dma.{Dma, alloc}
use podumat_os.Dma.Buffers.{IsBuffer, alloc-IsBuffer}

-- Sixteen pages, the first four in use.
abbrev pages : Phys
pages = record {
  bitmap = 0x0f ∷ 0x00 ∷ [];
  bitmap_size = 2;
  total_pages = 16;
  free_pages = 12;
  used_pages = 4;
  hhdm_offset = 0xffff800000000000;
  initialized = true;
  last_alloc_page = 0;
}

pages-IsBytes : IsBytes pages.bitmap
pages-IsBytes zero = omega arith
pages-IsBytes (suc zero) = omega arith
pages-IsBytes (suc (suc i)) = omega arith

pages-IsReady : IsReady pages
unfolding count_free bit_test
pages-IsReady = record {
  ready = refl;
  bytes = pages-IsBytes;
  covers = omega arith;
  small = omega arith;
  zero_used = refl;
  counted = refl;
  balanced = refl;
}

abbrev buffers : Dma
buffers = record {
  hhdm_offset = 0xffff800000000000;
  phys_base = 0x100000;
  size = 0x8000;
  ready = true;
}

alloc-IsBuffer_example :
    (alloc 5000 64 buffers pages ≡ (0, pages))
    ⊎ IsBuffer buffers pages 5000 (alloc 5000 64 buffers pages).0 (alloc 5000 64 buffers pages).1
alloc-IsBuffer_example =
    alloc-IsBuffer buffers pages pages-IsReady (omega arith) 5000 64 (omega arith)
