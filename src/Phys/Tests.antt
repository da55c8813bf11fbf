-- ===== src/Phys/Tests.antt =====
-- The theorems on phys.cpp at concrete states, and runs of its functions.
use podumat_os.Prelude.{
  ℕ, zero, suc, ◌*◌, ◌/◌, ◌%◌, ◌<◌, ◌≡◌, refl, ◌⊎◌, inl, true, [], ◌∷◌, none, some, arith,
}
use podumat_os.Prelude.Bytes.{bit_of_empty}
use podumat_os.Phys.{
  Phys, bit_test, bit_set, find_free_run, scan, scan_start, resume, finish, take_run, alloc_pages,
  free_pages, set_run, page_size,
}
use podumat_os.Phys.Bitmap.{IsBytes}
use podumat_os.Phys.Count.{count_free}
use podumat_os.Phys.Search.{FreeRun}
use podumat_os.Phys.Alloc.{IsReady, Allocates, alloc_pages-Allocates, alloc_pages-succeeds}
use podumat_os.Phys.Free.{Frees, free_pages-Frees, free_pages-alloc_pages}
use podumat_os.Phys.Clients.{asks, returns, serve_all, IsKept, serve_all-IsKept}
use podumat_os.Phys.Init.{Memmap, init, init_state, max_addr, reserve_bitmap_storage, candidate}
use podumat_os.Phys.Init.Offered.{IsMemmap}
use podumat_os.Phys.Init.Ready.{Boots, bitmap_bytes, init-Boots}

-- Sixteen pages, the first four in use; the search starts at page 6.
abbrev small : Phys
small = record {
  bitmap = 0x0f ∷ 0x00 ∷ [];
  bitmap_size = 2;
  total_pages = 16;
  free_pages = 12;
  used_pages = 4;
  hhdm_offset = 0;
  initialized = true;
  last_alloc_page = 6;
}

small-IsBytes : IsBytes small.bitmap
small-IsBytes zero = omega arith
small-IsBytes (suc zero) = omega arith
small-IsBytes (suc (suc i)) = omega arith

small-IsReady : IsReady small
unfolding count_free bit_test
small-IsReady = record {
  ready = refl;
  bytes = small-IsBytes;
  covers = omega arith;
  small = omega arith;
  zero_used = refl;
  counted = refl;
  balanced = refl;
}

alloc_pages_run : (alloc_pages 3 small).0 ≡ 6 * page_size
unfolding alloc_pages find_free_run scan_start scan resume finish take_run set_run bit_set bit_test
alloc_pages_run = refl

alloc_pages-Allocates_example :
    (alloc_pages 3 small ≡ (0, small))
    ⊎ ((p : ℕ) × ((alloc_pages 3 small).0 ≡ p * page_size)
        × Allocates small (alloc_pages 3 small).1 3 p)
alloc_pages-Allocates_example = alloc_pages-Allocates 3 small small-IsReady

eight_free : FreeRun small.bitmap 8 8
unfolding bit_test
eight_free q lo hi =
    let byte : q / 8 ≡ 1 = omega arith in rw byte (bit_of_empty (q % 8) (omega arith))

alloc_pages-succeeds_example : 0 < (alloc_pages 8 small).0
unfolding scan_start
alloc_pages-succeeds_example =
    alloc_pages-succeeds 8 8 small small-IsReady (omega arith) eight_free (omega arith)
      (inl (omega arith))

free_pages-Frees_example : Frees small (free_pages (2 * page_size) 4 small) 2 4
free_pages-Frees_example = free_pages-Frees 2 4 small small-IsReady (omega arith)

free_pages-alloc_pages_example :
    let t = free_pages (alloc_pages 3 small).0 3 (alloc_pages 3 small).1 in
    ((q : ℕ) → bit_test t.bitmap q ≡ bit_test small.bitmap q)
    × (t.free_pages ≡ 12)
    × (t.used_pages ≡ 4)
free_pages-alloc_pages_example =
    free_pages-alloc_pages 3 small small-IsReady (omega (arith, alloc_pages_run))

serve_all-IsKept_example : IsKept small (
    serve_all
      (record { allocator = small; held = [] })
      (asks 2 ∷ asks 3 ∷ returns 1 ∷ asks 20 ∷ returns 7 ∷ []))
serve_all-IsKept_example =
    serve_all-IsKept small (asks 2 ∷ asks 3 ∷ returns 1 ∷ asks 20 ∷ returns 7 ∷ []) small-IsReady

abbrev two_areas : Memmap
two_areas =
    some (record { base = 0; length = 0x9f000; kind = 0 })
    ∷ none
    ∷ some (record { base = 0x9f000; length = 0x1000; kind = 1 })
    ∷ some (record { base = 0x100000; length = 0x10000; kind = 0 })
    ∷ []

two_areas-IsMemmap : IsMemmap 0 two_areas
two_areas-IsMemmap = omega arith

two_areas_storage : reserve_bitmap_storage 0 two_areas (bitmap_bytes 0 two_areas) ≡ 0x100000
unfolding reserve_bitmap_storage candidate max_addr
two_areas_storage = refl

init-Boots_example :
    Boots 0 two_areas
      (reserve_bitmap_storage 0 two_areas (bitmap_bytes 0 two_areas))
      (bitmap_bytes 0 two_areas)
      (init 0 (some two_areas) 0 init_state)
unfolding max_addr
init-Boots_example =
    init-Boots 0 two_areas 0 two_areas-IsMemmap (omega arith) (omega (arith, two_areas_storage))
