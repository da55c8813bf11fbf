-- ===== src/Heap/Tests.antt =====
-- A heap with one region at 0x20000 that holds two blocks, of 64 and of 32 bytes, with a gap of 512
-- bytes between them.
use podumat_os.Prelude.{
  ℕ, ◌+◌, ◌≡◌, refl, inr, true, List, [], ◌∷◌, Option, some, ◌==◌, if◌then◌else◌, arith, sym, subst,
  ◌∙◌,
}
use podumat_os.Prelude.Members.{is_in, erase}
use podumat_os.Phys.{Phys, bit_test}
use podumat_os.Heap.Store.{Region, Block, Heap, block_header, block_magic}
use podumat_os.Heap.{
  align_up, place_block, place_last, place_only, create_region, link_region, pages_for,
  region_alloc, best_loop, refresh_best_hint, tail_loop,
}
use podumat_os.Phys.{
  alloc_pages, find_free_run, scan_start, scan, resume, finish, take_run, set_run, bit_set,
}
use podumat_os.Heap.Calls.{kmalloc, kfree, from_best, region_loop, from_new, place_new, refreshed}
use podumat_os.Heap.Sums.{taken}
use podumat_os.Heap.Place.{IsRegion}
use podumat_os.Heap.Search.{Placing, place_block-Placing}
use podumat_os.Heap.Whole.{IsHeap, without}
use podumat_os.Heap.Opened.{Allocation, kmalloc-Allocation}
use podumat_os.Heap.Owned.{Owned}
use podumat_os.Phys.Bitmap.{IsBytes}
use podumat_os.Phys.Count.{count_free}
use podumat_os.Phys.Alloc.{IsReady}
use podumat_os.Prelude.Bytes.{bit_of_full}
use podumat_os.Prelude.{inl, inr, zero, suc, ◌≤◌, ◌<◌, ◌/◌, ◌%◌, Bool-cases, ==_iff}
use podumat_os.Heap.Free.{rest, kfree-IsHeap, kfree_twice}

-- 64 pages, of which page 0 and the 16 pages of the region are in use.
abbrev some_pages : Phys
some_pages = record {
  bitmap = 0x01 ∷ 0x00 ∷ 0xff ∷ 0xff ∷ 0x00 ∷ 0x00 ∷ 0x00 ∷ 0x00 ∷ [];
  bitmap_size = 8;
  total_pages = 64;
  free_pages = 47;
  used_pages = 17;
  hhdm_offset = 0x10000;
  initialized = true;
  last_alloc_page = 32;
}

abbrev base : ℕ
base = 0x20000

abbrev low : ℕ
low = 0x20030

abbrev high : ℕ
high = 0x202A0

abbrev a_block : (prev next size : ℕ) → Block
a_block prev next size = record {
  prev = prev;
  next = next;
  region = base;
  magic = block_magic;
  size = size;
  req_size = size;
}

abbrev the_region : Region
the_region = record { prev = 0; next = 0; first = low; pages = 16; size = 65536; usage = 240 }

abbrev heap : Heap
heap = record {
  root = base;
  best = base;
  initialized = true;
  total_region_bytes = 65536;
  in_use_bytes = 96;
  peak_in_use_bytes = 96;
  region_count = 1;
  live_allocations = 2;
  regions = λ x. the_region;
  blocks = λ x. if x == low then a_block 0 high 64 else a_block low 0 32;
  bytes = λ x. 0;
  pages = some_pages;
}

abbrev two_blocks : ℕ → List ℕ
two_blocks r = low ∷ high ∷ []

heap-IsRegion : IsRegion heap base (two_blocks base)
unfolding taken
heap-IsRegion = record {
  linked = ground arith;
  used = refl;
  placed = ground arith;
  high = ground arith;
  short = ground arith;
}

one_region : (x : ℕ) → is_in x (base ∷ []) ≡ true → base ≡ x
unfolding is_in
one_region x at = ground (arith, at)

IsBytes-small : IsBytes some_pages.bitmap
IsBytes-small zero = omega arith
IsBytes-small (suc zero) = omega arith
IsBytes-small (suc (suc zero)) = omega arith
IsBytes-small (suc (suc (suc zero))) = omega arith
IsBytes-small (suc (suc (suc (suc zero)))) = omega arith
IsBytes-small (suc (suc (suc (suc (suc zero))))) = omega arith
IsBytes-small (suc (suc (suc (suc (suc (suc zero)))))) = omega arith
IsBytes-small (suc (suc (suc (suc (suc (suc (suc zero))))))) = omega arith
IsBytes-small (suc (suc (suc (suc (suc (suc (suc (suc i)))))))) = omega arith

pages-IsReady : IsReady some_pages
unfolding bit_test count_free
pages-IsReady = record {
  ready = refl;
  bytes = IsBytes-small;
  covers = ground arith;
  small = ground arith;
  zero_used = refl;
  counted = refl;
  balanced = refl;
}

in_use : (q : ℕ) → 16 ≤ q → q < 16 + 16 → bit_test some_pages.bitmap q ≡ true
unfolding bit_test
in_use q from to = elim (Bool-cases (q / 8 == 2)) [
  | inl second ↦
      let byte : q / 8 ≡ 2 = (==_iff (q / 8) 2).0 second in
      rw byte (bit_of_full (q % 8) (omega arith))
  | inr third ↦
      let byte : q / 8 ≡ 3 = ground (arith, third) in rw byte (bit_of_full (q % 8) (omega arith))
]

base-Owned : Owned heap base
base-Owned = record {
  page = 16;
  address = refl;
  positive = ground arith;
  some_pages = ground arith;
  sized = refl;
  inside = ground arith;
  used = in_use;
}

heap-IsHeap : IsHeap heap (base ∷ []) two_blocks
unfolding is_in
heap-IsHeap = record {
  layout = record {
    chain = ground arith;
    region = λ x at. subst (λ r. IsRegion heap r (two_blocks r)) (one_region x at) heap-IsRegion;
    apart = λ x y xin yin ne. absurd (ne (sym (one_region x xin) ∙ one_region y yin));
    counted = refl;
    few = ground arith;
    backed = record {
      ready = pages-IsReady;
      mapped = ground arith;
      owned = λ x at. subst (Owned heap) (one_region x at) base-Owned;
    };
  };
  full = λ x at e. absurd (cc e);
  hint = inr refl;
}

place_block-Placing_example :
    Placing heap base 256 250 (two_blocks base) (place_block base 256 250 2 heap)
place_block-Placing_example =
    place_block-Placing base 256 250 heap (ground arith) (ground arith) (two_blocks base) 2
      heap-IsRegion (λ e. absurd (cc e)) (ground arith)

kmalloc-Allocation_example :
    Allocation heap (base ∷ []) two_blocks (align_up 250) 250 (kmalloc 3 250 heap)
kmalloc-Allocation_example =
    kmalloc-Allocation 3 250 heap (base ∷ []) two_blocks heap-IsHeap refl (ground arith)
      (ground arith) (ground arith) (ground arith) (λ r at. ground arith)

kfree-IsHeap_example :
    (g : Heap) × (kfree 2 (high + block_header) heap ≡ some g)
    × IsHeap g (rest base (erase high (two_blocks base)) (base ∷ [])) (without high base two_blocks)
unfolding is_in
kfree-IsHeap_example =
    kfree-IsHeap 2 heap (base ∷ []) two_blocks heap-IsHeap base high refl refl (ground arith)

kfree_twice_example :
    (g : Heap) × (kfree 2 (high + block_header) heap ≡ some g)
    × (kfree 2 (high + block_header) g ≡ some g)
unfolding is_in
kfree_twice_example =
    kfree_twice 2 heap (base ∷ []) two_blocks heap-IsHeap base high refl refl (ground arith)

-- The address that a call returns, and 0 where it runs out of fuel.
abbrev pointer : Option (ℕ × Heap) → ℕ
pointer Option.none = 0
pointer (Option.some (p, g)) = p

-- The gap takes 250 bytes, and the space behind the last block takes 600.
gap_taken : pointer (kmalloc 2 250 heap) ≡ 0x200D0
unfolding kmalloc from_best place_block align_up
gap_taken = refl

end_taken : pointer (kmalloc 2 600 heap) ≡ 0x20320
unfolding kmalloc from_best place_block align_up place_last
end_taken = refl

-- No gap takes 65536 bytes: a new region opens on 17 pages, from page 32 on.
region_opened : pointer (kmalloc 3 65536 heap) ≡ 0x30060
unfolding kmalloc from_best region_loop from_new place_new refreshed create_region link_region
    pages_for region_alloc place_block align_up place_only best_loop refresh_best_hint tail_loop
    alloc_pages find_free_run scan_start scan resume finish take_run set_run bit_set bit_test
region_opened = refl
