-- ===== src/Heap/Malloc.antt =====
-- kmalloc: the size, and the search of the regions.
use podumat_os.Prelude.{
  ℕ, ◌+◌, ◌-◌, ◌^◌, ◌≤◌, ◌<◌, ◌≡◌, refl, true, false, List, ltb, ◌==◌, length, arith, subst, sym,
}
use podumat_os.Prelude.Members.{is_in}
use podumat_os.Heap.Store.{Heap}
use podumat_os.Heap.{align_up}
use podumat_os.Heap.Calls.{from_best, kmalloc}
use podumat_os.Heap.Whole.{IsHeap}
use podumat_os.Heap.Alloc.{Served, from_best-Served}

pub aligned : (size : ℕ) → size ≤ 2 ^ 32 - 16 → align_up size < 2 ^ 32
unfolding align_up
aligned size fits = omega (arith, fits)

kmalloc_at :
    (fuel size : ℕ) (h : Heap)
    → h.initialized ≡ true
    → 0 < size
    → size ≤ 2 ^ 32 - 16
    → kmalloc fuel size h ≡ from_best fuel (align_up size) size h
unfolding kmalloc
kmalloc_at fuel size h ready pos fits =
    let ask : (size == 0) ≡ false = ground (arith, pos) in
    let fine : ltb 0xFFFFFFFF (align_up size) ≡ false = ground (arith, aligned size fits) in
    simp (ready, ask, fine) refl

-- On an initialised well-formed heap with fewer regions than the fuel and no more blocks than the fuel
-- in a region, a call for 1 to 2 ^ 32 - 16 bytes returns a new block of the rounded size in a region
-- that has room, and the heap stays well-formed; if no region has room, it goes on to a new region.
pub kmalloc-Served :
    (fuel size : ℕ) (h : Heap) (rs : List ℕ) (bs : ℕ → List ℕ)
    → (v : IsHeap h rs bs) → (ready : h.initialized ≡ true) → 0 < size
    → (fits : size ≤ 2 ^ 32 - 16) → length rs < fuel
    → ((r : ℕ) → is_in r rs ≡ true → length (bs r) < fuel + 1)
    → Served fuel (align_up size) size h rs bs (kmalloc fuel size h)
kmalloc-Served fuel size h rs bs v ready pos fits enough short =
    subst (Served fuel (align_up size) size h rs bs) (sym (kmalloc_at fuel size h ready pos fits)) (
      from_best-Served fuel (align_up size) size h rs bs v (aligned size fits) (omega (arith, fits))
        enough short)
