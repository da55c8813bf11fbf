-- ===== src/Dma/Buffers.antt =====
-- A buffer: its pages were free, they hold it, and `map` gives its physical address back.
use podumat_os.Prelude.{
  ℕ, ◌+◌, ◌-◌, ◌*◌, ◌/◌, ◌^◌, ◌≤◌, ◌<◌, ◌≡◌, refl, ◌⊎◌, inl, inr, not, ltb, ◌==◌, ◌||◌,
  if◌then◌else◌, Bool-cases, arith, ap, u64,
}
use podumat_os.Phys.{Phys, page_size, alloc_pages}
use podumat_os.Phys.Alloc.{IsReady, Allocates, alloc_pages-Allocates}
use podumat_os.Dma.{Dma, in_hhdm, alloc, map}

-- A buffer of `size` bytes at `at`: pages from `p` on, `count` of them.
abbrev pub IsBuffer : Dma → Phys → (size at : ℕ) → Phys → Type 0
IsBuffer d s size at t =
    (p : ℕ) × (count : ℕ) × Allocates s t count p
    × (size ≤ count * page_size)
    × (count * page_size < size + page_size)
    × (at ≡ d.hhdm_offset + p * page_size)
    × (map d at ≡ p * page_size)

module _ (d : Dma) (s : Phys) (v : IsReady s)
    (fits : d.hhdm_offset + s.total_pages * page_size < 2 ^ 64) where
  located :
      (size count : ℕ) (r : ℕ × Phys)
      → size ≤ count * page_size
      → count * page_size < size + page_size
      → (r ≡ (0, s)) ⊎ ((p : ℕ) × (r.0 ≡ p * page_size) × Allocates s r.1 count p)
      → (in_hhdm d r ≡ (0, s)) ⊎ IsBuffer d s size (in_hhdm d r).0 (in_hhdm d r).1
  unfolding in_hhdm map
  located size count r big tight (inl none_left) = inl (ap (in_hhdm d) none_left)
  located size count r big tight (inr (p, at, got)) =
      let where_it_is : (in_hhdm d r).0 ≡ d.hhdm_offset + p * page_size =
        ground (arith, at, got.positive, got.fits) in
      inr (p, count, got, big, tight, where_it_is, ground (arith, where_it_is, at, got.positive))

  -- On an initialised page allocator whose memory stays below 2 ^ 64 when it is mapped, for a size
  -- below 2 ^ 63, `alloc` returns 0 and changes nothing, or a buffer in pages that were free: they
  -- are as few as hold its size, it starts on the first of them, and `map` gives their physical
  -- address.
  pub alloc-IsBuffer :
      (size alignment : ℕ)
      → size < 2 ^ 63
      → (alloc size alignment d s ≡ (0, s))
        ⊎ IsBuffer d s size (alloc size alignment d s).0 (alloc size alignment d s).1
  unfolding alloc
  alloc-IsBuffer size alignment small = elim (Bool-cases (not d.ready || size == 0)) [
    | inl refused ↦ inl (simp refused refl)
    | inr wanted ↦ elim (Bool-cases (ltb page_size (if alignment == 0 then 1 else alignment))) [
      | inl coarse ↦ inl (simp (wanted, coarse) refl)
      | inr fine ↦
          simp (wanted, fine)
            (located size (u64 (size + page_size - 1) / page_size)
              (alloc_pages (u64 (size + page_size - 1) / page_size) s) (omega arith) (omega arith)
              (alloc_pages-Allocates (u64 (size + page_size - 1) / page_size) s v))
    ]
  ]
