-- ===== src/Phys/Init/Ready.antt =====
-- phys::init establishes the allocator's invariant, and frees the usable pages and no others.
use podumat_os.Prelude.{
  ℕ, ◌-◌, ◌*◌, ◌/◌, ◌%◌, ◌^◌, ◌≤◌, ◌<◌, ◌≡◌, ◌≢◌, refl, inl, inr, Bool, true, false, not, [], ◌∷◌,
  none, some, ltb, length, Bool-cases, ne→==, arith, ◌||◌, ◌∙◌, sym, subst, replicate,
}
use podumat_os.Prelude.Bytes.{bit_of_full}
use podumat_os.Prelude.{get_or-replicate, get_or_past, length-replicate}
use podumat_os.Phys.{Phys, page_size, add64, bit_test}
use podumat_os.Phys.Bitmap.{IsBytes, in_run}
use podumat_os.Phys.Count.{count_free_full}
use podumat_os.Phys.Alloc.{IsReady}
use podumat_os.Phys.Init.Marks.{IsSound, keep_run-Marks}
use podumat_os.Phys.Init.Offered.{offered, IsMemmap, mark_usable-Marks}
use podumat_os.Phys.Init.Top.{IsTotal, max_addr-le, max_addr-IsTotal}
use podumat_os.Phys.Init.{
  Memmap, max_addr, reserve_bitmap_storage, mark_usable, fill, place, init, pages_up, init_state,
}

blank_bits : (size q : ℕ) → q < 8 * size → bit_test (replicate size 0xff) q ≡ true
unfolding bit_test
blank_bits size q h =
    rw (get_or-replicate {A = ℕ} size (q / 8) 255 0 (omega arith))
      (bit_of_full (q % 8) (omega arith))

blank-IsBytes : (size : ℕ) → IsBytes (replicate size 0xff)
blank-IsBytes size i = elim (Bool-cases (ltb i size)) [
  | inl h ↦ ground (arith, get_or-replicate {A = ℕ} size i 255 0)
  | inr h ↦
      ground
        (arith, get_or_past {A = ℕ} (replicate size 255) i 0, length-replicate {A = ℕ} size 255)
]

-- After `memset(g_bitmap, 0xFF, …)`.
abbrev blank : Phys → Phys
blank s = record s {
  bitmap = replicate s.bitmap_size 0xff;
  free_pages = 0;
  used_pages = s.total_pages;
}

blank-IsSound :
    (s : Phys) → s.total_pages ≤ 8 * s.bitmap_size → s.total_pages ≤ 2 ^ 52 → IsSound (blank s)
blank-IsSound s covers small = record {
  bytes = blank-IsBytes s.bitmap_size;
  covers = omega (arith, length-replicate {A = ℕ} s.bitmap_size 255);
  small = small;
  counted = sym (
      count_free_full (replicate s.bitmap_size 255) s.total_pages
        (λ q h. blank_bits s.bitmap_size q (omega arith)));
  balanced = omega arith;
}

-- The pages that hold the bitmap itself.
pub own_page : ℕ → ℕ → ℕ → Bool
own_page at size = in_run (at / page_size) (pages_up (add64 at size) - at / page_size)

module _ (usable : ℕ) where
  -- What boot owes: the invariant, as many pages as it takes to hold every usable entry, all offered
  -- pages among them, and a page is free just if the map offers it and the bitmap does not lie in it.
  pub record Boots (memmap : Memmap) (at size : ℕ) (t : Phys) : Type 0 where
    pub keeps : IsReady t
    pub total : IsTotal usable memmap t.total_pages
    pub pages :
        (q : ℕ)
        → q < t.total_pages
        → bit_test t.bitmap q ≡ (own_page at size q || not (offered usable memmap q))

  offered_zero : (memmap : Memmap) → offered usable memmap 0 ≡ false
  unfolding offered
  offered_zero [] = refl
  offered_zero (none ∷ rest) = offered_zero rest
  offered_zero (some e ∷ rest) = ground (arith, offered_zero rest)

  fill-Boots :
      (s : Phys) (memmap : Memmap) (at : ℕ)
      → IsMemmap usable memmap
      → 0 < s.total_pages
      → s.total_pages ≤ 8 * s.bitmap_size
      → s.total_pages ≤ 2 ^ 52
      → IsTotal usable memmap s.total_pages
      → Boots memmap at s.bitmap_size (fill usable s memmap at)
  unfolding fill own_page
  fill-Boots s memmap at m pos covers small ends =
      let full = λ (q : ℕ) (h : q < s.total_pages). blank_bits s.bitmap_size q (omega arith) in
      let one =
        mark_usable-Marks usable (blank s) memmap (blank-IsSound s covers small) m
          (λ q off h. full q h) in
      let two =
        keep_run-Marks (mark_usable usable (blank s) memmap) (at / page_size)
          (pages_up (add64 at s.bitmap_size) - at / page_size) one.sound in
      let total : (fill usable s memmap at).total_pages ≡ s.total_pages =
        two.same_total ∙ one.same_total in
      record {
        keeps = record {
          ready = refl;
          bytes = two.sound.bytes;
          covers = two.sound.covers;
          small = two.sound.small;
          zero_used =
              ground (arith, two.pages 0, one.pages 0, offered_zero memmap, full 0 pos, pos);
          counted = two.sound.counted;
          balanced = two.sound.balanced;
        };
        total = subst (IsTotal usable memmap) (sym total) ends;
        pages = λ q h.
            ground (
              arith,
              two.pages q,
              one.pages q,
              full q (omega (arith, total)),
              total,
              one.same_total,
            );
      }

  -- The number of pages that `init` tracks, and the size of its bitmap in bytes.
  abbrev pub tracked : Memmap → ℕ
  tracked memmap = pages_up (max_addr usable 0 memmap)

  abbrev pub bitmap_bytes : Memmap → ℕ
  bitmap_bytes memmap = add64 (tracked memmap) 7 / 8

  -- From the initial state, for a memory map as the boot protocol promises with some usable memory
  -- and room for the bitmap, `init` establishes the invariant, tracks the least number of pages that
  -- holds every usable entry, so that each offered page is tracked, and a tracked page is free exactly
  -- when the map offers it and the bitmap does not lie in it.
  pub init-Boots :
      (memmap : Memmap) (hhdm : ℕ)
      → IsMemmap usable memmap
      → max_addr usable 0 memmap ≢ 0
      → reserve_bitmap_storage usable memmap (bitmap_bytes memmap) ≢ 0
      → Boots memmap
          (reserve_bitmap_storage usable memmap (bitmap_bytes memmap))
          (bitmap_bytes memmap)
          (init usable (some memmap) hhdm init_state)
  unfolding init init_state place max_addr
  init-Boots [] hhdm m top room = absurd (top refl)
  init-Boots (o ∷ rest) hhdm m top room =
      let small = max_addr-le usable 0 (o ∷ rest) m (omega arith) in
      let pos : 0 < max_addr usable 0 (o ∷ rest) = omega arith in
      simp
        (
          ne→== (length (o ∷ rest)) 0 (omega arith),
          ne→== (max_addr usable 0 (o ∷ rest)) 0 top,
          ne→== (tracked (o ∷ rest)) 0 (omega arith),
          ne→== _ 0 room,
        )
        (fill-Boots
          (record init_state {
            hhdm_offset = hhdm;
            total_pages = tracked (o ∷ rest);
            bitmap_size = bitmap_bytes (o ∷ rest);
          })
          (o ∷ rest) (reserve_bitmap_storage usable (o ∷ rest) (bitmap_bytes (o ∷ rest))) m
          (omega arith) (omega arith) (omega arith) (max_addr-IsTotal usable (o ∷ rest) m pos))
