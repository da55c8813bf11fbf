-- ===== src/Phys/Free.antt =====
-- free_pages clears the pages of its argument, and undoes alloc_pages.
use podumat_os.Prelude.{
  ℕ, zero, suc, ◌+◌, ◌-◌, ◌*◌, ◌/◌, ◌%◌, ◌^◌, ◌<◌, ◌≡◌, ◌≢◌, refl, inl, inr, Bool, true, false, ltb,
  leb, ◌==◌, if◌then◌else◌, length, ==_iff, Bool-cases, arith, ◌&&◌, ap, ◌∙◌, sym, u64,
}
use podumat_os.Phys.{
  Phys, bit_test, bit_clear, free_one, free_run, free_pages, alloc_pages, page_size,
}
use podumat_os.Phys.Bitmap.{bit_clear-IsBytes, length-bit_clear, bit_test-bit_clear, in_run}
use podumat_os.Phys.Count.{count_free, count_free_ext, count_free-le, count_free-bit_clear}
use podumat_os.Phys.Alloc.{IsReady, Allocates, alloc_pages-Allocates}

-- What freeing the pages `p` to `p + n` owes.
pub record Frees (s t : Phys) (p n : ℕ) : Type 0 where
  pub cleared :
      (q : ℕ)
      → bit_test t.bitmap q
        ≡ (if in_run p n q && ltb q s.total_pages then false else bit_test s.bitmap q)
  pub same_total : t.total_pages ≡ s.total_pages
  pub same_hint : t.last_alloc_page ≡ s.last_alloc_page
  pub keeps : IsReady t

module _ (s : Phys) (p : ℕ) (v : IsReady s) (pos : 0 < p) (inside : p < s.total_pages) where
  byte : p / 8 < length s.bitmap
  byte = omega (arith, v.covers)

  room : bit_test s.bitmap p ≡ true → s.free_pages < s.total_pages
  room e = omega (
    arith,
    v.counted,
    count_free-bit_clear s.bitmap p v.bytes byte s.total_pages inside e,
    count_free-le (bit_clear s.bitmap p) s.total_pages,
  )

  free_one-used :
      bit_test s.bitmap p ≡ true
      → IsReady (record s {
        bitmap = bit_clear s.bitmap p;
        free_pages = u64 (s.free_pages + 1);
        used_pages = u64 (s.used_pages + 2 ^ 64 - 1);
      })
  free_one-used e = record {
    ready = v.ready;
    bytes = bit_clear-IsBytes s.bitmap p v.bytes;
    covers = omega (arith, length-bit_clear s.bitmap p, v.covers);
    small = v.small;
    zero_used = ground (arith, bit_test-bit_clear s.bitmap p v.bytes 0 byte, v.zero_used);
    counted = omega (
      arith,
      v.counted,
      v.small,
      room e,
      count_free-bit_clear s.bitmap p v.bytes byte s.total_pages inside e,
    );
    balanced = omega (arith, v.balanced, v.small, room e);
  }

  free_one-Frees : Frees s (free_one s p) p 1
  unfolding free_one
  free_one-Frees = elim (Bool-cases (bit_test s.bitmap p)) [
    | inl used ↦ simp used (record {
      cleared = λ q. ground (arith, bit_test-bit_clear s.bitmap p v.bytes q byte);
      same_total = refl;
      same_hint = refl;
      keeps = free_one-used used;
    })
    | inr free ↦ simp free (record {
      cleared = λ q. elim (Bool-cases (p == q)) [
        | inl e ↦ ground (arith, free, ap (bit_test s.bitmap) ((==_iff p q).0 e))
        | inr e ↦ ground arith
      ];
      same_total = refl;
      same_hint = refl;
      keeps = v;
    })
  ]

pub free_run-Frees : (s : Phys) (p n : ℕ) → IsReady s → 0 < p → Frees s (free_run s p n) p n
unfolding free_run
free_run-Frees s p zero v pos = record {
  cleared = λ q. ground arith;
  same_total = refl;
  same_hint = refl;
  keeps = v;
}
free_run-Frees s p (suc n) v pos = elim (Bool-cases (leb s.total_pages p)) [
  | inl out ↦ simp out (record {
    cleared = λ q. ground (arith, out);
    same_total = refl;
    same_hint = refl;
    keeps = v;
  })
  | inr inside ↦
      let one = free_one-Frees s p v pos (ground arith) in
      let rest = free_run-Frees (free_one s p) (p + 1) n one.keeps (omega arith) in
      simp inside (record {
        cleared = λ q. ground (arith, one.cleared q, rest.cleared q, one.same_total);
        same_total = rest.same_total ∙ one.same_total;
        same_hint = rest.same_hint ∙ one.same_hint;
        keeps = rest.keeps;
      })
]

-- On an initialised allocator, for a page-aligned address above 0, exactly the pages of memory
-- among the `count` from that address become free, and the invariant holds again.
pub free_pages-Frees :
    (page count : ℕ) (s : Phys)
    → IsReady s
    → 0 < page
    → Frees s (free_pages (page * page_size) count s) page count
unfolding free_pages free_run
free_pages-Frees page count s v pos = elim (Bool-cases (count == 0)) [
  | inl nothing ↦
      let same : count ≡ 0 = (==_iff count 0).0 nothing in
      rw same (simp v.ready (free_run-Frees s page 0 v pos))
  | inr something ↦
      let aligned : (page * page_size % page_size == 0) ≡ true = ground arith in
      let start : page * page_size / page_size ≡ page = omega arith in
      simp (v.ready, something, aligned, start) (free_run-Frees s page count v pos)
]

-- A misaligned address is refused.
pub free_pages_misaligned :
    (phys count : ℕ) (s : Phys) → phys % page_size ≢ 0 → free_pages phys count s ≡ s
unfolding free_pages
free_pages_misaligned phys count s off = ground arith

page_back :
    (s t : Phys) (count p q : ℕ) {b : Bool}
    → Allocates s t count p
    → b ≡ (if in_run p count q && ltb q t.total_pages then false else bit_test t.bitmap q)
    → b ≡ bit_test s.bitmap q
page_back s t count p q a e = elim (Bool-cases (in_run p count q)) [
  | inl inside ↦ ground (
    arith,
    a.marked q,
    a.was_free q (ground (arith, inside)) (ground (arith, inside)),
    a.fits,
    a.same_total,
    e,
  )
  | inr outside ↦ ground (arith, a.marked q, e)
]

-- On an initialised allocator, giving back what an `alloc_pages` that did not fail has just
-- returned restores every page, and the counters.
pub free_pages-alloc_pages :
    (count : ℕ) (s : Phys)
    → IsReady s
    → 0 < (alloc_pages count s).0
    → let t = free_pages (alloc_pages count s).0 count (alloc_pages count s).1 in
      ((q : ℕ) → bit_test t.bitmap q ≡ bit_test s.bitmap q)
      × (t.free_pages ≡ s.free_pages)
      × (t.used_pages ≡ s.used_pages)
free_pages-alloc_pages count s v got = elim (alloc_pages-Allocates count s v) [
  | inl failed ↦ absurd (ground (arith, failed))
  | inr (p, address, a) ↦ rw address (restored p a)
]
  where
    t : Phys
    t = (alloc_pages count s).1

    restored :
        (p : ℕ)
        → Allocates s t count p
        → let u = free_pages (p * page_size) count t in
          ((q : ℕ) → bit_test u.bitmap q ≡ bit_test s.bitmap q)
          × (u.free_pages ≡ s.free_pages)
          × (u.used_pages ≡ s.used_pages)
    restored p a =
        let u = free_pages (p * page_size) count t in
        let f = free_pages-Frees p count t a.keeps a.positive in
        let pages : (q : ℕ)
            → bit_test (free_pages (p * page_size) count t).bitmap q ≡ bit_test s.bitmap q =
          λ q. page_back s t count p q a (f.cleared q) in
        let counts =
          count_free_ext (free_pages (p * page_size) count t).bitmap s.bitmap s.total_pages pages in
        let total = f.same_total ∙ a.same_total in
        let free = f.keeps.counted ∙ ap (count_free u.bitmap) total ∙ counts ∙ sym v.counted in
        (pages, free, omega (arith, free, f.keeps.balanced, v.balanced, total))

free_run-places : (s : Phys) (p n : ℕ) → (free_run s p n).hhdm_offset ≡ s.hhdm_offset
unfolding free_run free_one
free_run-places s p zero = refl
free_run-places s p (suc n) = elim (Bool-cases (leb s.total_pages p)) [
  | inl out ↦ simp out refl
  | inr inside ↦ simp inside (free_run-places (free_one s p) (p + 1) n ∙ ground arith)
]

-- `free_pages` does not move the mapping.
pub free_pages-hhdm_offset :
    (phys count : ℕ) (s : Phys) → (free_pages phys count s).hhdm_offset ≡ s.hhdm_offset
unfolding free_pages
free_pages-hhdm_offset phys count s = ground (arith, free_run-places s (phys / page_size) count)
