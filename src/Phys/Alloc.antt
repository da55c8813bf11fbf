-- ===== src/Phys/Alloc.antt =====
-- The invariant of an initialised allocator, and alloc_pages against the set of used pages.
use podumat_os.Prelude.{
  ℕ, ◌+◌, ◌*◌, ◌^◌, ◌≤◌, ◌<◌, ◌≡◌, refl, ◌⊎◌, inl, inr, true, false, Option, none, some, ltb, ◌==◌,
  if◌then◌else◌, length, Bool-cases, Option-cases, arith, ap, subst, ◌∙◌, sym, u64,
}
use podumat_os.Phys.{
  Phys, bit_test, set_run, find_free_run, scan_start, take_run, alloc_pages, page_size,
}
use podumat_os.Phys.Bitmap.{IsBytes, set_run-IsBytes, length-set_run, bit_test-set_run, in_run}
use podumat_os.Phys.Search.{FreeRun, find_free_run-FreeRun, find_free_run-misses}
use podumat_os.Phys.Count.{count_free, count_free-set_run, FreeRun-le-count_free}

-- The bitmap has a byte for every eight pages, page 0 is in use, and the counters agree with it.
-- 2 ^ 52 pages fill the 64-bit address space.
pub record IsReady (s : Phys) : Type 0 where
  pub ready : s.initialized ≡ true
  pub bytes : IsBytes s.bitmap
  pub covers : s.total_pages ≤ 8 * length s.bitmap
  pub small : s.total_pages ≤ 2 ^ 52
  pub zero_used : bit_test s.bitmap 0 ≡ true
  pub counted : s.free_pages ≡ count_free s.bitmap s.total_pages
  pub balanced : s.used_pages + s.free_pages ≡ s.total_pages

-- What a successful call owes: `count` free pages from `p` become used, and nothing else changes.
pub record Allocates (s t : Phys) (count p : ℕ) : Type 0 where
  pub positive : 0 < p
  pub fits : p + count ≤ s.total_pages
  pub was_free : FreeRun s.bitmap p count
  pub marked :
      (q : ℕ) → bit_test t.bitmap q ≡ (if in_run p count q then true else bit_test s.bitmap q)
  pub fewer : t.free_pages + count ≡ s.free_pages
  pub same_total : t.total_pages ≡ s.total_pages
  pub keeps : IsReady t

take_run-Allocates :
    (s : Phys) (count p : ℕ)
    → IsReady s
    → 0 < count
    → FreeRun s.bitmap p count
    → p + count ≤ s.total_pages
    → Allocates s (take_run s count (some p)).1 count p
unfolding take_run
take_run-Allocates s count p v pos free fits = record {
  positive = elim (Bool-cases (p == 0)) [
    | inl e ↦ absurd (cc (sym v.zero_used ∙ free 0 (ground arith) (ground arith)))
    | inr h ↦ ground arith
  ];
  fits = fits;
  was_free = free;
  marked = λ q. bit_test-set_run s.bitmap p count q v.bytes (omega (arith, v.covers));
  fewer = omega (arith, enough, v.balanced, v.small);
  same_total = refl;
  keeps = record {
    ready = v.ready;
    bytes = set_run-IsBytes s.bitmap p count v.bytes;
    covers = omega (arith, length-set_run s.bitmap p count, v.covers);
    small = v.small;
    zero_used =
        ground (
          arith,
          bit_test-set_run s.bitmap p count 0 v.bytes (omega (arith, v.covers)),
          v.zero_used,
        );
    counted = omega (arith, enough, v.balanced, v.small, v.counted, taken);
    balanced = omega (arith, enough, v.balanced, v.small);
  };
}
  where
    enough : count ≤ s.free_pages
    enough =
        omega (arith, v.counted, FreeRun-le-count_free s.bitmap p count s.total_pages free fits)

    taken :
        count_free s.bitmap s.total_pages
        ≡ count_free (set_run s.bitmap p count) s.total_pages + count
    taken =
        count_free-set_run s.bitmap p count s.total_pages v.bytes (omega (arith, v.covers)) fits
          free

searched :
    (count : ℕ) (s : Phys) (o : Option ℕ)
    → s.initialized ≡ true
    → (count == 0) ≡ false
    → ltb s.free_pages count ≡ false
    → find_free_run s count s.last_alloc_page ≡ o
    → alloc_pages count s ≡ take_run s count o
unfolding alloc_pages
searched count s o ready some_wanted enough hit =
    simp (ready, some_wanted, enough) (ap (take_run s count) hit)

address :
    (p : ℕ) {count total : ℕ}
    → 0 < count
    → p + count ≤ total
    → total ≤ 2 ^ 52
    → u64 (p * page_size) ≡ p * page_size
address p pos fits small = omega arith

-- On an initialised allocator `alloc_pages` either returns 0 and leaves the state alone, or returns
-- the address of a page above 0 from which on `count` pages inside the memory were free; these are
-- then marked as used and no other page changes, the counter of free pages falls by `count`, and
-- the invariant holds again.
pub alloc_pages-Allocates :
    (count : ℕ) (s : Phys)
    → IsReady s
    → (alloc_pages count s ≡ (0, s))
      ⊎ ((p : ℕ) × ((alloc_pages count s).0 ≡ p * page_size)
          × Allocates s (alloc_pages count s).1 count p)
unfolding alloc_pages take_run
alloc_pages-Allocates count s v = elim (Bool-cases (count == 0)) [
  | inl none_wanted ↦ inl (simp (v.ready, none_wanted) refl)
  | inr some_wanted ↦ elim (Bool-cases (ltb s.free_pages count)) [
    | inl few ↦ inl (simp (v.ready, some_wanted, few) refl)
    | inr enough ↦ elim (Option-cases (find_free_run s count s.last_alloc_page)) [
      | inl missed ↦ inl (searched count s none v.ready some_wanted enough missed)
      | inr (p, hit) ↦
          let (free, fits) = find_free_run-FreeRun s count s.last_alloc_page v.zero_used hit in
          let done = take_run-Allocates s count p v (ground arith) free fits in
          let runs = searched count s (some p) v.ready some_wanted enough hit in
          inr (
            p,
            ap (λ (r : ℕ × Phys). r.0) runs ∙ address p (ground arith) fits v.small,
            subst (λ (r : ℕ × Phys). Allocates s r.1 count p) (sym runs) done,
          )
    ]
  ]
]

-- On an initialised allocator `alloc_pages` of more than 0 pages does not fail while a free run of
-- that many pages of memory lies on one side of the page where its search starts.
pub alloc_pages-succeeds :
    (count q : ℕ) (s : Phys)
    → IsReady s
    → 0 < count
    → FreeRun s.bitmap q count
    → q + count ≤ s.total_pages
    → (scan_start s s.last_alloc_page ≤ q) ⊎ (q + count ≤ scan_start s s.last_alloc_page)
    → 0 < (alloc_pages count s).0
unfolding take_run
alloc_pages-succeeds count q s v pos free fits side =
    elim (Option-cases (find_free_run s count s.last_alloc_page)) [
      | inl missed ↦
          absurd (find_free_run-misses s count s.last_alloc_page q pos missed fits side free)
      | inr (p, hit) ↦
          let (free', fits') = find_free_run-FreeRun s count s.last_alloc_page v.zero_used hit in
          let done = take_run-Allocates s count p v pos free' fits' in
          rw (searched count s (some p) v.ready (ground arith) enough hit)
            (omega (arith, v.small, done.positive))
    ]
  where
    enough : ltb s.free_pages count ≡ false
    enough =
        ground (arith, v.counted, FreeRun-le-count_free s.bitmap q count s.total_pages free fits)

take_run-hhdm_offset :
    (count : ℕ) (s : Phys) (o : Option ℕ) → (take_run s count o).1.hhdm_offset ≡ s.hhdm_offset
unfolding take_run
take_run-hhdm_offset count s none = refl
take_run-hhdm_offset count s (some p) = refl

-- `alloc_pages` does not move the mapping.
pub alloc_pages-hhdm_offset :
    (count : ℕ) (s : Phys) → (alloc_pages count s).1.hhdm_offset ≡ s.hhdm_offset
unfolding alloc_pages
alloc_pages-hhdm_offset count s =
    ground (arith, take_run-hhdm_offset count s (find_free_run s count s.last_alloc_page))
