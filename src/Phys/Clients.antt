-- ===== src/Phys/Clients.antt =====
-- Histories of callers that give back what they were given, against the set of the pages that they hold.
use podumat_os.Prelude.{
  ℕ, zero, suc, ◌+◌, ◌*◌, ◌/◌, ◌≤◌, ◌<◌, ◌≡◌, refl, inl, inr, true, false, ◌||◌, List, [], ◌∷◌,
  Option, none, some, ltb, ◌==◌, if◌then◌else◌, get_elem?, Bool-cases, Option-cases, arith, ap,
  subst, ◌∙◌, sym,
}
use podumat_os.Phys.{Phys, bit_test, alloc_pages, free_pages, page_size}
use podumat_os.Phys.Bitmap.{in_run}
use podumat_os.Phys.Count.{count_free, count_free_ext}
use podumat_os.Phys.Alloc.{IsReady, Allocates, alloc_pages-Allocates}
use podumat_os.Phys.Free.{free_pages-Frees}

-- The pages of one allocation.
pub record Run : Type 0 where
  pub page : ℕ
  pub count : ℕ

-- A caller asks for pages, or gives back the run at an index of those that are held.
pub data Request : Type 0 where
  asks : (count : ℕ) → Request
  returns : (index : ℕ) → Request

pub record Books : Type 0 where
  pub allocator : Phys
  pub held : List Run

abbrev pub remove : List Run → ℕ → List Run
remove [] k = []
remove (r ∷ rs) zero = rs
remove (r ∷ rs) (suc k) = r ∷ remove rs k

abbrev pub entered : (count : ℕ) → List Run → ℕ × Phys → Books
entered count held (a, s) = record {
  allocator = s;
  held = if a == 0 then held else record { page = a / page_size; count = count } ∷ held;
}

abbrev pub given_back : (index : ℕ) → Books → Option Run → Books
given_back index b none = b
given_back index b (some r) = record {
  allocator = free_pages (r.page * page_size) r.count b.allocator;
  held = remove b.held index;
}

-- A run is held under the address that alloc_pages returned, and given back with free_pages.
unfoldable pub serve : Books → Request → Books
serve b (asks count) = entered count b.held (alloc_pages count b.allocator)
serve b (returns index) = given_back index b (get_elem? b.held index)

unfoldable pub serve_all : Books → List Request → Books
serve_all b [] = b
serve_all b (r ∷ rs) = serve_all (serve b r) rs

-- How many of the held runs have the page.
abbrev pub holders : ℕ → List Run → ℕ
holders q [] = 0
holders q (r ∷ rs) = (if in_run r.page r.count q then 1 else 0) + holders q rs

-- The held runs against the allocator `s` that served first: no two of them share a page, none has a
-- page that was in use at first, and the pages in use are those and the held ones.
pub record IsKept (s : Phys) (b : Books) : Type 0 where
  pub ready : IsReady b.allocator
  pub same_total : b.allocator.total_pages ≡ s.total_pages
  pub alone : (q : ℕ) → holders q b.held ≤ 1
  pub was_free :
      (q : ℕ) → 0 < holders q b.held → (bit_test s.bitmap q ≡ false) × (q < s.total_pages)
  pub pages :
      (q : ℕ) → bit_test b.allocator.bitmap q ≡ (bit_test s.bitmap q || ltb 0 (holders q b.held))
  pub above_zero : (k : ℕ) (r : Run) → get_elem? b.held k ≡ some r → 0 < r.page

module _ (s : Phys) where
  opening-IsKept : IsReady s → IsKept s (record { allocator = s; held = [] })
  opening-IsKept v = record {
    ready = v;
    same_total = refl;
    alone = λ q. omega arith;
    was_free = λ q h. absurd (omega (arith, h));
    pages = λ q. ground arith;
    above_zero = λ k r e. absurd (cc e);
  }

  asked-IsKept :
      (b : Books) (t : Phys) (p count : ℕ)
      → IsKept s b
      → Allocates b.allocator t count p
      → IsKept s (record { allocator = t; held = record { page = p; count = count } ∷ b.held })
  asked-IsKept b t p count v a =
      let unheld : (q : ℕ)
          → in_run p count q ≡ true
          → (holders q b.held ≡ 0) × (bit_test s.bitmap q ≡ false) =
        (λ q here.
          let free : bit_test b.allocator.bitmap q ≡ false =
            a.was_free q (ground (arith, here)) (ground (arith, here)) in
          (ground (arith, free, v.pages q), ground (arith, free, v.pages q))) in
      record {
        ready = a.keeps;
        same_total = a.same_total ∙ v.same_total;
        alone = λ q. elim (Bool-cases (in_run p count q)) [
          | inl here ↦ simp here (omega (arith, (unheld q here).0))
          | inr other ↦ simp other (omega (arith, v.alone q))
        ];
        was_free = λ q h. elim (Bool-cases (in_run p count q)) [
          | inl here ↦ ((unheld q here).1, ground (arith, here, a.fits, v.same_total))
          | inr other ↦ v.was_free q (ground (arith, h, other))
        ];
        pages = λ q. elim (Bool-cases (in_run p count q)) [
          | inl here ↦ ground (arith, a.marked q, here)
          | inr other ↦ ground (arith, a.marked q, other, v.pages q)
        ];
        above_zero = above;
      }
    where
      above :
          (k : ℕ) (r : Run)
          → get_elem? (record { page = p; count = count } ∷ b.held) k ≡ some r
          → 0 < r.page
      above zero r e = subst (λ (o : Option Run). 0 < page_or o) e a.positive
        where
          page_or : Option Run → ℕ
          page_or none = 0
          page_or (some x) = x.page
      above (suc k) r e = v.above_zero k r e

same_run : (r x : Run) → some r ≡ some x → r ≡ x
same_run r x e = ap or_first e
  where
    or_first : Option Run → Run
    or_first none = r
    or_first (some y) = y

-- A run that is taken out of the list had its pages once.
holders-remove :
    (q k : ℕ) (r : Run) (held : List Run)
    → get_elem? held k ≡ some r
    → holders q held ≡ (if in_run r.page r.count q then 1 else 0) + holders q (remove held k)
holders-remove q k r [] e = absurd (cc e)
holders-remove q zero r (x ∷ xs) e =
    ap (λ (y : Run). (if in_run y.page y.count q then 1 else 0) + holders q xs) (same_run x r e)
holders-remove q (suc k) r (x ∷ xs) e = omega (arith, holders-remove q k r xs e)

-- What is left was there before.
get_elem?-remove :
    (k j : ℕ) (x : Run) (held : List Run)
    → get_elem? (remove held k) j ≡ some x
    → (i : ℕ) × (get_elem? held i ≡ some x)
get_elem?-remove k j x [] e = absurd (cc e)
get_elem?-remove zero j x (y ∷ ys) e = (suc j, e)
get_elem?-remove (suc k) zero x (y ∷ ys) e = (zero, e)
get_elem?-remove (suc k) (suc j) x (y ∷ ys) e =
    let (i, f) = get_elem?-remove k j x ys e in (suc i, f)

module _ (s : Phys) where
  returned-IsKept :
      (b : Books) (k : ℕ) (r : Run)
      → IsKept s b
      → get_elem? b.held k ≡ some r
      → IsKept s (given_back k b (some r))
  returned-IsKept b k r v e =
      let f = free_pages-Frees r.page r.count b.allocator v.ready (v.above_zero k r e) in
      let split = λ (q : ℕ). holders-remove q k r b.held e in
      record {
        ready = f.keeps;
        same_total = f.same_total ∙ v.same_total;
        alone = λ q. omega (arith, v.alone q, split q);
        was_free = λ q h. v.was_free q (omega (arith, h, split q));
        pages = λ q. elim (Bool-cases (in_run r.page r.count q)) [
          | inl here ↦
              let one : holders q b.held ≡ 1 + holders q (remove b.held k) =
                ground (arith, split q, here) in
              let (free, inside) = v.was_free q (omega (arith, one)) in
              ground (arith, f.cleared q, here, free, inside, v.same_total, one, v.alone q)
          | inr other ↦
              let same : holders q b.held ≡ holders q (remove b.held k) =
                ground (arith, split q, other) in
              ground (arith, f.cleared q, other, v.pages q, same)
        ];
        above_zero =
            λ j x g. let (i, was) = get_elem?-remove k j x b.held g in v.above_zero i x was;
      }

  entered-IsKept :
      (b : Books) (count : ℕ)
      → IsKept s b
      → IsKept s (entered count b.held (alloc_pages count b.allocator))
  entered-IsKept b count v = elim (alloc_pages-Allocates count b.allocator v.ready) [
    | inl failed ↦ subst (λ o. IsKept s (entered count b.held o)) (sym failed) v
    | inr (p, address, a) ↦
        let t = (alloc_pages count b.allocator).1 in
        let place : p * page_size / page_size ≡ p = omega arith in
        let some_page : (p * page_size == 0) ≡ false = ground (arith, a.positive) in
        subst (λ x. IsKept s (entered count b.held (x, t))) (sym address)
          (simp (some_page, place) (asked-IsKept s b t p count v a))
  ]

  serve-IsKept : (b : Books) (r : Request) → IsKept s b → IsKept s (serve b r)
  unfolding serve
  serve-IsKept b (asks count) v = entered-IsKept b count v
  serve-IsKept b (returns k) v = elim (Option-cases (get_elem? b.held k)) [
    | inl e ↦ simp e v
    | inr (r, e) ↦ simp e (returned-IsKept b k r v e)
  ]

  serve_all-IsKept_from : (b : Books) (rs : List Request) → IsKept s b → IsKept s (serve_all b rs)
  unfolding serve_all
  serve_all-IsKept_from b [] v = v
  serve_all-IsKept_from b (r ∷ rs) v = serve_all-IsKept_from (serve b r) rs (serve-IsKept b r v)

  -- After any sequence of calls of alloc_pages, and of free_pages for runs that are held, on an
  -- initialised allocator: the invariant holds, no page stands in two of the runs that are held, each of
  -- their pages was free at first and lies in memory, and the pages in use are those that were in use
  -- at first and those that are held.
  pub serve_all-IsKept :
      (rs : List Request)
      → IsReady s
      → IsKept s (serve_all (record { allocator = s; held = [] }) rs)
  serve_all-IsKept rs v =
      serve_all-IsKept_from (record { allocator = s; held = [] }) rs (opening-IsKept s v)

-- Once nothing is held, the allocator has as many free pages as at first.
pub all_back :
    (s : Phys) (b : Books)
    → IsReady s
    → IsKept s b
    → b.held ≡ []
    → b.allocator.free_pages ≡ s.free_pages
all_back s b v k none_held =
    k.ready.counted
    ∙ ap (count_free b.allocator.bitmap) k.same_total
    ∙ count_free_ext b.allocator.bitmap s.bitmap s.total_pages (λ q.
      let empty : holders q b.held ≡ 0 = ap (holders q) none_held in
      ground (arith, k.pages q, empty))
    ∙ sym v.counted
