-- ===== src/Heap/Creation.antt =====
-- How a call of create_region ends on a well-formed heap.
use podumat_os.Prelude.{
  ℕ, ◌+◌, ◌*◌, ◌^◌, ◌<◌, ◌≡◌, refl, ◌⊎◌, inl, inr, true, false, List, [], ◌∷◌, Option, some, ltb,
  ◌==◌, if◌then◌else◌, length, Bool-cases, arith, ap, subst, ◌∙◌, sym, u32,
}
use podumat_os.Phys.{Phys, page_size, add64, alloc_pages}
use podumat_os.Phys.Alloc.{Allocates, alloc_pages-Allocates, alloc_pages-hhdm_offset}
use podumat_os.Heap.Store.{Heap}
use podumat_os.Heap.{pages_for, link_region, region_alloc, create_region, tail_loop}
use podumat_os.Heap.Layout.{Layout}
use podumat_os.Heap.Grown.{Grows, fresh, grown-Layout}
use podumat_os.Heap.Create.{
  max_pages, pages_for_lem, Creates, NoPages, base, alone, behind, alone-Grows, tail, tail_found,
  behind-Grows,
}

-- The ways in which a call ends.
abbrev pub Creation : Heap → List ℕ → (ℕ → List ℕ) → (payload : ℕ) → Option (ℕ × Heap) → Type 0
Creation h rs bs payload o =
    ((o ≡ some (0, h)) × NoPages h payload)
    ⊎ ((r : ℕ) × (g : Heap) × (o ≡ some (r, g)) × Creates h g rs bs r payload)

module _ (fuel n m : ℕ) (h : Heap) (s : Phys) (got : (m == 0) ≡ false) where
  link_alone :
      (h.root == 0) ≡ true
      → link_region fuel n (m, record h { pages = s }) ≡ some (m, alone h s m n)
  unfolding link_region
  link_alone e = simp (got, e) refl

  link_behind :
      (t : ℕ)
      → (h.root == 0) ≡ false
      → tail_loop fuel (base h s m n) (base h s m n).root ≡ some t
      → link_region fuel n (m, record h { pages = s }) ≡ some (m, behind h s m n t)
  unfolding link_region
  link_behind t e found = simp (got, e, found) refl

module _ (fuel payload : ℕ) (h : Heap) (small : payload < 2 ^ 32) where
  abbrev n : ℕ
  n = pages_for payload

  too_large : ltb max_pages n ≡ true → create_region fuel payload h ≡ some (0, h)
  unfolding create_region
  too_large e = simp e refl

  called :
      (m : ℕ) (s : Phys)
      → ltb max_pages n ≡ false
      → region_alloc n h ≡ (m, record h { pages = s })
      → create_region fuel payload h ≡ link_region fuel n (m, record h { pages = s })
  unfolding create_region
  called m s fine e =
      let narrow : u32 n ≡ n = ground (arith, fine) in
      simp fine (ap (λ k. link_region fuel n (region_alloc k h)) narrow ∙ ap (link_region fuel n) e)

  no_pages : alloc_pages n h.pages ≡ (0, h.pages) → region_alloc n h ≡ (0, h)
  unfolding region_alloc
  no_pages e =
      ap
        (λ (r : ℕ × Phys).
          ((if r.0 == 0 then 0 else add64 r.0 r.1.hhdm_offset), record h { pages = r.1 }))
        e

  failed_link : link_region fuel n (0, h) ≡ some (0, h)
  unfolding link_region
  failed_link = ground arith

  module _ (rs : List ℕ) (bs : ℕ → List ℕ) (v : Layout h rs bs) (enough : length rs < fuel)
      (few : length rs + 1 < 2 ^ 64) (fine : ltb max_pages n ≡ false) (page : ℕ)
      (address : (alloc_pages n h.pages).0 ≡ page * page_size)
      (a : Allocates h.pages (alloc_pages n h.pages).1 n page) where
    abbrev s : Phys
    s = (alloc_pages n h.pages).1

    abbrev m : ℕ
    m = page * page_size + h.pages.hhdm_offset

    offset : s.hhdm_offset ≡ h.pages.hhdm_offset
    offset = alloc_pages-hhdm_offset n h.pages

    got_region : region_alloc n h ≡ (m, record h { pages = s })
    unfolding region_alloc
    got_region =
        let some_page : ((alloc_pages n h.pages).0 == 0) ≡ false =
          ground (arith, address, a.positive) in
        let sum : add64 (alloc_pages n h.pages).0 s.hhdm_offset ≡ m =
          omega (arith, address, offset, a.fits, v.backed.mapped) in
        simp some_page (ap (λ x. (x, record h { pages = s })) sum)

    narrow : n * page_size < 2 ^ 32
    narrow = ground (arith, fine)

    creates : (g : Heap) → Grows h g rs m page n → g.pages ≡ s → Creates h g rs bs m payload
    creates g k same = record {
      fresh_region = fresh h s rs bs v m page n a refl (pages_for_lem payload small).0;
      positive = omega (arith, a.positive);
      layout =
          grown-Layout h g rs bs v m page n k (subst (λ t. Allocates h.pages t n page) (sym same) a)
            (ap (λ (t : Phys). t.hhdm_offset) same ∙ offset) refl (pages_for_lem payload small).0
            narrow few;
      room = omega (arith, k.new_size, (pages_for_lem payload small).1);
      pages = record {
        page = page;
        address = refl;
        allocated = subst (λ t. Allocates h.pages t n page) (sym same) a;
      };
    }

-- With the pages from the allocator, the region is linked.
created :
    (fuel payload : ℕ) (h : Heap) (small : payload < 2 ^ 32) (rs : List ℕ) (bs : ℕ → List ℕ)
    (v : Layout h rs bs)
    → length rs < fuel
    → length rs + 1 < 2 ^ 64
    → ltb max_pages (pages_for payload) ≡ false
    → (page : ℕ) → (alloc_pages (pages_for payload) h.pages).0 ≡ page * page_size
    → Allocates h.pages (alloc_pages (pages_for payload) h.pages).1 (pages_for payload) page
    → Creation h rs bs payload (create_region fuel payload h)
created fuel payload h small [] bs v enough few fine page address a =
    let n = pages_for payload in
    let s = (alloc_pages n h.pages).1 in
    let m = page * page_size + h.pages.hhdm_offset in
    let got : (m == 0) ≡ false = ground (arith, a.positive) in
    let link = link_alone fuel n m h s got (ground (arith, v.chain)) in
    inr (
      m,
      alone h s m n,
      called fuel payload h small m s fine
            (got_region fuel payload h small [] bs v enough few fine page address a)
          ∙ link,
      creates fuel payload h small [] bs v enough few fine page address a (alone h s m n)
          (alone-Grows h s m n page
            (narrow fuel payload h small [] bs v enough few fine page address a)
            (omega (arith, a.positive)) v.chain)
          refl,
    )
created fuel payload h small (r ∷ rs) bs v enough few fine page address a =
    let n = pages_for payload in
    let s = (alloc_pages n h.pages).1 in
    let m = page * page_size + h.pages.hhdm_offset in
    let got : (m == 0) ≡ false = ground (arith, a.positive) in
    let pos : 0 < m = omega (arith, a.positive) in
    let thin = narrow fuel payload h small (r ∷ rs) bs v enough few fine page address a in
    let off = fresh h s (r ∷ rs) bs v m page n a refl (pages_for_lem payload small).0 in
    let t = tail h s m n page thin pos bs r rs v off in
    let found = tail_found h s m n page thin pos bs r rs v off fuel (omega (arith, enough)) in
    let link = link_behind fuel n m h s got t (ground (arith, v.chain.0, v.chain.1)) found in
    inr (
      m,
      behind h s m n t,
      called fuel payload h small m s fine
            (got_region fuel payload h small (r ∷ rs) bs v enough few fine page address a)
          ∙ link,
      creates fuel payload h small (r ∷ rs) bs v enough few fine page address a (behind h s m n t)
          (behind-Grows h s m n page thin pos bs r rs v off) refl,
    )

-- On a well-formed heap with fewer regions than the fuel, for a payload of 32 bits, `create_region`
-- ends: it returns 0 and changes nothing, since the region would have too many pages or the allocator
-- does not have them, or it returns a new region at the end of the list, empty and large enough, on
-- pages that were free, and the heap stays well-formed.
pub create_region-Creation :
    (fuel payload : ℕ) (h : Heap) (rs : List ℕ) (bs : ℕ → List ℕ)
    → payload < 2 ^ 32
    → Layout h rs bs
    → length rs < fuel
    → length rs + 1 < 2 ^ 64
    → Creation h rs bs payload (create_region fuel payload h)
create_region-Creation fuel payload h rs bs small v enough few =
    elim (Bool-cases (ltb max_pages (pages_for payload))) [
      | inl over ↦ inl (too_large fuel payload h small over, inl (ground (arith, over)))
      | inr fine ↦ elim (alloc_pages-Allocates (pages_for payload) h.pages v.backed.ready) [
        | inl failed ↦ inl (
          called fuel payload h small 0 h.pages fine (no_pages fuel payload h small failed)
              ∙ failed_link fuel payload h small,
          inr failed,
        )
        | inr (page, address, a) ↦
            created fuel payload h small rs bs v enough few fine page address a
      ]
    ]
