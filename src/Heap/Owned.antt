-- ===== src/Heap/Owned.antt =====
-- The pages under the regions: each region stands on a run of pages that the allocator has in use.
use podumat_os.Prelude.{
  ℕ, ◌+◌, ◌*◌, ◌^◌, ◌≤◌, ◌<◌, ◌≡◌, ◌⊎◌, inl, inr, true, List, arith, ap, subst, ◌∙◌, sym,
}
use podumat_os.Prelude.Members.{is_in}
use podumat_os.Phys.{Phys, bit_test, page_size}
use podumat_os.Phys.Alloc.{IsReady}
use podumat_os.Heap.Store.{Heap}

-- The region at `r` is mapped from `page` on, and all its pages are in use.
pub record Owned (h : Heap) (r : ℕ) : Type 0 where
  pub page : ℕ
  pub address : r ≡ page * page_size + h.pages.hhdm_offset
  pub positive : 0 < page
  pub some_pages : 0 < (h.regions r).pages
  pub sized : (h.regions r).size ≡ (h.regions r).pages * page_size
  pub inside : page + (h.regions r).pages ≤ h.pages.total_pages
  pub used : (q : ℕ) → page ≤ q → q < page + (h.regions r).pages → bit_test h.pages.bitmap q ≡ true

-- The allocator is initialised, and all memory is mapped below 2 ^ 64.
pub record IsBacked (h : Heap) (rs : List ℕ) : Type 0 where
  pub ready : IsReady h.pages
  pub mapped : h.pages.total_pages * page_size + h.pages.hhdm_offset < 2 ^ 64
  pub owned : (r : ℕ) → is_in r rs ≡ true → Owned h r

-- The parts of a heap and of a region's header that its pages depend on.
pub record SamePlaces (s t : Phys) : Type 0 where
  pub offset : t.hhdm_offset ≡ s.hhdm_offset
  pub total : t.total_pages ≡ s.total_pages

abbrev pub SameExtent : (h g : Heap) → ℕ → Type 0
SameExtent h g r =
    ((g.regions r).pages ≡ (h.regions r).pages) × ((g.regions r).size ≡ (h.regions r).size)

pub Owned-frame :
    (h g : Heap) (r : ℕ) (o : Owned h r)
    → SamePlaces h.pages g.pages
    → SameExtent h g r
    → ((q : ℕ)
        → o.page ≤ q
        → q < o.page + (h.regions r).pages
        → bit_test h.pages.bitmap q ≡ true
        → bit_test g.pages.bitmap q ≡ true)
    → Owned g r
Owned-frame h g r o places (pages, size) bits = record {
  page = o.page;
  address = omega (arith, o.address, places.offset);
  positive = o.positive;
  some_pages = omega (arith, pages, o.some_pages);
  sized = omega (arith, size, pages, o.sized);
  inside = omega (arith, pages, places.total, o.inside);
  used = λ q low high.
      bits q low (omega (arith, high, pages)) (o.used q low (omega (arith, high, pages)));
}

-- The allocator as it was: only the headers may have changed.
pub IsBacked-frame :
    (h g : Heap) (rs : List ℕ)
    → g.pages ≡ h.pages
    → ((r : ℕ) → is_in r rs ≡ true → SameExtent h g r)
    → IsBacked h rs
    → IsBacked g rs
IsBacked-frame h g rs same extents v = record {
  ready = subst IsReady (sym same) v.ready;
  mapped =
      subst (λ (s : Phys). s.total_pages * page_size + s.hhdm_offset < 2 ^ 64) (sym same) v.mapped;
  owned = λ r at.
      Owned-frame h g r (v.owned r at)
        (record {
          offset = ap (λ (s : Phys). s.hhdm_offset) same;
          total = ap (λ (s : Phys). s.total_pages) same;
        })
        (extents r at) (λ q low high was. ap (λ (s : Phys). bit_test s.bitmap q) same ∙ was);
}

-- Two regions that do not overlap stand on different pages.
pub pages_apart :
    (h : Heap) (r s : ℕ) (a : Owned h r) (b : Owned h s)
    → (r + (h.regions r).size ≤ s) ⊎ (s + (h.regions s).size ≤ r)
    → (a.page + (h.regions r).pages ≤ b.page) ⊎ (b.page + (h.regions s).pages ≤ a.page)
pages_apart h r s a b (inl below) = inl (omega (arith, below, a.address, b.address, a.sized))
pages_apart h r s a b (inr above) = inr (omega (arith, above, a.address, b.address, b.sized))

-- Regions on different pages do not overlap.
pub regions_apart :
    (h : Heap) (r s : ℕ) (a : Owned h r) (b : Owned h s)
    → (a.page + (h.regions r).pages ≤ b.page) ⊎ (b.page + (h.regions s).pages ≤ a.page)
    → (r + (h.regions r).size ≤ s) ⊎ (s + (h.regions s).size ≤ r)
regions_apart h r s a b (inl below) = inl (omega (arith, below, a.address, b.address, a.sized))
regions_apart h r s a b (inr above) = inr (omega (arith, above, a.address, b.address, b.sized))
