-- ===== src/Heap/Returned.antt =====
-- region_free gives back the pages of a region, and no others.
use podumat_os.Prelude.{
  ℕ, ◌+◌, ◌-◌, ◌*◌, ◌≤◌, ◌<◌, ◌≡◌, refl, ◌⊎◌, inl, inr, true, ◌||◌, ltb, ◌==◌, Bool-cases, arith,
  subst, sym,
}
use podumat_os.Phys.{Phys, bit_test, page_size, free_pages}
use podumat_os.Phys.Alloc.{IsReady}
use podumat_os.Phys.Free.{Frees, free_pages-Frees, free_pages-hhdm_offset}
use podumat_os.Heap.Store.{Heap}
use podumat_os.Heap.{region_free}
use podumat_os.Heap.Owned.{Owned, SamePlaces}

-- `t` is `s` with at most the `n` pages from `page` on given back.
pub record GivesBack (s t : Phys) (page n : ℕ) : Type 0 where
  pub ready : IsReady t
  pub places : SamePlaces s t
  pub others :
      (q : ℕ)
      → (q < page) ⊎ (page + n ≤ q)
      → bit_test s.bitmap q ≡ true
      → bit_test t.bitmap q ≡ true

nothing : (s : Phys) (page n : ℕ) → IsReady s → GivesBack s s page n
nothing s page n v = record {
  ready = v;
  places = record { offset = refl; total = refl };
  others = λ q away was. was;
}

of_Frees :
    (s t : Phys) (page n : ℕ)
    → Frees s t page n
    → t.hhdm_offset ≡ s.hhdm_offset
    → GivesBack s t page n
of_Frees s t page n f same = record {
  ready = f.keeps;
  places = record { offset = same; total = f.same_total };
  others = λ q away was. ground (arith, f.cleared q, away, was);
}

pub region_free-GivesBack :
    (h : Heap) (r n : ℕ) (o : Owned h r)
    → IsReady h.pages
    → GivesBack h.pages (region_free r n h).pages o.page n
unfolding region_free
region_free-GivesBack h r n o v =
    let at : r - h.pages.hhdm_offset ≡ o.page * page_size = omega (arith, o.address) in
    let back =
      subst (λ a. GivesBack h.pages (free_pages a n h.pages) o.page n) (sym at)
        (of_Frees h.pages (free_pages (o.page * page_size) n h.pages) o.page n
          (free_pages-Frees o.page n h.pages v o.positive)
          (free_pages-hhdm_offset (o.page * page_size) n h.pages)) in
    elim (Bool-cases (r == 0)) [
      | inl null ↦ simp null (nothing h.pages o.page n v)
      | inr some_region ↦
          elim (Bool-cases (h.pages.hhdm_offset == 0 || ltb r h.pages.hhdm_offset)) [
            | inl kept ↦ simp (some_region, kept) (nothing h.pages o.page n v)
            | inr given ↦ simp (some_region, given) back
          ]
    ]
