-- ===== src/Heap/Grown.antt =====
-- A new region on pages that were free: it overlaps no other region, and the heap with it is well-formed.
use podumat_os.Prelude.{
  ℕ, ◌+◌, ◌*◌, ◌^◌, ◌≤◌, ◌<◌, ◌≡◌, ◌≢◌, ◌⊎◌, inl, inr, true, false, List, [], ◌∷◌, ◌++◌, leb, ◌==◌,
  length, length-append, ==_iff, ne→==, Bool-cases, arith, ap, subst, ◌∙◌, sym,
}
use podumat_os.Prelude.Members.{is_in}
use podumat_os.Phys.{Phys, page_size, add64}
use podumat_os.Phys.Alloc.{Allocates}
use podumat_os.Heap.Store.{Heap, region_header}
use podumat_os.Heap.Sums.{taken}
use podumat_os.Heap.Place.{IsRegion}
use podumat_os.Heap.Regions.{Regions}
use podumat_os.Heap.Chain.{is_in-append_one}
use podumat_os.Heap.Owned.{Owned, Owned-frame, regions_apart}
use podumat_os.Heap.Layout.{Layout, SameHeader, IsRegion_frame, put_list}

-- `g` is `h` with an empty region at `m`, on `n` pages from `page` on that were free.
pub record Grows (h g : Heap) (rs : List ℕ) (m page n : ℕ) : Type 0 where
  pub chain : Regions g.regions 0 g.root (rs ++ (m ∷ []))
  pub headers : (x : ℕ) → x ≢ m → SameHeader h g x × ((g.regions x).pages ≡ (h.regions x).pages)
  pub new_first : (g.regions m).first ≡ 0
  pub new_usage : (g.regions m).usage ≡ region_header
  pub new_pages : (g.regions m).pages ≡ n
  pub new_size : (g.regions m).size ≡ n * page_size
  pub blocks_kept : g.blocks ≡ h.blocks
  pub count_now : g.region_count ≡ add64 h.region_count 1

-- The pages of a region are in use, so those that were free are others.
module _ (h : Heap) (s : Phys) (r : ℕ) (o : Owned h r) (page n : ℕ) (some_pages : 0 < n)
    (a : Allocates h.pages s n page) where
  abbrev theirs : ℕ
  theirs = (h.regions r).pages

  pub other_pages : (o.page + theirs ≤ page) ⊎ (page + n ≤ o.page)
  other_pages = elim (Bool-cases (leb (o.page + theirs) page)) [
    | inl below ↦ inl (ground (arith, below))
    | inr over ↦ elim (Bool-cases (leb (page + n) o.page)) [
      | inl above ↦ inr (ground (arith, above))
      | inr under ↦ absurd (elim (Bool-cases (leb page o.page)) [
        | inl first ↦
            ground (arith, over, under, first, o.some_pages, a.was_free o.page, o.used o.page)
        | inr later ↦ ground (arith, over, under, later, some_pages, a.was_free page, o.used page)
      ])
    ]
  ]

module _ (h : Heap) (s : Phys) (rs : List ℕ) (bs : ℕ → List ℕ) (v : Layout h rs bs) (m page n : ℕ)
    (a : Allocates h.pages s n page) (at : m ≡ page * page_size + h.pages.hhdm_offset)
    (some_pages : 0 < n) where
  -- No region stood there.
  pub fresh : is_in m rs ≡ false
  fresh = elim (Bool-cases (is_in m rs)) [
    | inr out ↦ out
    | inl bad ↦
        let o = v.backed.owned m bad in
        let off = other_pages h s m o page n some_pages a in
        absurd (omega (arith, off, o.address, at, o.some_pages, some_pages))
  ]

module _ (h g : Heap) (rs : List ℕ) (bs : ℕ → List ℕ) (v : Layout h rs bs) (m page n : ℕ)
    (k : Grows h g rs m page n) (a : Allocates h.pages g.pages n page)
    (offset : g.pages.hhdm_offset ≡ h.pages.hhdm_offset)
    (at : m ≡ page * page_size + h.pages.hhdm_offset) (some_pages : 0 < n)
    (short : n * page_size < 2 ^ 32) (few : length rs + 1 < 2 ^ 64) where
  new_Owned : Owned g m
  new_Owned = record {
    page = page;
    address = omega (arith, at, offset);
    positive = a.positive;
    some_pages = omega (arith, k.new_pages, some_pages);
    sized = omega (arith, k.new_size, k.new_pages);
    inside = omega (arith, k.new_pages, a.fits, a.same_total);
    used = λ q low high. ground (arith, a.marked q, low, high, k.new_pages);
  }

  old_Owned : (x : ℕ) → is_in x rs ≡ true → x ≢ m → Owned g x
  old_Owned x was ne =
      let (header, pages) = k.headers x ne in
      Owned-frame h g x (v.backed.owned x was) (record { offset = offset; total = a.same_total })
        (pages, header.1) (λ q low high used. ground (arith, a.marked q, used))

  -- A region of the longer list is the new one, or one of the old ones.
  cases : (x : ℕ) → is_in x (rs ++ (m ∷ [])) ≡ true → (x ≡ m) ⊎ ((is_in x rs ≡ true) × (x ≢ m))
  cases x h = elim (Bool-cases (x == m)) [
    | inl same ↦ inl ((==_iff x m).0 same)
    | inr other ↦
        inr (ground (arith, h, other, is_in-append_one x m rs), λ z. ground (arith, other, z))
  ]

  new_IsRegion : IsRegion g m []
  unfolding taken
  new_IsRegion = record {
    linked = (k.new_first, omega (arith, k.new_size, some_pages));
    used = k.new_usage;
    placed = omega (arith, at, a.positive);
    high = omega (arith, k.new_size, at, a.fits, v.backed.mapped);
    short = omega (arith, k.new_size, short);
  }

  old_apart :
      (x : ℕ)
      → is_in x rs ≡ true
      → x ≢ m
      → (x + (g.regions x).size ≤ m) ⊎ (m + (g.regions m).size ≤ x)
  old_apart x was ne =
      let off = other_pages h g.pages x (v.backed.owned x was) page n some_pages a in
      let (header, pages) = k.headers x ne in
      regions_apart g x m (old_Owned x was ne) new_Owned (ground (arith, off, pages, k.new_pages))

  pub grown-Layout : Layout g (rs ++ (m ∷ [])) (put_list m [] bs)
  grown-Layout = record {
    chain = k.chain;
    region = λ x within. elim (cases x within) [
      | inl same ↦
          subst (λ y. IsRegion g y (put_list m [] bs y)) (sym same) (simp (is_self m) new_IsRegion)
      | inr (was, ne) ↦ simp (ne→== x m ne) (
          IsRegion_frame h g x (bs x) (k.headers x ne).0 (λ y low top. ap (λ f. f y) k.blocks_kept)
            (v.region x was))
    ];
    apart = λ x y xin yin ne. elim (cases x xin) [
      | inl xm ↦ elim (cases y yin) [
        | inl ym ↦ absurd (ne (xm ∙ sym ym))
        | inr (was, yne) ↦ ground (arith, xm, old_apart y was yne, ap (λ z. (g.regions z).size) xm)
      ]
      | inr (xwas, xne) ↦ elim (cases y yin) [
        | inl ym ↦ ground (arith, ym, old_apart x xwas xne, ap (λ z. (g.regions z).size) ym)
        | inr (ywas, yne) ↦
            ground (arith, v.apart x y xwas ywas ne, (k.headers x xne).0, (k.headers y yne).0)
      ]
    ];
    counted = k.count_now ∙ omega (arith, v.counted, few, length-append {0} rs (m ∷ []));
    few = omega (arith, few, length-append {0} rs (m ∷ []));
    backed = record {
      ready = a.keeps;
      mapped = omega (arith, v.backed.mapped, a.same_total, offset);
      owned = λ x within. elim (cases x within) [
        | inl same ↦ subst (Owned g) (sym same) new_Owned
        | inr (was, ne) ↦ old_Owned x was ne
      ];
    };
  }
    where
      is_self : (m : ℕ) → (m == m) ≡ true
      is_self m = ground arith
