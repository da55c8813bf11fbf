-- ===== src/Heap/Opened.antt =====
-- kmalloc in a new region, and kmalloc as a whole.
use podumat_os.Prelude.{
  ℕ, ◌+◌, ◌^◌, ◌-◌, ◌≤◌, ◌<◌, ◌≡◌, refl, ◌⊎◌, inl, inr, true, false, List, [], ◌∷◌, ◌++◌, Option,
  some, ◌==◌, length, length-append, Bool-cases, arith, ap, subst, ◌∙◌, sym,
}
use podumat_os.Prelude.Members.{is_in}
use podumat_os.Heap.Store.{Block, Heap, block_header}
use podumat_os.Heap.{align_up, pages_for, place_block, create_region}
use podumat_os.Heap.Calls.{refreshed, place_new, from_new, kmalloc}
use podumat_os.Heap.Place.{IsRegion, Adds}
use podumat_os.Heap.Search.{place_block-Placing}
use podumat_os.Heap.Layout.{Layout, put_list}
use podumat_os.Heap.Create.{Creates, NoPages, OnFreePages, OnFreePages-later}
use podumat_os.Heap.Creation.{create_region-Creation}
use podumat_os.Heap.Chain.{is_in-append_one}
use podumat_os.Heap.Whole.{
  IsHeap, Adds-Layout, refresh_best_hint-Layout, refresh_best_hint-blocks, refresh_best_hint-pages,
}
use podumat_os.Heap.Rounds.{refreshed_at}
use podumat_os.Heap.Alloc.{Serves, NoRoom, not_empty}
use podumat_os.Heap.Malloc.{kmalloc-Served, aligned}

-- `p` is the address of the bytes of the only block of a new region, at the end of the list of the
-- well-formed heap `g`; the region stands on pages that `h` had free.
pub record Opens (h g : Heap) (rs : List ℕ) (bs : ℕ → List ℕ) (payload req p : ℕ) : Type 0 where
  pub region : ℕ
  pub block : ℕ
  pub list : List ℕ
  pub fresh_region : is_in region rs ≡ false
  pub pages : OnFreePages h g region (pages_for payload)
  pub address : p ≡ block + block_header
  pub members : (x : ℕ) → is_in x list ≡ (x == block)
  pub sized : ((g.blocks block).size ≡ payload) × ((g.blocks block).req_size ≡ req)
  pub heap : IsHeap g (rs ++ (region ∷ [])) (put_list region list bs)

module _ (fuel payload req r : ℕ) (h : Heap) where
  new_none : create_region fuel payload h ≡ some (0, h) → from_new fuel payload req h ≡ some (0, h)
  unfolding from_new place_new
  new_none e = simp e refl

  new_placed :
      (g k l : Heap) (p : ℕ)
      → (r == 0) ≡ false
      → (p == 0) ≡ false
      → create_region fuel payload h ≡ some (r, g)
      → place_block r payload req fuel g ≡ some (p, k)
      → refreshed fuel (p, k) ≡ some (p, l)
      → from_new fuel payload req h ≡ some (p, l)
  unfolding from_new place_new
  new_placed g k l p some_region got made placed again = simp (made, some_region, placed, got) again

once :
    (r : ℕ) (cs : List ℕ) (bs : ℕ → List ℕ) (x : ℕ)
    → put_list r cs (put_list r [] bs) x ≡ put_list r cs bs x
once r cs bs x = elim (Bool-cases (x == r)) [ inl e ↦ simp e refl | inr e ↦ simp e refl ]

nothing : (x : ℕ) → is_in x [] ≡ false
unfolding is_in
nothing x = refl

-- The ways in which the new region is used.
abbrev pub Opened : (payload req : ℕ) → Heap → List ℕ → (ℕ → List ℕ) → Option (ℕ × Heap) → Type 0
Opened payload req h rs bs o =
    ((o ≡ some (0, h)) × NoPages h payload)
    ⊎ ((p : ℕ) × (g : Heap) × (o ≡ some (p, g)) × Opens h g rs bs payload req p)

module _ (fuel payload req : ℕ) (h : Heap) (rs : List ℕ) (bs : ℕ → List ℕ) (v : IsHeap h rs bs)
    (small : payload < 2 ^ 32) (asked : req < 2 ^ 32) (enough : length rs + 1 < fuel)
    (few : length rs + 1 < 2 ^ 64) where
  opens :
      (r : ℕ) (g : Heap)
      → create_region fuel payload h ≡ some (r, g)
      → Creates h g rs bs r payload
      → Opened payload req h rs bs (from_new fuel payload req h)
  opens r g made c =
      let rs' = rs ++ (r ∷ []) in
      let in_new : is_in r rs' ≡ true = ground (arith, is_in-append_one r r rs) in
      let self : put_list r [] bs r ≡ [] = ground arith in
      let empty : IsRegion g r [] = subst (IsRegion g r) self (c.layout.region r in_new) in
      let (p, k, placed, how) =
        place_block-Placing r payload req g small asked [] fuel empty
          (λ e. omega (arith, c.room, small)) (omega arith) in
      elim how [
        | inl (p0, same, full) ↦ absurd (omega (arith, c.room, small, full))
        | inr (b, cs, at, above, adds) ↦
            let adds' = subst (λ xs. Adds g k r payload req b xs cs) (sym self) adds in
            let twice : put_list r cs (put_list r [] bs) ≡ put_list r cs bs =
              λ i x. once r cs bs x i in
            let layout =
              subst (Layout k rs') twice
                (Adds-Layout g rs' (put_list r [] bs) c.layout k r payload req b cs in_new adds') in
            let (l, found, layout_l, hint) =
              refresh_best_hint-Layout k rs' (put_list r cs bs) layout fuel
                (omega (arith, enough, length-append {0} rs (r ∷ []))) in
            inr (
              p,
              l,
              new_placed fuel payload req r h g k l p (ground (arith, c.positive))
                  (ground (arith, at)) made placed (refreshed_at fuel p k l found),
              record {
                region = r;
                block = b;
                list = cs;
                fresh_region = c.fresh_region;
                pages =
                    OnFreePages-later h g l r (pages_for payload)
                      (refresh_best_hint-pages fuel k l found
                        ∙ ap (λ (x : Heap). x.pages) adds.counted)
                      c.pages;
                address = at;
                members = λ x. ground (arith, adds.members x, nothing x);
                sized =
                    subst (λ (f : ℕ → Block). ((f b).size ≡ payload) × ((f b).req_size ≡ req))
                      (sym (refresh_best_hint-blocks fuel k l found)) adds.sized;
                heap = record {
                  layout = layout_l;
                  full = λ x within. elim (Bool-cases (x == r)) [
                    | inl same ↦ simp same (not_empty b cs (ground (arith, adds.members b)))
                    | inr other ↦
                        simp other
                          (v.full x (ground (arith, other, within, is_in-append_one x r rs)))
                  ];
                  hint = hint;
                };
              },
            )
      ]

  from_new-Opened : Opened payload req h rs bs (from_new fuel payload req h)
  from_new-Opened =
      elim (create_region-Creation fuel payload h rs bs small v.layout (omega (arith, enough))
        few) [
          | inl (failed, why) ↦ inl (new_none fuel payload req 0 h failed, why)
          | inr (r, g, made, c) ↦ opens r g made c
        ]

-- How a call of `kmalloc` ends: with a block in a region that has room, with a block in a new region,
-- or with 0 and the heap as it was, for want of room and of pages.
pub data Allocation (h : Heap) (rs : List ℕ) (bs : ℕ → List ℕ) (payload req : ℕ)
    (o : Option (ℕ × Heap)) : Type 0 where
  served :
      (p : ℕ) (g : Heap)
      → o ≡ some (p, g)
      → Serves h g rs bs payload req p
      → Allocation h rs bs payload req o
  opened :
      (p : ℕ) (g : Heap)
      → o ≡ some (p, g)
      → NoRoom h rs bs payload req
      → Opens h g rs bs payload req p
      → Allocation h rs bs payload req o
  failed :
      o ≡ some (0, h)
      → NoRoom h rs bs payload req
      → NoPages h payload
      → Allocation h rs bs payload req o

-- On an initialised well-formed heap, with more fuel than regions and than blocks in a region, a call of
-- `kmalloc` for 1 to 2 ^ 32 - 16 bytes ends. It returns a new block of the rounded size, in a region
-- that has room or, if none has, in a new region on pages that the allocator had free, and the heap is
-- well-formed again; or it returns 0 and changes nothing, since no region has room and the allocator
-- does not give the pages of a new one.
pub kmalloc-Allocation :
    (fuel size : ℕ) (h : Heap) (rs : List ℕ) (bs : ℕ → List ℕ)
    → IsHeap h rs bs
    → h.initialized ≡ true
    → 0 < size
    → size ≤ 2 ^ 32 - 16
    → length rs + 1 < fuel
    → length rs + 1 < 2 ^ 64
    → ((r : ℕ) → is_in r rs ≡ true → length (bs r) < fuel + 1)
    → Allocation h rs bs (align_up size) size (kmalloc fuel size h)
kmalloc-Allocation fuel size h rs bs v ready pos fits enough few short =
    elim (kmalloc-Served fuel size h rs bs v ready pos fits (omega (arith, enough)) short) [
      | inl (p, g, found, s) ↦ served p g found s
      | inr (new, full) ↦
          elim (from_new-Opened fuel (align_up size) size h rs bs v (aligned size fits)
            (omega (arith, fits)) enough few) [
              | inl (none_left, why) ↦ failed (new ∙ none_left) full why
              | inr (p, g, found, o) ↦ opened p g (new ∙ found) full o
            ]
    ]
