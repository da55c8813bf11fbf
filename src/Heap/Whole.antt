-- ===== src/Heap/Whole.antt =====
-- The whole heap: kfree's and kmalloc's steps on its regions.
use podumat_os.Prelude.{
  ℕ, suc, ◌<◌, ◌≡◌, ◌≢◌, refl, ◌⊎◌, inl, inr, true, false, List, [], ◌∷◌, Option, some, ◌>>=◌, ◌==◌,
  if◌then◌else◌, length, Bool-cases, arith, ap, subst, ◌∙◌, sym,
}
use podumat_os.Prelude.Members.{is_in, erase}
use podumat_os.Phys.{sub64}
use podumat_os.Heap.Store.{Heap}
use podumat_os.Heap.{refresh_best_hint, destroy_region, region_free, best_loop}
use podumat_os.Heap.Calls.{free_block}
use podumat_os.Heap.Place.{Adds}
use podumat_os.Heap.Layout.{SameHeader, IsRegion_frame, Layout, Changes-Layout, put_list}
use podumat_os.Heap.Owned.{IsBacked, IsBacked-frame, Owned-frame, SameExtent, pages_apart}
use podumat_os.Heap.Returned.{GivesBack, region_free-GivesBack}
use podumat_os.Heap.Release.{free_block-Removes}
use podumat_os.Heap.Regions.{best_loop_ends, is_in-positive}
use podumat_os.Heap.Cut.{Cut, Regions-release, erased, proper}

pub length-erase : (b : ℕ) (xs : List ℕ) → is_in b xs ≡ true → length xs ≡ suc (length (erase b xs))
unfolding is_in erase
length-erase b [] h = absurd (cc h)
length-erase b (a ∷ xs) h = elim (Bool-cases (b == a)) [
  | inl same ↦ simp same refl
  | inr other ↦ simp other (ap suc (length-erase b xs (ground (arith, other, h))))
]

-- The heap that a call returns, and `h` where it does not return.
abbrev pub heap_or : Heap → Option Heap → Heap
heap_or h Option.none = h
heap_or h (Option.some g) = g

pub some_heap : (h g : Heap) → some h ≡ some g → h ≡ g
some_heap h g e = ap (heap_or h) e

-- Only the hint changes.
hint_only :
    (fuel : ℕ) (h g : Heap) → refresh_best_hint fuel h ≡ some g → record h { best = g.best } ≡ g
unfolding refresh_best_hint
hint_only fuel h g e = kept (best_loop fuel h h.root 0 0) e
  where
    kept :
        (o : Option ℕ)
        → (o >>= λ b. some (record h { best = b })) ≡ some g
        → record h { best = g.best } ≡ g
    kept Option.none e' = absurd (cc e')
    kept (Option.some b) e' =
        let same : record h { best = b } ≡ g = some_heap (record h { best = b }) g e' in
        ap (λ (k : Heap). record h { best = k.best }) (sym same) ∙ same

pub refresh_best_hint-blocks :
    (fuel : ℕ) (h g : Heap) → refresh_best_hint fuel h ≡ some g → g.blocks ≡ h.blocks
refresh_best_hint-blocks fuel h g e = ap (λ (k : Heap). k.blocks) (sym (hint_only fuel h g e))

pub refresh_best_hint-pages :
    (fuel : ℕ) (h g : Heap) → refresh_best_hint fuel h ≡ some g → g.pages ≡ h.pages
refresh_best_hint-pages fuel h g e = ap (λ (k : Heap). k.pages) (sym (hint_only fuel h g e))

-- Also, each region has a block, and the hint is a region or 0.
pub record IsHeap (h : Heap) (rs : List ℕ) (bs : ℕ → List ℕ) : Type 0 where
  pub layout : Layout h rs bs
  pub full : (r : ℕ) → is_in r rs ≡ true → bs r ≢ []
  pub hint : (h.best ≡ 0) ⊎ (is_in h.best rs ≡ true)

-- The blocks of each region without the block `b` of `r`.
abbrev pub without : (b r : ℕ) → (ℕ → List ℕ) → ℕ → List ℕ
without b r bs = put_list r (erase b (bs r)) bs

module _ (h : Heap) (rs : List ℕ) (bs : ℕ → List ℕ) (v : Layout h rs bs) where
  pub free_block-Layout :
      (fuel r b : ℕ)
      → is_in r rs ≡ true
      → is_in b (bs r) ≡ true
      → Layout (free_block fuel b h) rs (without b r bs)
  free_block-Layout fuel r b here within =
      let w = free_block-Removes fuel r b h (bs r) (v.region r here) within in
      Changes-Layout h (free_block fuel b h) rs bs v r (erase b (bs r)) here (record {
        region = w.region;
        outside = w.outside;
        other_regions = w.other_regions;
        header = w.header;
        root_kept = ap (λ (x : Heap). x.root) w.counted;
        count_kept = ap (λ (x : Heap). x.region_count) w.counted;
        pages_kept = ap (λ (x : Heap). x.pages) w.counted;
      })

  pub Adds-Layout :
      (g : Heap) (r payload req b : ℕ) (cs : List ℕ)
      → is_in r rs ≡ true
      → Adds h g r payload req b (bs r) cs
      → Layout g rs (put_list r cs bs)
  Adds-Layout g r payload req b cs here w = Changes-Layout h g rs bs v r cs here (record {
    region = w.region;
    outside = w.outside;
    other_regions = w.other_regions;
    header = w.header;
    root_kept = ap (λ (x : Heap). x.root) w.counted;
    count_kept = ap (λ (x : Heap). x.region_count) w.counted;
    pages_kept = ap (λ (x : Heap). x.pages) w.counted;
  })

  module _ (r : ℕ) (here : is_in r rs ≡ true) where
    abbrev k : Heap
    k = destroy_region r h

    not_zero : is_in 0 rs ≡ false
    not_zero = elim (Bool-cases (is_in 0 rs)) [
      | inl bad ↦ absurd (omega (arith, is_in-positive h.regions 0 h.root 0 rs v.chain bad))
      | inr fine ↦ fine
    ]

    positive : 0 < r
    positive = is_in-positive h.regions 0 h.root r rs v.chain here

    sides :
        ((h.regions r).prev ≢ r)
        × ((h.regions r).next ≢ r)
        × (((h.regions r).prev ≢ (h.regions r).next) ⊎ ((h.regions r).next ≡ 0))
    sides = proper h.regions 0 h.root r rs v.chain here not_zero

    cut : Cut h.regions k.regions (h.regions r).prev (h.regions r).next
    unfolding destroy_region region_free
    cut = record {
      at_prev = λ ne. ground (arith, sides, positive);
      at_next = λ ne. ground (arith, sides, positive);
      elsewhere = λ x xp xn. ground (arith, sides, positive);
    }

    root_now : k.root ≡ (if h.root == r then (h.regions r).next else h.root)
    unfolding destroy_region region_free
    root_now = ground (arith, sides, positive)

    blocks_same : k.blocks ≡ h.blocks
    unfolding destroy_region region_free
    blocks_same = ground (arith, sides, positive)

    headers_same : (x : ℕ) → SameHeader h k x
    unfolding destroy_region region_free
    headers_same x = ground (arith, sides, positive)

    count_now : k.region_count ≡ sub64 h.region_count 1
    unfolding destroy_region region_free
    count_now = ground (arith, sides, positive)

    extents_same : (x : ℕ) → SameExtent h k x
    unfolding destroy_region region_free
    extents_same x = ground (arith, sides, positive)

    pages_now : k.pages ≡ (region_free r (h.regions r).pages h).pages
    unfolding destroy_region region_free
    pages_now = ground (arith, sides, positive)

    -- The pages of the region go back, those of the others stay in use.
    IsBacked-now : IsBacked k (erase r rs)
    IsBacked-now =
        let mine = v.backed.owned r here in
        let back =
          subst (λ t. GivesBack h.pages t mine.page (h.regions r).pages) (sym pages_now)
            (region_free-GivesBack h r (h.regions r).pages mine v.backed.ready) in
        record {
          ready = back.ready;
          mapped = omega (arith, back.places.total, back.places.offset, v.backed.mapped);
          owned = λ x at.
              let (was, ne) = erased h.regions 0 h.root x r rs v.chain at in
              let theirs = v.backed.owned x was in
              let off = pages_apart h x r theirs mine (v.apart x r was here ne) in
              Owned-frame h k x theirs back.places (extents_same x)
                (λ q low high used. back.others q (ground (arith, off, low, high)) used);
        }

    pub destroy_region-Layout : Layout k (erase r rs) bs
    destroy_region-Layout =
        let fewer = length-erase r rs here in
        record {
          chain = Regions-release h.regions k.regions h.root k.root r rs v.chain here cut root_now;
          region = λ x at.
              let (was, ne) = erased h.regions 0 h.root x r rs v.chain at in
              IsRegion_frame h k x (bs x) (headers_same x) (λ y low top. ap (λ f. f y) blocks_same)
                (v.region x was);
          apart = λ x y xin yin ne.
              let (xwas, xne) = erased h.regions 0 h.root x r rs v.chain xin in
              let (ywas, yne) = erased h.regions 0 h.root y r rs v.chain yin in
              ground (arith, v.apart x y xwas ywas ne, headers_same x, headers_same y);
          counted = count_now ∙ omega (arith, fewer, v.counted, v.few);
          few = omega (arith, fewer, v.few);
          backed = IsBacked-now;
        }

  -- The hint is found again.
  pub refresh_best_hint-Layout :
      (fuel : ℕ)
      → length rs < fuel
      → (g : Heap) × (refresh_best_hint fuel h ≡ some g)
        × Layout g rs bs
        × ((g.best ≡ 0) ⊎ (is_in g.best rs ≡ true))
  unfolding refresh_best_hint
  refresh_best_hint-Layout fuel enough =
      let (b, found, what) = best_loop_ends h rs fuel 0 h.root 0 0 v.chain enough in
      (record h { best = b }, simp found refl, again b, what)
    where
      again : (b : ℕ) → Layout (record h { best = b }) rs bs
      again b = record {
        chain = v.chain;
        region = λ x at.
            IsRegion_frame h (record h { best = b }) x (bs x) (refl, refl, refl) (λ y low top. refl)
              (v.region x at);
        apart = v.apart;
        counted = v.counted;
        few = v.few;
        backed = IsBacked-frame h (record h { best = b }) rs refl (λ x at. (refl, refl)) v.backed;
      }
