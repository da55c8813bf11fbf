-- ===== src/Heap/Free.antt =====
-- kfree on a well-formed heap, and a second release of the same pointer.
use podumat_os.Prelude.{
  ℕ, ◌+◌, ◌^◌, ◌<◌, ◌≡◌, ◌≢◌, refl, ◌⊎◌, inl, inr, Bool, true, false, List, [], ◌∷◌, some, ◌==◌,
  if◌then◌else◌, length, ==_iff, ne→==, Bool-cases, arith, ap, subst, ◌∙◌, sym,
}
use podumat_os.Prelude.Members.{is_in, erase}
use podumat_os.Heap.Store.{Heap, block_header, region_header, block_magic, block_dead}
use podumat_os.Heap.{refresh_best_hint, destroy_region, region_free}
use podumat_os.Heap.Calls.{free_block, free_header, kfree, header_of}
use podumat_os.Heap.Blocks.{is_in-end_of}
use podumat_os.Heap.Place.{IsRegion}
use podumat_os.Heap.Release.{Removes, live_block, free_block-Removes}
use podumat_os.Heap.Cut.{erased}
use podumat_os.Heap.Layout.{Layout}
use podumat_os.Heap.Whole.{
  IsHeap, without, free_block-Layout, destroy_region-Layout, refresh_best_hint-Layout, length-erase,
  some_heap, refresh_best_hint-blocks,
}

-- The regions that are left where `r` keeps the blocks `bs`.
abbrev pub rest : (r : ℕ) (bs rs : List ℕ) → List ℕ
rest r [] rs = erase r rs
rest r (b ∷ bs) rs = rs

-- The list of a region is empty where its header says so.
first_zero :
    (h : Heap) (r : ℕ) (bs : List ℕ)
    → IsRegion h r bs
    → (((h.regions r).first == 0) ≡ true) × (bs ≡ [])
      ⊎ (((h.regions r).first == 0) ≡ false) × (bs ≢ [])
first_zero h r [] v = inl (ground (arith, v.linked.0), refl)
first_zero h r (b ∷ bs) v = inr (ground (arith, v.linked.0, v.linked.1), λ e. absurd (cc e))

free_header_at :
    (fuel b r : ℕ) (h : Heap)
    → (h.blocks b).magic ≡ block_magic
    → (h.blocks b).region ≡ r
    → free_header fuel b h
      ≡ refresh_best_hint fuel (
          if ((free_block fuel b h).regions r).first == 0
          then destroy_region r (free_block fuel b h)
          else free_block fuel b h)
unfolding free_header
free_header_at fuel b r h magic region = simp (magic, region) refl

kfree_at :
    (fuel ptr b : ℕ) (h : Heap)
    → (ptr == 0) ≡ false
    → header_of fuel ptr ≡ b
    → kfree fuel ptr h ≡ free_header fuel b h
unfolding kfree
kfree_at fuel ptr b h some_ptr at =
    ap (λ t. if t then some h else free_header fuel (header_of fuel ptr) h) some_ptr
    ∙ ap (λ x. free_header fuel x h) at

module _ (fuel : ℕ) (h : Heap) (rs : List ℕ) (bs : ℕ → List ℕ) (v : IsHeap h rs bs) (r b : ℕ)
    (here : is_in r rs ≡ true) (within : is_in b (bs r) ≡ true) (enough : length rs < fuel) where
  abbrev g : Heap
  g = free_block fuel b h

  region : IsRegion h r (bs r)
  region = v.layout.region r here

  live :
      ((h.blocks b).region ≡ r)
      × ((h.blocks b).magic ≡ block_magic)
      × (0 < b)
      × (((h.blocks b).prev ≡ 0) ⊎ ((h.blocks b).prev < b))
  live =
      live_block r (r + (h.regions r).size) h.blocks 0 (r + region_header) (h.regions r).first b
        (bs r) region.linked within

  removes : Removes h g r b (bs r)
  removes = free_block-Removes fuel r b h (bs r) region within

  fewer : Layout g rs (without b r bs)
  fewer = free_block-Layout h rs bs v.layout fuel r b here within

  -- What is left to do once the block is gone.
  finish :
      (bs' : List ℕ)
      → erase b (bs r) ≡ bs'
      → (k : Heap) × (refresh_best_hint fuel
            (if (g.regions r).first == 0 then destroy_region r g else g)
          ≡ some k)
        × IsHeap k (rest r bs' rs) (without b r bs)
  finish [] e = elim (first_zero g r (erase b (bs r)) removes.region) [
    | inl (first, all_gone) ↦
        let left = destroy_region-Layout g rs (without b r bs) fewer r here in
        let (k, found, layout, hint) =
          refresh_best_hint-Layout (destroy_region r g) (erase r rs) (without b r bs) left fuel
            (omega (arith, enough, length-erase r rs here)) in
        (
          k,
          simp first found,
          record {
            layout = layout;
            full = λ x at.
                let (was, ne) = erased g.regions 0 g.root x r rs fewer.chain at in
                subst (λ t. (if t then erase b (bs r) else bs x) ≢ []) (sym (ne→== x r ne))
                  (v.full x was);
            hint = hint;
          },
        )
    | inr (first, some_left) ↦ absurd (some_left e)
  ]
  finish (c ∷ cs) e = elim (first_zero g r (erase b (bs r)) removes.region) [
    | inl (first, all_gone) ↦ absurd (cc (e, all_gone))
    | inr (first, some_left) ↦
        let (k, found, layout, hint) =
          refresh_best_hint-Layout g rs (without b r bs) fewer fuel enough in
        (
          k,
          simp first found,
          record {
            layout = layout;
            full = λ x at. elim (Bool-cases (x == r)) [
              | inl same ↦ simp same some_left
              | inr other ↦ simp other (v.full x at)
            ];
            hint = hint;
          },
        )
  ]

  -- On a well-formed heap with fewer regions than the fuel, `kfree` of the address behind the header of
  -- a block of a region ends, in a well-formed heap without that block, and without the region if the
  -- block was its last.
  pub kfree-IsHeap :
      (g : Heap) × (kfree fuel (b + block_header) h ≡ some g)
      × IsHeap g (rest r (erase b (bs r)) rs) (without b r bs)
  kfree-IsHeap =
      let low : b < 2 ^ 64 = omega (
        arith,
        region.high,
        is_in-end_of r (r + (h.regions r).size) h.blocks 0 (r + region_header) (h.regions r).first b
            (bs r) region.linked within,
      ) in
      let at : header_of fuel (b + block_header) ≡ b = omega (arith, low) in
      let (k, found, heap) = finish (erase b (bs r)) refl in
      (
        k,
        kfree_at fuel (b + block_header) b h (ground arith) at
            ∙ free_header_at fuel b r h live.1 live.0
            ∙ found,
        heap,
      )

destroy_region-blocks : (r : ℕ) (h : Heap) → (destroy_region r h).blocks ≡ h.blocks
unfolding destroy_region region_free
destroy_region-blocks r h = ground arith

free_block-magic : (fuel b : ℕ) (h : Heap) → ((free_block fuel b h).blocks b).magic ≡ block_dead
unfolding free_block
free_block-magic fuel b h = ground arith

-- A header whose magic is not that of a live block is left alone.
free_header_dead :
    (fuel b : ℕ) (h : Heap) → (h.blocks b).magic ≢ block_magic → free_header fuel b h ≡ some h
unfolding free_header
free_header_dead fuel b h dead = simp (ne→== (h.blocks b).magic block_magic dead) refl

still : (t : Bool) (r : ℕ) (h : Heap) → (if t then destroy_region r h else h).blocks ≡ h.blocks
still true r h = destroy_region-blocks r h
still false r h = refl

dead_magic : (m : ℕ) → m ≡ block_dead → m ≢ block_magic
dead_magic m e z = omega (arith, e, z)

free_header_twice :
    (fuel b : ℕ) (h g : Heap) → free_header fuel b h ≡ some g → free_header fuel b g ≡ some g
free_header_twice fuel b h g e = elim (Bool-cases ((h.blocks b).magic == block_magic)) [
  | inl live ↦
      let r = (h.blocks b).region in
      let f = free_block fuel b h in
      let done = free_header_at fuel b r h ((==_iff (h.blocks b).magic block_magic).0 live) refl in
      let after = refresh_best_hint-blocks fuel _ g (sym done ∙ e) in
      free_header_dead fuel b g (
        dead_magic (g.blocks b).magic (
          subst (λ f. (f b).magic ≡ block_dead) (sym (after ∙ still ((f.regions r).first == 0) r f))
            (free_block-magic fuel b h)))
  | inr dead ↦
      subst (λ k. free_header fuel b k ≡ some k)
        (some_heap h g (sym (free_header_dead fuel b h (λ z. ground (arith, dead, z))) ∙ e))
        (free_header_dead fuel b h (λ z. ground (arith, dead, z)))
]

-- A second call on what the first one returned, if that ended.
kfree_again : (fuel ptr : ℕ) (h g : Heap) → kfree fuel ptr h ≡ some g → kfree fuel ptr g ≡ some g
unfolding kfree
kfree_again fuel ptr h g e = elim (Bool-cases (ptr == 0)) [
  | inl null ↦ ap (λ t. if t then some g else free_header fuel (header_of fuel ptr) g) null
  | inr some_ptr ↦
      kfree_at fuel ptr (header_of fuel ptr) g some_ptr refl
      ∙ free_header_twice fuel (header_of fuel ptr) h g
          (sym (kfree_at fuel ptr (header_of fuel ptr) h some_ptr refl) ∙ e)
]

-- On a well-formed heap with fewer regions than the fuel, for the address behind the header of a block
-- of a region, `kfree` ends, and a second `kfree` of the same address right after it ends too and
-- changes nothing of the heap that the first one left.
pub kfree_twice :
    (fuel : ℕ) (h : Heap) (rs : List ℕ) (bs : ℕ → List ℕ)
    → IsHeap h rs bs
    → (r b : ℕ) → is_in r rs ≡ true
    → is_in b (bs r) ≡ true
    → length rs < fuel
    → (g : Heap) × (kfree fuel (b + block_header) h ≡ some g)
      × (kfree fuel (b + block_header) g ≡ some g)
kfree_twice fuel h rs bs v r b here within enough =
    let (g, found, heap) = kfree-IsHeap fuel h rs bs v r b here within enough in
    (g, found, kfree_again fuel (b + block_header) h g found)
