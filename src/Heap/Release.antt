-- ===== src/Heap/Release.antt =====
-- kfree in its region: the block leaves the list, and its header is dead, so that a second release
-- does nothing.
use podumat_os.Prelude.{
  ℕ, ◌+◌, ◌-◌, ◌^◌, ◌≤◌, ◌<◌, ◌≡◌, ◌≢◌, refl, ◌⊎◌, inl, inr, true, List, [], ◌∷◌, ◌==◌,
  if◌then◌else◌, ==_iff, Bool-cases, arith, ap, subst, ◌∙◌, sym, u32,
}
use podumat_os.Prelude.Members.{is_in, erase}
use podumat_os.Phys.{sub64}
use podumat_os.Heap.Store.{
  Region, Block, Heap, block_header, region_header, block_magic, block_dead,
}
use podumat_os.Heap.Calls.{free_block}
use podumat_os.Heap.Blocks.{end_of, Blocks, is_in-le, is_in-end_of, next-is_in}
use podumat_os.Heap.Unlink.{Unlinked, prev_cases, next_cases, Blocks-tail, Blocks-erase}
use podumat_os.Heap.Sums.{taken-erase, taken-le}
use podumat_os.Heap.Place.{IsRegion}

module _ (r hi : ℕ) where
  -- A block of the list is live, and the one before it lies below it.
  pub live_block :
      (f : ℕ → Block) (prev lo q b : ℕ) (bs : List ℕ)
      → Blocks r hi f prev lo q bs
      → is_in b bs ≡ true
      → ((f b).region ≡ r)
        × ((f b).magic ≡ block_magic)
        × (0 < b)
        × (((f b).prev ≡ prev) ⊎ ((f b).prev < b))
  unfolding is_in
  live_block f prev lo q b [] v h = absurd (cc h)
  live_block f prev lo q b (a ∷ bs) (e, pos, le, header, rest) h = elim (Bool-cases (b == a)) [
    | inl same ↦
        subst
          (λ x.
            ((f x).region ≡ r)
            × ((f x).magic ≡ block_magic)
            × (0 < x)
            × (((f x).prev ≡ prev) ⊎ ((f x).prev < x)))
          (sym ((==_iff b a).0 same)) (header.1, header.2, pos, inl header.0)
    | inr other ↦
        let within : is_in b bs ≡ true = ground (arith, other, h) in
        let (at, magic, positive, back) = live_block f a (end_of f a) (f a).next b bs rest within in
        let above = is_in-le r hi f a (end_of f a) (f a).next b bs rest within in
        (at, magic, positive, inr (ground (arith, back, above)))
  ]

  -- A block, first or later, is taken out of the list.
  pub Blocks-release :
      (f g : ℕ → Block) (lo first start b : ℕ) (bs : List ℕ)
      → Blocks r hi f 0 lo first bs
      → is_in b bs ≡ true
      → Unlinked r hi f g b (f b).prev (f b).next
      → start ≡ (if (f b).prev == 0 then (f b).next else first)
      → Blocks r hi g 0 lo start (erase b bs)
  unfolding is_in erase
  Blocks-release f g lo first start b [] v h gone now = absurd (cc h)
  Blocks-release f g lo first start b (a ∷ bs) v h gone now = elim (Bool-cases (b == a)) [
    | inl same ↦
        let is : b ≡ a = (==_iff b a).0 same in
        let whole : Blocks r hi f 0 lo b (b ∷ bs) =
          subst (λ x. Blocks r hi f 0 lo x (x ∷ bs)) (sym is) (refl, v.1, v.2, v.3, v.4) in
        let back : (f b).prev ≡ 0 = whole.3.0 in
        let now' : start ≡ (f b).next = ground (arith, now, back) in
        simp same (
          subst (λ x. Blocks r hi g 0 lo x bs) (sym now')
            (Blocks-tail r hi f g lo b bs whole
              (subst (λ x. Unlinked r hi f g b x (f b).next) back gone)))
    | inr other ↦
        let within : is_in b bs ≡ true = ground (arith, other, h) in
        let back = prev_cases r hi f a (end_of f a) (f a).next b bs v.4 within in
        let now' : start ≡ first = ground (arith, now, back, v.1) in
        simp other (
          subst (λ x. Blocks r hi g 0 lo x (a ∷ erase b bs)) (sym now')
            (Blocks-erase r hi f g 0 lo first a b bs v within gone))
  ]

-- `g` is `h` without the block `b` of the region's blocks `bs`: its header is dead, the others keep
-- their sizes, and nothing outside the region changes but the counters.
pub record Removes (h g : Heap) (r b : ℕ) (bs : List ℕ) : Type 0 where
  pub region : IsRegion g r (erase b bs)
  pub dead : (g.blocks b).magic ≡ block_dead
  pub sizes :
      (x : ℕ)
      → ((g.blocks x).size ≡ (h.blocks x).size) × ((g.blocks x).req_size ≡ (h.blocks x).req_size)
  pub outside :
      (x : ℕ) → (x < r + region_header) ⊎ (r + (h.regions r).size ≤ x) → g.blocks x ≡ h.blocks x
  pub other_regions : (x : ℕ) → x ≢ r → g.regions x ≡ h.regions x
  pub header :
      g.regions r
      ≡ record (h.regions r) { first = (g.regions r).first; usage = (g.regions r).usage }
  pub counted : g ≡ record h {
    regions = g.regions;
    blocks = g.blocks;
    in_use_bytes = sub64 h.in_use_bytes (h.blocks b).req_size;
    live_allocations = sub64 h.live_allocations 1;
  }

module _ (fuel r b : ℕ) (h : Heap) where
  abbrev g : Heap
  g = free_block fuel b h

  module _ (bs : List ℕ) (v : IsRegion h r bs) (within : is_in b bs ≡ true) where
    abbrev p : ℕ
    p = (h.blocks b).prev

    abbrev n : ℕ
    n = (h.blocks b).next

    facts :
        ((h.blocks b).region ≡ r)
        × ((h.blocks b).magic ≡ block_magic)
        × (0 < b)
        × ((p ≡ 0) ⊎ (p < b))
    facts =
        live_block r (r + (h.regions r).size) h.blocks 0 (r + region_header) (h.regions r).first b
          bs v.linked within

    on : (n ≡ 0) ⊎ (end_of h.blocks b ≤ n)
    on =
        next_cases r (r + (h.regions r).size) h.blocks 0 (r + region_header) (h.regions r).first b
          bs v.linked within

    gone : Unlinked r (r + (h.regions r).size) h.blocks g.blocks b p n
    unfolding free_block
    gone = record {
      at_prev = λ ne. ground (arith, on, facts.2, facts.3);
      at_next = λ ne. ground (arith, on, facts.2, facts.3);
      elsewhere = λ x xb xp xn. ground arith;
    }

    -- The region's header.
    first_now : (g.regions r).first ≡ (if p == 0 then n else (h.regions r).first)
    unfolding free_block
    first_now = ground (arith, on, facts)

    sizes : (x : ℕ) → (g.blocks x).size ≡ (h.blocks x).size
    unfolding free_block
    sizes x = ground arith

    less :
        (g.regions r).usage
        ≡ u32 ((h.regions r).usage + 2 ^ 32 - u32 (block_header + (h.blocks b).size))
    unfolding free_block
    less = ground (arith, on, facts)

    kept_header :
        g.regions r
        ≡ record (h.regions r) { first = (g.regions r).first; usage = (g.regions r).usage }
    unfolding free_block
    kept_header = ground (arith, on, facts)

    size_kept : (g.regions r).size ≡ (h.regions r).size
    size_kept = ap (λ (x : Region). x.size) kept_header

    rest_kept : (x : ℕ) → x ≢ r → g.regions x ≡ h.regions x
    unfolding free_block
    rest_kept x ne = ground (arith, facts)

    far : (x : ℕ) → (x < r + region_header) ⊎ (r + (h.regions r).size ≤ x) → g.blocks x ≡ h.blocks x
    unfolding free_block
    far x away =
        let hi = r + (h.regions r).size in
        let low =
          is_in-le r hi h.blocks 0 (r + region_header) (h.regions r).first b bs v.linked within in
        let top =
          is_in-end_of r hi h.blocks 0 (r + region_header) (h.regions r).first b bs v.linked
            within in
        let back =
          prev_cases r hi h.blocks 0 (r + region_header) (h.regions r).first b bs v.linked within in
        let end : (n ≡ 0) ⊎ (n < hi) = elim (Bool-cases (n == 0)) [
          | inl last ↦ inl ((==_iff n 0).0 last)
          | inr more ↦
              let there =
                next-is_in r hi h.blocks 0 (r + region_header) (h.regions r).first b bs v.linked
                  within (λ z. ground (arith, more, z)) in
              inr (
                omega (
                  arith,
                  is_in-end_of r hi h.blocks 0 (r + region_header) (h.regions r).first n bs v.linked
                      there,
                ))
        ] in
        ground (arith, away, low, top, back, end, on, facts)

    -- The list of the blocks that are left.
    still :
        Blocks r
          (r + (h.regions r).size)
          g.blocks
          0
          (r + region_header)
          (g.regions r).first
          (erase b bs)
    still =
        Blocks-release r (r + (h.regions r).size) h.blocks g.blocks (r + region_header)
          (h.regions r).first (g.regions r).first b bs v.linked within gone first_now

  -- If the region's list holds the block `b`, `kfree` takes it out: the rest is a well-formed list, its
  -- header is dead, and the usage and the counters shrink by what it took.
  pub free_block-Removes :
      (bs : List ℕ) → IsRegion h r bs → is_in b bs ≡ true → Removes h (free_block fuel b h) r b bs
  unfolding free_block
  free_block-Removes bs v within =
      let hi = r + (h.regions r).size in
      let took = taken-erase h.blocks g.blocks b bs (sizes bs v within) within in
      let room = taken-le r hi h.blocks 0 (r + region_header) (h.regions r).first bs v.linked in
      let same = size_kept bs v within in
      record {
        region = record {
          linked =
              subst
                (λ n.
                  Blocks r (r + n) g.blocks 0 (r + region_header) (g.regions r).first (erase b bs))
                (sym same) (still bs v within);
          used = less bs v within ∙ omega (arith, took, room, v.used, v.short);
          placed = v.placed;
          high = subst (λ n. r + n < 2 ^ 64) (sym same) v.high;
          short = subst (λ n. n < 2 ^ 32) (sym same) v.short;
        };
        dead = ground arith;
        sizes = λ x. (sizes bs v within x, ground arith);
        outside = far bs v within;
        other_regions = rest_kept bs v within;
        header = kept_header bs v within;
        counted = ground arith;
      }
