-- ===== src/Heap/Layout.antt =====
-- The regions of the heap with the blocks of each, and what a change inside of one region does to them.
use podumat_os.Prelude.{
  ℕ, ◌+◌, ◌^◌, ◌≤◌, ◌<◌, ◌≡◌, ◌≢◌, refl, ◌⊎◌, inl, inr, true, List, [], ◌∷◌, ◌==◌, if◌then◌else◌,
  length, ==_iff, Bool-cases, arith, ap, subst, ◌∙◌, sym,
}
use podumat_os.Prelude.Members.{is_in}
use podumat_os.Heap.Store.{Region, Block, Heap, block_header, region_header}
use podumat_os.Heap.Owned.{IsBacked, IsBacked-frame, SameExtent}
use podumat_os.Heap.Blocks.{end_of, IsHeader, Blocks, Blocks-le}
use podumat_os.Heap.Sums.{taken}
use podumat_os.Heap.Place.{IsRegion}
use podumat_os.Heap.Regions.{Regions, Regions-frame}

-- Only the headers inside the region matter.
Blocks-inside :
    (r hi : ℕ) (f g : ℕ → Block) (prev lo p : ℕ) (bs : List ℕ)
    → ((x : ℕ) → lo ≤ x → x < hi → g x ≡ f x)
    → Blocks r hi f prev lo p bs
    → Blocks r hi g prev lo p bs × (taken g bs ≡ taken f bs)
unfolding taken
Blocks-inside r hi f g prev lo p [] same v = (v, refl)
Blocks-inside r hi f g prev lo p (a ∷ bs) same (e, pos, le, header, rest) =
    let end = Blocks-le r hi f a (end_of f a) (f a).next bs rest in
    let at = same a le (omega (arith, end)) in
    let (tail, sum) =
      Blocks-inside r hi f g a (end_of f a) (f a).next bs
        (λ x low top. same x (omega (arith, low, le)) top) rest in
    (
      (
        e,
        pos,
        le,
        subst (IsHeader r hi prev) (sym at) header,
        subst (λ (b : Block). Blocks r hi g a (a + block_header + b.size) b.next bs) (sym at) tail,
      ),
      omega (arith, sum, ap (λ (b : Block). b.size) at),
    )

-- The parts of a region's header that its blocks depend on.
abbrev pub SameHeader : (h g : Heap) → ℕ → Type 0
SameHeader h g r =
    ((g.regions r).first ≡ (h.regions r).first)
    × ((g.regions r).size ≡ (h.regions r).size)
    × ((g.regions r).usage ≡ (h.regions r).usage)

pub IsRegion_frame :
    (h g : Heap) (r : ℕ) (bs : List ℕ)
    → SameHeader h g r
    → ((x : ℕ) → r + region_header ≤ x → x < r + (h.regions r).size → g.blocks x ≡ h.blocks x)
    → IsRegion h r bs
    → IsRegion g r bs
IsRegion_frame h g r bs (f, s, u) same v =
    let hi = r + (h.regions r).size in
    let (links, sum) =
      Blocks-inside r hi h.blocks g.blocks 0 (r + region_header) (h.regions r).first bs same
        v.linked in
    record {
      linked =
          subst (λ p. Blocks r (r + (g.regions r).size) g.blocks 0 (r + region_header) p bs) (sym f)
            (subst (λ n. Blocks r (r + n) g.blocks 0 (r + region_header) (h.regions r).first bs)
              (sym s) links);
      used = omega (arith, u, sum, v.used);
      placed = v.placed;
      high = omega (arith, s, v.high);
      short = omega (arith, s, v.short);
    }

-- The regions `rs` and the blocks `bs r` of each; no two regions overlap.
pub record Layout (h : Heap) (rs : List ℕ) (bs : ℕ → List ℕ) : Type 0 where
  pub chain : Regions h.regions 0 h.root rs
  pub region : (r : ℕ) → is_in r rs ≡ true → IsRegion h r (bs r)
  pub apart :
      (r s : ℕ)
      → is_in r rs ≡ true
      → is_in s rs ≡ true
      → r ≢ s
      → (r + (h.regions r).size ≤ s) ⊎ (s + (h.regions s).size ≤ r)
  pub counted : h.region_count ≡ length rs
  pub few : length rs < 2 ^ 64
  pub backed : IsBacked h rs

-- `g` is `h` with the blocks `cs` in the region `r`, and with changes inside of it only.
pub record Changes (h g : Heap) (r : ℕ) (cs : List ℕ) : Type 0 where
  pub region : IsRegion g r cs
  pub outside :
      (x : ℕ) → (x < r + region_header) ⊎ (r + (h.regions r).size ≤ x) → g.blocks x ≡ h.blocks x
  pub other_regions : (x : ℕ) → x ≢ r → g.regions x ≡ h.regions x
  pub header :
      g.regions r
      ≡ record (h.regions r) { first = (g.regions r).first; usage = (g.regions r).usage }
  pub root_kept : g.root ≡ h.root
  pub count_kept : g.region_count ≡ h.region_count
  pub pages_kept : g.pages ≡ h.pages

-- The blocks of each region, with `cs` for `r`.
abbrev pub put_list : (r : ℕ) → List ℕ → (ℕ → List ℕ) → ℕ → List ℕ
put_list r cs bs x = if x == r then cs else bs x

abbrev SameShape : (h g : Heap) → ℕ → Type 0
SameShape h g x =
    ((g.regions x).prev ≡ (h.regions x).prev)
    × ((g.regions x).next ≡ (h.regions x).next)
    × ((g.regions x).size ≡ (h.regions x).size)

module _ (h g : Heap) (rs : List ℕ) (bs : ℕ → List ℕ) (v : Layout h rs bs) (r : ℕ) (cs : List ℕ)
    (here : is_in r rs ≡ true) (c : Changes h g r cs) where
  kept : (x : ℕ) → SameShape h g x
  kept x = elim (Bool-cases (x == r)) [
    | inl same ↦ subst (SameShape h g) (sym ((==_iff x r).0 same)) (
      ap (λ (y : Region). y.prev) c.header,
      ap (λ (y : Region). y.next) c.header,
      ap (λ (y : Region). y.size) c.header,
    )
    | inr other ↦
        let e = c.other_regions x (λ z. ground (arith, other, z)) in
        (
          ap (λ (y : Region). y.prev) e,
          ap (λ (y : Region). y.next) e,
          ap (λ (y : Region). y.size) e,
        )
  ]

  extent : (x : ℕ) → SameExtent h g x
  extent x = elim (Bool-cases (x == r)) [
    | inl same ↦
        subst (SameExtent h g) (sym ((==_iff x r).0 same))
          (ap (λ (y : Region). y.pages) c.header, ap (λ (y : Region). y.size) c.header)
    | inr other ↦
        let e = c.other_regions x (λ z. ground (arith, other, z)) in
        (ap (λ (y : Region). y.pages) e, ap (λ (y : Region). y.size) e)
  ]

  other_region : (x : ℕ) → is_in x rs ≡ true → x ≢ r → IsRegion g x (bs x)
  other_region x at ne =
      let e = c.other_regions x ne in
      let off = v.apart r x here at (λ z. ne (sym z)) in
      IsRegion_frame h g x (bs x)
        (
          ap (λ (y : Region). y.first) e,
          ap (λ (y : Region). y.size) e,
          ap (λ (y : Region). y.usage) e,
        )
        (λ y low top. c.outside y (ground (arith, off, low, top))) (v.region x at)

  -- A change inside one region.
  pub Changes-Layout : Layout g rs (put_list r cs bs)
  Changes-Layout = record {
    chain =
        subst (λ x. Regions g.regions 0 x rs) (sym c.root_kept)
          (Regions-frame h.regions g.regions 0 h.root rs (λ x at. ((kept x).0, (kept x).1))
            v.chain);
    region = λ x at. elim (Bool-cases (x == r)) [
      | inl same ↦ simp same (subst (λ y. IsRegion g y cs) (sym ((==_iff x r).0 same)) c.region)
      | inr other ↦ simp other (other_region x at (λ z. ground (arith, other, z)))
    ];
    apart = λ x y xin yin ne. ground (arith, v.apart x y xin yin ne, kept x, kept y);
    counted = c.count_kept ∙ v.counted;
    few = v.few;
    backed = IsBacked-frame h g rs c.pages_kept (λ x at. extent x) v.backed;
  }
