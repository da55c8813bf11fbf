-- ===== src/Heap/Gaps.antt =====
-- The searches of place_block: the gap between blocks that it finds, and the last block.
use podumat_os.Prelude.{
  ℕ, zero, suc, ◌+◌, ◌-◌, ◌^◌, ◌≤◌, ◌<◌, ◌≡◌, ◌≢◌, refl, ◌⊎◌, inl, inr, true, List, [], ◌∷◌, some,
  leb, length, Bool-cases, arith,
}
use podumat_os.Prelude.Members.{is_in}
use podumat_os.Phys.{sub64}
use podumat_os.Heap.Store.{Block, Heap}
use podumat_os.Heap.{gap_loop, last_loop, needed}
use podumat_os.Heap.Blocks.{end_of, Blocks, Blocks-le}

-- The last of the blocks `a ∷ bs`.
unfoldable pub last_of : ℕ → List ℕ → ℕ
last_of a [] = a
last_of a (b ∷ bs) = last_of b bs

-- Every gap between two neighbours is smaller than `n`.
abbrev pub InnerSmall : (ℕ → Block) → ℕ → ℕ → List ℕ → Type 0
InnerSmall f n a [] = Unit {0}
InnerSmall f n a (b ∷ bs) = (b - end_of f a < n) × InnerSmall f n b bs

-- Every gap in the region is smaller than `n`, those at its ends included.
abbrev pub NoGap : (ℕ → Block) → (n hi lo : ℕ) → List ℕ → Type 0
NoGap f n hi lo [] = hi - lo < n
NoGap f n hi lo (a ∷ bs) = (a - lo < n) × NoGap f n hi (end_of f a) bs

pub InnerSmall-NoGap :
    (f : ℕ → Block) (n hi a : ℕ) (bs : List ℕ)
    → InnerSmall f n a bs
    → hi - end_of f (last_of a bs) < n
    → NoGap f n hi (end_of f a) bs
unfolding last_of
InnerSmall-NoGap f n hi a [] small last = last
InnerSmall-NoGap f n hi a (b ∷ bs) small last = (small.0, InnerSmall-NoGap f n hi b bs small.1 last)

module _ (r hi : ℕ) (h : Heap) (high : hi < 2 ^ 64) where
  pub last_of_lem :
      (prev lo q a : ℕ) (bs : List ℕ)
      → Blocks r hi h.blocks prev lo q (a ∷ bs)
      → (is_in (last_of a bs) (a ∷ bs) ≡ true)
        × ((h.blocks (last_of a bs)).next ≡ 0)
        × (0 < last_of a bs)
        × (end_of h.blocks (last_of a bs) ≤ hi)
  unfolding last_of is_in
  last_of_lem prev lo q a [] (e, pos, le, header, (end, room)) = (ground arith, end, pos, room)
  last_of_lem prev lo q a (b ∷ bs) (e, pos, le, header, rest) =
      let (within, end, positive, room) =
        last_of_lem a (end_of h.blocks a) (h.blocks a).next b bs rest in
      (ground (arith, within), end, positive, room)

  pub last_loop_lem :
      (payload req fuel prev lo q a : ℕ) (bs : List ℕ)
      → Blocks r hi h.blocks prev lo q (a ∷ bs)
      → length bs < fuel
      → last_loop r payload req fuel h a ≡ some (last_of a bs)
  unfolding last_loop last_of
  last_loop_lem payload req zero prev lo q a bs v lt = absurd (omega arith)
  last_loop_lem payload req (suc fuel) prev lo q a [] (e, pos, le, header, (end, room)) lt =
      ground (arith, end)
  last_loop_lem payload req (suc fuel) prev lo q a (b ∷ bs) (e, pos, le, header, rest) lt =
      let here : (h.blocks a).next ≡ b = rest.0 in
      ground (
        arith,
        here,
        rest.1,
        last_loop_lem payload req fuel a (end_of h.blocks a) (h.blocks a).next b bs rest,
      )

  module _ (payload req : ℕ) where
    -- What the loop over the gaps says with its result `c`.
    abbrev pub FindsGap : ℕ → List ℕ → ℕ → Type 0
    FindsGap a bs c =
        ((c ≡ 0) × InnerSmall h.blocks (needed r payload req) a bs)
        ⊎ ((is_in c (a ∷ bs) ≡ true)
            × (0 < c)
            × ((h.blocks c).next ≢ 0)
            × (end_of h.blocks c + needed r payload req ≤ (h.blocks c).next))

    pub gap_loop_lem :
        (fuel prev lo q a : ℕ) (bs : List ℕ)
        → Blocks r hi h.blocks prev lo q (a ∷ bs)
        → length bs < fuel
        → (c : ℕ) × (gap_loop r payload req fuel h a ≡ some c) × FindsGap a bs c
    unfolding gap_loop is_in
    gap_loop_lem zero prev lo q a bs v lt = absurd (omega arith)
    gap_loop_lem (suc fuel) prev lo q a [] (e, pos, le, header, (end, room)) lt =
        (0, ground (arith, end), inl (refl, tt))
    gap_loop_lem (suc fuel) prev lo q a (b ∷ bs) (e, pos, le, header, rest) lt =
        let next : (h.blocks a).next ≡ b = rest.0 in
        let up = Blocks-le r hi h.blocks b (end_of h.blocks b) (h.blocks b).next bs rest.4 in
        let gap : sub64 (h.blocks a).next (end_of h.blocks a) ≡ b - end_of h.blocks a =
          omega (arith, next, rest.2, up) in
        elim (Bool-cases (leb (needed r payload req) (b - end_of h.blocks a))) [
          | inl fits ↦ (
            a,
            ground (arith, gap, fits, next, rest.1),
            inr (
              ground arith,
              pos,
              ground (arith, next, rest.1),
              ground (arith, fits, next, rest.2),
            ),
          )
          | inr small ↦
              let (c, found, what) =
                gap_loop_lem fuel a (end_of h.blocks a) (h.blocks a).next b bs rest (omega arith) in
              (
                c,
                ground (arith, gap, small, next, rest.1, found),
                elim what [
                  | inl (none_found, inner) ↦ inl (none_found, (ground (arith, small), inner))
                  | inr (within, positive, more, fits) ↦
                      inr (ground (arith, within), positive, more, fits)
                ],
              )
        ]
