-- ===== src/Heap/Search.antt =====
-- place_block as a whole: it places a block, or no gap of the region is large enough.
use podumat_os.Prelude.{
  ℕ, ◌+◌, ◌-◌, ◌^◌, ◌≤◌, ◌<◌, ◌≡◌, refl, ◌⊎◌, inl, inr, true, false, List, [], ◌∷◌, Option, some,
  ◌>>=◌, leb, ◌==◌, length, Bool-cases, arith, ap, ◌∙◌,
}
use podumat_os.Phys.{sub64}
use podumat_os.Heap.Store.{Heap, block_header, region_header}
use podumat_os.Heap.{
  place_block, place_only, place_first, place_between, place_last, place_after, gap_loop, last_loop,
  needed,
}
use podumat_os.Heap.Blocks.{end_of, Blocks-le, is_in-le}
use podumat_os.Heap.Gaps.{
  last_of, InnerSmall, NoGap, InnerSmall-NoGap, last_of_lem, last_loop_lem, gap_loop_lem,
}
use podumat_os.Heap.Place.{IsRegion, Adds}
use podumat_os.Heap.Placed.{place_last-Adds, place_between-Adds, place_first-Adds, place_only-Adds}

-- How a call of `place_block` ends: with 0 and the heap as it was, since no gap is large enough, or
-- with the address behind the header of a block that it adds.
abbrev pub Placing : Heap → (r payload req : ℕ) → List ℕ → Option (ℕ × Heap) → Type 0
Placing h r payload req bs o =
    (p : ℕ) × (g : Heap) × (o ≡ some (p, g))
    × (((p ≡ 0)
          × (g ≡ h)
          × NoGap h.blocks (needed r payload req) (r + (h.regions r).size) (r + region_header) bs)
        ⊎ ((b : ℕ) × (cs : List ℕ) × (p ≡ b + block_header)
            × (r < b)
            × Adds h g r payload req b bs cs))

module _ (r payload req : ℕ) (h : Heap) (small : payload < 2 ^ 32) (asked : req < 2 ^ 32) where
  placed :
      (bs : List ℕ) (b : ℕ) (cs : List ℕ) (g : Heap) (o : Option (ℕ × Heap))
      → o ≡ some (b + block_header, g)
      → r < b
      → Adds h g r payload req b bs cs
      → Placing h r payload req bs o
  placed bs b cs g o e lt adds = (b + block_header, g, e, inr (b, cs, refl, lt, adds))

  module _ (a : ℕ) (bs : List ℕ) (v : IsRegion h r (a ∷ bs)) (fuel : ℕ)
      (enough : length bs < fuel) where
    abbrev first : ℕ
    first = (h.regions r).first

    abbrev hi : ℕ
    hi = r + (h.regions r).size

    -- The gap behind the last block.
    at_end :
        InnerSmall h.blocks (needed r payload req) a bs
        → leb (needed r payload req) (sub64 first (r + region_header)) ≡ false
        → Placing h r payload req
            (a ∷ bs)
            (last_loop r payload req fuel h first >>= place_after r payload req h)
    unfolding place_after place_last
    at_end inner tight =
        let (head, pos, le, header, rest) = v.linked in
        let (within, end, positive, room) =
          last_of_lem r hi h v.high 0 (r + region_header) first a bs v.linked in
        let l = last_of a bs in
        let up = Blocks-le r hi h.blocks a (end_of h.blocks a) (h.blocks a).next bs rest in
        let found : last_loop r payload req fuel h first ≡ some l =
          ap (last_loop r payload req fuel h) head
          ∙ last_loop_lem r hi h v.high payload req fuel 0 (r + region_header) first a bs v.linked
              enough in
        let gap : sub64 hi (end_of h.blocks l) ≡ hi - end_of h.blocks l =
          omega (arith, room, v.high) in
        let start : sub64 first (r + region_header) ≡ a - (r + region_header) =
          omega (arith, head, le, up, v.high) in
        let some_last : (l == 0) ≡ false = ground (arith, positive) in
        elim (Bool-cases (leb (needed r payload req) (hi - end_of h.blocks l))) [
          | inl fits ↦
              placed (a ∷ bs) (end_of h.blocks l) _ (place_last r payload req l h).1 _
                (simp (found, some_last, gap, fits) refl)
                (omega (
                  arith,
                  is_in-le r hi h.blocks 0 (r + region_header) first l (a ∷ bs) v.linked within,
                ))
                (place_last-Adds r payload req h small asked (a ∷ bs) v l within positive end
                  (ground (arith, fits, room)))
          | inr full ↦ (
            0,
            h,
            simp (found, some_last, gap, full) refl,
            inl (
              refl,
              refl,
              (
                ground (arith, tight, start),
                InnerSmall-NoGap h.blocks (needed r payload req) hi a bs inner
                    (ground (arith, full)),
              ),
            ),
          )
        ]

    -- A region that has blocks.
    among : Placing h r payload req (a ∷ bs) (place_block r payload req fuel h)
    unfolding place_block place_first place_between
    among =
        let (head, pos, le, header, rest) = v.linked in
        let up = Blocks-le r hi h.blocks a (end_of h.blocks a) (h.blocks a).next bs rest in
        let start : sub64 first (r + region_header) ≡ a - (r + region_header) =
          omega (arith, head, le, up, v.high) in
        let some_first : (first == 0) ≡ false = ground (arith, head, pos) in
        elim (Bool-cases (leb (needed r payload req) (sub64 first (r + region_header)))) [
          | inl roomy ↦
              placed (a ∷ bs) (r + region_header) _ (place_first r payload req h).1 _
                (simp (some_first, roomy) refl) (omega arith)
                (place_first-Adds r payload req h small asked a bs v
                  (ground (arith, roomy, start, le)))
          | inr tight ↦
              let (c, found, what) =
                gap_loop_lem r hi h v.high payload req fuel 0 (r + region_header) first a bs
                  v.linked enough in
              let found' : gap_loop r payload req fuel h first ≡ some c =
                ap (gap_loop r payload req fuel h) head ∙ found in
              elim what [
                | inl (none_found, inner) ↦
                    let zero_found : gap_loop r payload req fuel h first ≡ some 0 =
                      found' ∙ ap some none_found in
                    simp (some_first, tight, zero_found) (at_end inner tight)
                | inr (within, positive, more, fits) ↦
                    let some_gap : (c == 0) ≡ false = ground (arith, positive) in
                    placed (a ∷ bs) (end_of h.blocks c) _ (place_between r payload req c h).1 _
                      (simp (some_first, tight, found', some_gap) refl)
                      (omega (
                        arith,
                        is_in-le r hi h.blocks 0 (r + region_header) first c (a ∷ bs) v.linked
                            within,
                      ))
                      (place_between-Adds r payload req h small asked (a ∷ bs) v c within positive
                        more (ground (arith, fits)))
              ]
        ]

  -- On a well-formed region whose blocks are fewer than the fuel, and which is large enough if it has
  -- none, for a payload and a request of 32 bits, `place_block` ends: it adds a block of that size to
  -- the region and returns the address behind its header, or every gap of the region is too small and
  -- it returns 0 and changes nothing.
  pub place_block-Placing :
      (bs : List ℕ) (fuel : ℕ)
      → IsRegion h r bs
      → (bs ≡ [] → region_header + needed r payload req ≤ (h.regions r).size)
      → length bs < fuel + 1
      → Placing h r payload req bs (place_block r payload req fuel h)
  unfolding place_block place_only
  place_block-Placing [] fuel v room enough =
      let empty : ((h.regions r).first == 0) ≡ true = ground (arith, v.linked.0) in
      placed [] (r + region_header) _ (place_only r payload req h).1 _ (simp empty refl)
        (omega arith) (place_only-Adds r payload req h small asked v (room refl))
  place_block-Placing (a ∷ bs) fuel v room enough = among a bs v fuel (omega arith)
