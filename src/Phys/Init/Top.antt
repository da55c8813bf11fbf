-- ===== src/Phys/Init/Top.antt =====
-- How far phys::init tracks memory: up to the end of the last usable entry.
use podumat_os.Prelude.{
  ℕ, ◌+◌, ◌-◌, ◌*◌, ◌^◌, ◌≤◌, ◌<◌, ◌≡◌, refl, ◌⊎◌, inl, inr, Bool, true, false, not, [], ◌∷◌, none,
  some, ltb, leb, ◌==◌, if◌then◌else◌, Bool-cases, ==_iff, arith, ◌&&◌, ◌||◌,
}
use podumat_os.Phys.{page_size, add64}
use podumat_os.Phys.Init.{MemmapEntry, Memmap, max_addr, pages_up}
use podumat_os.Phys.Init.Offered.{offered, IsMemmap, inside}

module _ (usable : ℕ) where
  -- Every usable entry ends at `hi` or before, and some usable entry ends behind `lo`.
  pub ends_within : Memmap → ℕ → Bool
  ends_within [] hi = true
  ends_within (none ∷ rest) hi = ends_within rest hi
  ends_within (some e ∷ rest) hi =
      (not (e.kind == usable) || leb (e.base + e.length) hi) && ends_within rest hi

  pub ends_behind : Memmap → ℕ → Bool
  ends_behind [] lo = false
  ends_behind (none ∷ rest) lo = ends_behind rest lo
  ends_behind (some e ∷ rest) lo =
      (e.kind == usable && ltb lo (e.base + e.length)) || ends_behind rest lo

  -- The maximum after one entry.
  abbrev top_with : ℕ → MemmapEntry → ℕ
  top_with top e =
      if not (e.kind == usable)
      then top
      else if ltb top (add64 e.base e.length)
      then add64 e.base e.length
      else top

  top_with-le :
      (top hi : ℕ) (e : MemmapEntry)
      → ((e.kind ≡ usable) → e.base + e.length ≤ 2 ^ 52)
      → top_with top e ≤ hi
      → (top ≤ hi) × ((not (e.kind == usable) || leb (e.base + e.length) hi) ≡ true)
  top_with-le top hi e small h = elim (Bool-cases (e.kind == usable)) [
    | inl kind ↦
        let end : e.base + e.length ≤ 2 ^ 52 = small ((==_iff e.kind usable).0 kind) in
        (ground (arith, kind, end, h), ground (arith, kind, end, h))
    | inr other ↦ (ground (arith, other, h), ground (arith, other))
  ]

  top_with-lt :
      (top lo : ℕ) (e : MemmapEntry)
      → ((e.kind ≡ usable) → e.base + e.length ≤ 2 ^ 52)
      → lo < top_with top e
      → (lo < top) ⊎ ((e.kind == usable && ltb lo (e.base + e.length)) ≡ true)
  top_with-lt top lo e small h = elim (Bool-cases (e.kind == usable)) [
    | inl kind ↦
        let end : e.base + e.length ≤ 2 ^ 52 = small ((==_iff e.kind usable).0 kind) in
        elim (Bool-cases (ltb lo top)) [
          | inl low ↦ inl (ground (arith, low))
          | inr high ↦ inr (ground (arith, kind, end, h, high))
        ]
    | inr other ↦ inl (ground (arith, other, h))
  ]

  max_addr-within :
      (top hi : ℕ) (memmap : Memmap)
      → IsMemmap usable memmap
      → max_addr usable top memmap ≤ hi
      → (top ≤ hi) × (ends_within memmap hi ≡ true)
  unfolding max_addr ends_within
  max_addr-within top hi [] m h = (h, refl)
  max_addr-within top hi (none ∷ rest) m h = max_addr-within top hi rest m h
  max_addr-within top hi (some e ∷ rest) m h =
      let (below, more) = max_addr-within (top_with top e) hi rest m.1 h in
      let (first, one) = top_with-le top hi e (λ k. (m.0 k).0) below in
      (first, ground (arith, one, more))

  max_addr-behind :
      (top lo : ℕ) (memmap : Memmap)
      → IsMemmap usable memmap
      → lo < max_addr usable top memmap
      → (lo < top) ⊎ (ends_behind memmap lo ≡ true)
  unfolding max_addr ends_behind
  max_addr-behind top lo [] m h = inl h
  max_addr-behind top lo (none ∷ rest) m h = max_addr-behind top lo rest m h
  max_addr-behind top lo (some e ∷ rest) m h =
      elim (max_addr-behind (top_with top e) lo rest m.1 h) [
        | inl low ↦ elim (top_with-lt top lo e (λ k. (m.0 k).0) low) [
          | inl first ↦ inl first
          | inr one ↦ inr (ground (arith, one))
        ]
        | inr more ↦ inr (ground (arith, more))
      ]

  pub max_addr-le :
      (top : ℕ) (memmap : Memmap)
      → IsMemmap usable memmap
      → top ≤ 2 ^ 52
      → max_addr usable top memmap ≤ 2 ^ 52
  unfolding max_addr
  max_addr-le top [] m h = h
  max_addr-le top (none ∷ rest) m h = max_addr-le top rest m h
  max_addr-le top (some e ∷ rest) m h = max_addr-le (top_with top e) rest m.1 (ground (arith, m.0))

  -- Whole pages of usable memory lie where the usable entries end, or before.
  offered-within :
      (memmap : Memmap) (hi q : ℕ)
      → ends_within memmap hi ≡ true
      → offered usable memmap q ≡ true
      → q * page_size + page_size ≤ hi
  unfolding ends_within offered inside
  offered-within [] hi q h off = absurd (ground (arith, off))
  offered-within (none ∷ rest) hi q h off = offered-within rest hi q h off
  offered-within (some e ∷ rest) hi q h off = ground (arith, h, off, offered-within rest hi q)

  -- The number of pages is the least that holds every usable entry.
  pub record IsTotal (memmap : Memmap) (total : ℕ) : Type 0 where
    pub within : ends_within memmap (total * page_size) ≡ true
    pub behind : ends_behind memmap ((total - 1) * page_size) ≡ true
    pub reaches : (q : ℕ) → offered usable memmap q ≡ true → q < total

  pub max_addr-IsTotal :
      (memmap : Memmap)
      → IsMemmap usable memmap
      → 0 < max_addr usable 0 memmap
      → IsTotal memmap (pages_up (max_addr usable 0 memmap))
  max_addr-IsTotal memmap m pos =
      let top : ℕ = max_addr usable 0 memmap in
      let small = max_addr-le 0 memmap m (omega arith) in
      let within =
        (max_addr-within 0 (pages_up top * page_size) memmap m (omega (arith, small))).1 in
      record {
        within = within;
        behind =
            elim (max_addr-behind 0 ((pages_up top - 1) * page_size) memmap m
              (omega (arith, small, pos))) [
                | inl low ↦ absurd (omega (arith, low))
                | inr some_entry ↦ some_entry
              ];
        reaches =
            λ q off. omega (arith, offered-within memmap (pages_up top * page_size) q within off);
      }
