-- ===== src/Phys/Init/Offered.antt =====
-- The pages that a memory map offers, and the loop of phys::init that frees them.
use podumat_os.Prelude.{
  ℕ, ◌+◌, ◌-◌, ◌*◌, ◌^◌, ◌≤◌, ◌<◌, ◌≡◌, refl, ◌⊎◌, inl, inr, Bool, true, false, [], ◌∷◌, none, some,
  ltb, leb, ◌==◌, ==_iff, Bool-cases, arith, ◌&&◌, ◌||◌, ◌∙◌,
}
use podumat_os.Phys.{Phys, page_size, bit_test}
use podumat_os.Phys.Bitmap.{in_run}
use podumat_os.Phys.Init.Marks.{IsSound, Marks, clear_run-Marks}
use podumat_os.Phys.Init.{MemmapEntry, Memmap, first_page, end_page, clear_run, mark_usable}

module _ (usable : ℕ) where
  -- Page `q` lies whole inside the usable entry `e`.
  unfoldable pub inside : MemmapEntry → ℕ → Bool
  inside e q =
      e.kind == usable
      && (leb e.base (q * page_size) && leb (q * page_size + page_size) (e.base + e.length))

  -- The pages that the map offers: whole pages of usable memory above the first megabyte.
  unfoldable pub offered : Memmap → ℕ → Bool
  unfolding inside
  offered [] q = false
  offered (none ∷ rest) q = offered rest q
  offered (some e ∷ rest) q = (inside e q && leb 256 q) || offered rest q

  -- The boot protocol: usable entries do not overlap one another, and addresses have 52 bits.
  abbrev pub IsApart : MemmapEntry → Memmap → Type 0
  IsApart e [] = Unit {0}
  IsApart e (none ∷ rest) = IsApart e rest
  IsApart e (some f ∷ rest) =
      ((f.kind ≡ usable) → (e.base + e.length ≤ f.base) ⊎ (f.base + f.length ≤ e.base))
      × IsApart e rest

  abbrev pub IsMemmap : Memmap → Type 0
  IsMemmap [] = Unit {0}
  IsMemmap (none ∷ rest) = IsMemmap rest
  IsMemmap (some e ∷ rest) =
      ((e.kind ≡ usable) → (e.base + e.length ≤ 2 ^ 52) × IsApart e rest) × IsMemmap rest

  inside-IsApart :
      (e : MemmapEntry) (rest : Memmap) (q : ℕ)
      → IsApart e rest
      → inside e q ≡ true
      → offered rest q ≡ false
  unfolding offered
  inside-IsApart e [] q apart h = refl
  inside-IsApart e (none ∷ rest) q apart h = inside-IsApart e rest q apart h
  inside-IsApart e (some f ∷ rest) q apart h =
      ground (arith, inside-IsApart e rest q apart.1 h, apart.0, h)

  -- What the loop clears of one entry.
  entry_pages :
      (e : MemmapEntry) (total q : ℕ)
      → e.kind ≡ usable
      → e.base + e.length ≤ 2 ^ 52
      → in_run (first_page e) (end_page e total - first_page e) q
        ≡ ((inside e q && leb 256 q) && ltb q total)
  unfolding inside first_page end_page
  entry_pages e total q kind small = ground arith

  outside : (e : MemmapEntry) (q : ℕ) → (e.kind == usable) ≡ false → inside e q ≡ false
  unfolding inside
  outside e q other = simp other refl

  pub mark_usable-Marks :
      (s : Phys) (memmap : Memmap)
      → IsSound s
      → IsMemmap memmap
      → ((q : ℕ) → offered memmap q ≡ true → q < s.total_pages → bit_test s.bitmap q ≡ true)
      → Marks s (mark_usable usable s memmap) (λ q. offered memmap q && ltb q s.total_pages) false
  unfolding mark_usable offered
  mark_usable-Marks s [] v m used = record {
    pages = λ q. ground arith;
    same_total = refl;
    sound = v;
  }
  mark_usable-Marks s (none ∷ rest) v m used = mark_usable-Marks s rest v m used
  mark_usable-Marks s (some e ∷ rest) v m used = elim (Bool-cases (e.kind == usable)) [
    | inl kind ↦
        let is = (==_iff e.kind usable).0 kind in
        let good = m.0 is in
        let run = λ (q : ℕ). entry_pages e s.total_pages q is good.0 in
        let one =
          clear_run-Marks s (first_page e) (end_page e s.total_pages - first_page e) v (λ q lo hi.
            (used q (ground (arith, run q)) (ground (arith, run q)), ground (arith, run q))) in
        let later =
          mark_usable-Marks (clear_run s (first_page e) (end_page e s.total_pages - first_page e))
            rest one.sound m.1
            (λ q off lt. ground (
              arith,
              one.pages q,
              run q,
              inside-IsApart e rest q good.1,
              used q (ground (arith, off)) (ground (arith, lt, one.same_total)),
            )) in
        simp kind (record {
          pages = λ q. ground (arith, later.pages q, one.pages q, run q, one.same_total);
          same_total = later.same_total ∙ one.same_total;
          sound = later.sound;
        })
    | inr other ↦
        let later = mark_usable-Marks s rest v m.1 (λ q off lt. used q (ground (arith, off)) lt) in
        simp other (record {
          pages = λ q. ground (arith, later.pages q, outside e q other);
          same_total = later.same_total;
          sound = later.sound;
        })
  ]
