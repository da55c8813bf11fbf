-- ===== src/Mbr/Space.antt =====
-- find_free_lba: the sector that it returns lies in no partition of an ascending table, but the sectors
-- behind it may.
use podumat_os.Prelude.{
  ℕ, ◌+◌, ◌^◌, ◌≤◌, ◌<◌, ◌≡◌, refl, ◌⊎◌, inl, inr, Bool, true, List, [], ◌∷◌, some, ltb, ◌==◌,
  if◌then◌else◌, arith, ◌&&◌, ap, subst, ◌∙◌, sym, u32,
}
use podumat_os.Disk.{Device}
use podumat_os.Mbr.Sector.{Partition, Mbr}
use podumat_os.Mbr.{read, room, skip_over, first_gap, find_free_lba}

-- The entries that the loop passes over.
abbrev pub is_unused : Partition → Bool
is_unused p = p.type == 0 && p.sector_count == 0

-- Sector `c` lies in partition `p`.
abbrev pub Covers : Partition → ℕ → Type 0
Covers p c = (p.lba_start ≤ c) × (c < p.lba_start + p.sector_count)

-- The partitions in use stand in ascending order, within the first 2 ^ 31 sectors.
abbrev pub IsAscending : ℕ → List Partition → Type 0
IsAscending low [] = Unit {0}
IsAscending low (p ∷ ps) =
    ((is_unused p ≡ true) × IsAscending low ps)
    ⊎ ((low ≤ p.lba_start)
        × (p.lba_start + p.sector_count ≤ 2 ^ 31)
        × IsAscending (p.lba_start + p.sector_count) ps)

abbrev pub NoneCovers : ℕ → List Partition → Type 0
NoneCovers c [] = Unit {0}
NoneCovers c (p ∷ ps) = (¬ Covers p c) × NoneCovers c ps

skip_over_lem :
    (c : ℕ) (p : Partition)
    → c ≤ 2 ^ 31
    → p.lba_start + p.sector_count ≤ 2 ^ 31
    → (c ≤ skip_over c p)
      × (skip_over c p ≤ 2 ^ 31)
      × ((skip_over c p ≡ c) ⊎ (p.lba_start ≤ skip_over c p))
      × (¬ Covers p (skip_over c p))
unfolding skip_over
skip_over_lem c p small fits = (ground arith, ground arith, ground arith, λ h. ground (arith, h))

skip_over_unused : (c : ℕ) (p : Partition) → is_unused p ≡ true → skip_over c p ≡ c
unfolding skip_over
skip_over_unused c p e = simp e refl

not_covered : (p : Partition) (c : ℕ) → is_unused p ≡ true → ¬ Covers p c
not_covered p c e h = ground (arith, e, h)

abbrev IsGap : ℕ → ℕ → List Partition → ℕ → Type 0
IsGap low c ps r = ((r ≡ c) ⊎ (low ≤ r)) × (r ≤ 2 ^ 31) × (c ≤ r) × NoneCovers r ps

stays_out :
    (p : Partition) (k r : ℕ)
    → (r ≡ k) ⊎ (p.lba_start + p.sector_count ≤ r)
    → ¬ Covers p k
    → ¬ Covers p r
stays_out p k r (inl e) out h = out (subst (Covers p) e h)
stays_out p k r (inr past) out h = omega arith

first_gap_lem :
    (low c : ℕ) (ps : List Partition)
    → c ≤ 2 ^ 31
    → IsAscending low ps
    → IsGap low c ps (first_gap c ps)
unfolding first_gap
first_gap_lem low c [] small asc = (inl refl, small, omega arith, tt)
first_gap_lem low c (p ∷ ps) small (inl (unused, asc)) =
    let (way, few, up, clear) = first_gap_lem low c ps small asc in
    subst (λ k. IsGap low c (p ∷ ps) (first_gap k ps)) (sym (skip_over_unused c p unused))
      (way, few, up, (not_covered p (first_gap c ps) unused, clear))
first_gap_lem low c (p ∷ ps) small (inr (above, fits, asc)) =
    let (grows, bounded, moved, out) = skip_over_lem c p small fits in
    let (way, few, up, clear) =
      first_gap_lem (p.lba_start + p.sector_count) (skip_over c p) ps bounded asc in
    (
      farther low c p (skip_over c p) (first_gap (skip_over c p) ps) way moved above,
      few,
      omega (arith, up, grows),
      (stays_out p (skip_over c p) (first_gap (skip_over c p) ps) way out, clear),
    )
  where
    farther :
        (low c : ℕ) (p : Partition) (k r : ℕ)
        → (r ≡ k) ⊎ (p.lba_start + p.sector_count ≤ r)
        → (k ≡ c) ⊎ (p.lba_start ≤ k)
        → low ≤ p.lba_start
        → (r ≡ c) ⊎ (low ≤ r)
    farther low c p k r way moved above = ground (arith, way, moved)

-- Every partition in use starts above sector `c`.
abbrev pub AllAbove : ℕ → List Partition → Type 0
AllAbove c [] = Unit {0}
AllAbove c (p ∷ ps) = ((is_unused p ≡ true) ⊎ (c < p.lba_start)) × AllAbove c ps

skip_over_above :
    (c : ℕ) (p : Partition) → (is_unused p ≡ true) ⊎ (c < p.lba_start) → skip_over c p ≡ c
unfolding skip_over
skip_over_above c p h = ground (arith, h)

first_gap_above : (c : ℕ) (ps : List Partition) → AllAbove c ps → first_gap c ps ≡ c
unfolding first_gap
first_gap_above c [] h = refl
first_gap_above c (p ∷ ps) h =
    ap (λ k. first_gap k ps) (skip_over_above c p h.0) ∙ first_gap_above c ps h.1

module _ (D : Device) where
  -- What `find_free_lba` returns, once the table is read.
  after_read :
      (needed : ℕ) (s : D.State) {m : Mbr}
      → (read D s).0 ≡ some m
      → (find_free_lba D needed s).0 ≡ (
          if ltb (D.sectors (read D s).1) (u32 (first_gap 2048 m.partitions + needed))
          then 0
          else first_gap 2048 m.partitions)
  unfolding find_free_lba room
  after_read needed s {m} e = ap (λ o. (room D needed (o, (read D s).1)).0) e

  -- Where the table is read, its partitions ascend within 2 ^ 31 sectors and fewer than 2 ^ 31 are
  -- wanted, a result above 0 is at least 2048, lies in no partition, and leaves room for the
  -- sectors before the end of the disk.
  pub find_free_lba_lem :
      (needed : ℕ) (s : D.State) {m : Mbr}
      → needed < 2 ^ 31
      → (read D s).0 ≡ some m
      → IsAscending 2048 m.partitions
      → 0 < (find_free_lba D needed s).0
      → (2048 ≤ (find_free_lba D needed s).0)
        × NoneCovers (find_free_lba D needed s).0 m.partitions
        × ((find_free_lba D needed s).0 + needed ≤ D.sectors (read D s).1)
  find_free_lba_lem needed s {m} few e asc found =
      let (way, small, up, clear) = first_gap_lem 2048 2048 m.partitions (omega arith) asc in
      let result : (find_free_lba D needed s).0 ≡ first_gap 2048 m.partitions =
        ground (arith, after_read needed s e, found) in
      (
        omega (arith, result, up),
        subst (λ c. NoneCovers c m.partitions) (sym result) clear,
        ground (arith, after_read needed s e, found, small),
      )

  -- Where the table is read, every partition in use starts above sector 2048 and fewer than 2 ^ 31
  -- sectors are wanted, which the disk has behind sector 2048, the result is 2048, however close
  -- the next partition is.
  pub find_free_lba_ignores_size :
      (needed : ℕ) (s : D.State) {m : Mbr}
      → needed < 2 ^ 31
      → (read D s).0 ≡ some m
      → AllAbove 2048 m.partitions
      → 2048 + needed ≤ D.sectors (read D s).1
      → (find_free_lba D needed s).0 ≡ 2048
  find_free_lba_ignores_size needed s {m} few e above room_left =
      ground (arith, after_read needed s e, first_gap_above 2048 m.partitions above)
