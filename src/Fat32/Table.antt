-- ===== src/Fat32/Table.antt =====
-- The allocation table as a function from clusters to entries: what next_cluster reads and set_cluster
-- changes, on a disk without faults.
use podumat_os.Prelude.{
  ℕ, ◌+◌, ◌*◌, ◌/◌, ◌%◌, ◌^◌, ◌≤◌, ◌<◌, ◌≡◌, refl, inl, inr, Bool, true, false, List, some, ◌==◌,
  if◌then◌else◌, length, Bool-cases, arith, ap, subst, ◌∙◌, sym, u32,
}
use podumat_os.Prelude.Words.{word_at, put_word, length-put_word}
use podumat_os.Disk.Stores.{write_content}
use podumat_os.Disk.{Device, IsReliable, put}
use podumat_os.Fat32.{
  Fs, fat_sector, ent_offset, low28, entry_of, next_cluster, write_second, write_both, set_cluster,
}

module _ (D : Device) (fs : Fs) where
  -- The entry of a cluster, as the medium holds it.
  abbrev pub fat_entry : D.State → ℕ → ℕ
  fat_entry s c = low28 (word_at (D.content s (fat_sector fs c)) (ent_offset c))

  -- Both tables lie on the disk, and they have an entry for every cluster.
  pub record IsVolume (s : D.State) : Type 0 where
    pub small : fs.bpb.fat_size_32 ≤ 2 ^ 21
    pub inside : fs.fat_start + 2 * fs.bpb.fat_size_32 ≤ D.sectors s
    pub disk : D.sectors s ≤ 2 ^ 32
    pub fits : fs.total_clusters + 2 ≤ 128 * fs.bpb.fat_size_32
    pub full : (l : ℕ) → length (D.content s l) ≡ 512

  -- The table has an entry for `c`.
  abbrev pub IsCluster : ℕ → Type 0
  IsCluster c = c < 128 * fs.bpb.fat_size_32

  pub sector_of :
      (s : D.State) (c : ℕ) → IsVolume s → IsCluster c → fat_sector fs c ≡ fs.fat_start + c / 128
  sector_of s c v h = omega (arith, v.small, v.inside, v.disk)

  pub offset_of : (s : D.State) (c : ℕ) → IsVolume s → IsCluster c → ent_offset c ≡ c % 128 * 4
  offset_of s c v h = omega (arith, v.small)

  sector_inside : (s : D.State) (c : ℕ) → IsVolume s → IsCluster c → fat_sector fs c < D.sectors s
  sector_inside s c v h = omega (arith, sector_of s c v h, v.inside)

  pub mirror_of :
      (s : D.State) (c : ℕ)
      → IsVolume s
      → IsCluster c
      → u32 (fat_sector fs c + fs.bpb.fat_size_32) ≡ fs.fat_start + c / 128 + fs.bpb.fat_size_32
  mirror_of s c v h = omega (arith, sector_of s c v h, v.inside, v.disk)

  mirror_inside :
      (s : D.State) (c : ℕ)
      → IsVolume s
      → IsCluster c
      → u32 (fat_sector fs c + fs.bpb.fat_size_32) < D.sectors s
  mirror_inside s c v h = omega (arith, mirror_of s c v h, v.inside)

  pub read-IsVolume : (l : ℕ) (s : D.State) → IsVolume s → IsVolume (D.read_sector l s).1
  read-IsVolume l s v = record {
    small = v.small;
    inside =
        subst (λ n. fs.fat_start + 2 * fs.bpb.fat_size_32 ≤ n) (sym (D.read_sectors l s)) v.inside;
    disk = subst (λ n. n ≤ 2 ^ 32) (sym (D.read_sectors l s)) v.disk;
    fits = v.fits;
    full = λ m. ap length (D.read_content l s m) ∙ v.full m;
  }

  module _ (R : IsReliable D) where
    write-IsVolume :
        (l : ℕ) (bytes : List ℕ) (s : D.State)
        → l < D.sectors s
        → length bytes ≡ 512
        → IsVolume s
        → IsVolume (D.write_sector l bytes s).1
    write-IsVolume l bytes s h long v = record {
      small = v.small;
      inside =
          subst (λ n. fs.fat_start + 2 * fs.bpb.fat_size_32 ≤ n) (sym (D.write_sectors l bytes s))
            v.inside;
      disk = subst (λ n. n ≤ 2 ^ 32) (sym (D.write_sectors l bytes s)) v.disk;
      fits = v.fits;
      full = λ m. ap length (write_content D R l bytes s m h) ∙ either m;
    }
      where
        either : (m : ℕ) → length (put (D.content s) l bytes m) ≡ 512
        either m = elim (Bool-cases (m == l)) [ inl e ↦ simp e long | inr e ↦ simp e (v.full m) ]

    -- On a disk without faults and a volume whose tables lie on it, `next_cluster` on a cluster of
    -- the table returns its entry on the medium, and leaves the medium and the volume's shape as
    -- they are.
    pub next_cluster_lem :
        (c : ℕ) (s : D.State)
        → IsVolume s
        → IsCluster c
        → ((next_cluster D fs c s).0 ≡ fat_entry s c)
          × IsVolume (next_cluster D fs c s).1
          × ((m : ℕ) → D.content (next_cluster D fs c s).1 m ≡ D.content s m)
    unfolding next_cluster entry_of
    next_cluster_lem c s v h = (
      ap (λ o. entry_of D fs o c) (R.reads (fat_sector fs c) s (sector_inside s c v h)) ∙ found,
      read-IsVolume (fat_sector fs c) s v,
      D.read_content (fat_sector fs c) s,
    )
      where
        found : entry_of D fs (some (D.content s (fat_sector fs c))) c ≡ fat_entry s c
        found = refl

    -- The sector that `set_cluster` writes twice.
    abbrev pub new_sector : ℕ → ℕ → D.State → List ℕ
    new_sector c value s = put_word (D.content s (fat_sector fs c)) (ent_offset c) (low28 value)

    abbrev pub mirror : ℕ → ℕ
    mirror c = u32 (fat_sector fs c + fs.bpb.fat_size_32)

    abbrev Sets : ℕ → List ℕ → D.State → Bool × D.State → Type 0
    Sets c new s r =
        (r.0 ≡ true)
        × IsVolume r.1
        × ((m : ℕ)
            → D.content r.1 m ≡ put (put (D.content s) (fat_sector fs c) new) (mirror c) new m)

    second :
        (c : ℕ) (new : List ℕ) (s t : D.State) (done : Bool)
        → done ≡ true
        → IsCluster c
        → length new ≡ 512
        → IsVolume t
        → ((m : ℕ) → D.content t m ≡ put (D.content s) (fat_sector fs c) new m)
        → Sets c new s (write_second D fs (fat_sector fs c) new (done, t))
    unfolding write_second
    second c new s t false e h long v same = absurd (cc e)
    second c new s t true e h long v same =
        let place = mirror_inside t c v h in
        (
          R.writes (mirror c) new t place,
          write-IsVolume (mirror c) new t place long v,
          λ m.
              write_content D R (mirror c) new t m place
              ∙ ap (λ x. if m == mirror c then new else x) (same m),
        )

    -- `set_cluster` succeeds, and changes the two sectors that it writes.
    pub set_cluster_content :
        (c value : ℕ) (s : D.State)
        → IsVolume s
        → IsCluster c
        → Sets c (new_sector c value s) s (set_cluster D fs c value s)
    unfolding set_cluster write_both
    set_cluster_content c value s v h =
        let sector = fat_sector fs c in
        let s1 = (D.read_sector sector s).1 in
        let v1 = read-IsVolume sector s v in
        let new = new_sector c value s in
        let long : length new ≡ 512 =
          length-put_word (D.content s sector) (ent_offset c) (low28 value) ∙ v.full sector in
        let place = sector_inside s1 c v1 h in
        subst (λ o. Sets c new s (write_both D fs c value (o, s1)))
          (sym (R.reads sector s (sector_inside s c v h)))
          (second c new s (D.write_sector sector new s1).1 (D.write_sector sector new s1).0
            (R.writes sector new s1 place) h long (write-IsVolume sector new s1 place long v1)
            (λ m.
              write_content D R sector new s1 m place
              ∙ ap (λ x. if m == sector then new else x) (D.read_content sector s m)))
