-- ===== src/Fat32/Entries.antt =====
-- set_cluster against the table: one entry changes, the second copy follows the first, and a volume with
-- one copy loses data.
use podumat_os.Prelude.{
  ℕ, ◌+◌, ◌*◌, ◌/◌, ◌<◌, ◌≡◌, ◌≢◌, refl, inl, inr, true, List, ◌==◌, if◌then◌else◌, ==_iff,
  Bool-cases, ne→==, arith, ap, ◌∙◌, sym,
}
use podumat_os.Prelude.Words.{word_at, word_at-put_word_ne, word_at-put_word_self}
use podumat_os.Disk.{Device, IsReliable, put}
use podumat_os.Fat32.{Fs, fat_sector, ent_offset, low28, set_cluster}
use podumat_os.Fat32.Table.{
  fat_entry, IsVolume, IsCluster, sector_of, offset_of, mirror_of, mirror, new_sector,
  set_cluster_content,
}

put_here : (f : ℕ → List ℕ) (l m : ℕ) (b : List ℕ) → m ≡ l → put f l b m ≡ b
put_here f l m b e = simp ((==_iff m l).1 e) refl

put_there : (f : ℕ → List ℕ) (l m : ℕ) (b : List ℕ) → m ≢ l → put f l b m ≡ f m
put_there f l m b e = simp (ne→== m l e) refl

module _ (D : Device) (R : IsReliable D) (fs : Fs) where
  module _ (c value : ℕ) (s : D.State) (v : IsVolume D fs s) (h : IsCluster D fs c) where
    -- A sector of the first table after the call.
    first_table :
        (e : ℕ)
        → IsCluster D fs e
        → D.content (set_cluster D fs c value s).1 (fat_sector fs e)
          ≡ put (D.content s) (fat_sector fs c) (new_sector D fs R c value s) (fat_sector fs e)
    first_table e k =
        (set_cluster_content D fs R c value s v h).2 (fat_sector fs e)
        ∙ put_there (put (D.content s) (fat_sector fs c) (new_sector D fs R c value s))
            (mirror D fs R c) (fat_sector fs e) _
            (λ same. omega (arith, same, sector_of D fs s e v k, mirror_of D fs s c v h))

    entry_in :
        (e : ℕ)
        → IsCluster D fs e
        → word_at
            (put (D.content s) (fat_sector fs c) (new_sector D fs R c value s) (fat_sector fs e))
            (ent_offset e)
          ≡ (if e == c then low28 value else word_at (D.content s (fat_sector fs e)) (ent_offset e))
    entry_in e k = elim (Bool-cases (e == c)) [
      | inl same ↦
          let at : e ≡ c = (==_iff e c).0 same in
          simp same (
            ap
              (λ x.
                word_at
                  (put (D.content s) (fat_sector fs c) (new_sector D fs R c value s)
                    (fat_sector fs x))
                  (ent_offset x))
              at
            ∙ ap (λ b. word_at b (ent_offset c))
                (put_here (D.content s) (fat_sector fs c) (fat_sector fs c) _ refl)
            ∙ word_at-put_word_self (D.content s (fat_sector fs c)) (ent_offset c) (low28 value)
                (omega (arith, v.full (fat_sector fs c), offset_of D fs s c v h)) (omega arith))
      | inr other ↦
          let apart : e ≢ c = λ same. ground (arith, other, same) in
          simp other (elim (Bool-cases (fat_sector fs e == fat_sector fs c)) [
            | inl near ↦
                let at : fat_sector fs e ≡ fat_sector fs c =
                  (==_iff (fat_sector fs e) (fat_sector fs c)).0 near in
                ap (λ b. word_at b (ent_offset e))
                  (put_here (D.content s) (fat_sector fs c) (fat_sector fs e) _ at)
                ∙ word_at-put_word_ne (D.content s (fat_sector fs c)) (ent_offset c) (low28 value)
                    (ent_offset e)
                    (omega (
                      arith,
                      at,
                      apart,
                      offset_of D fs s c v h,
                      offset_of D fs s e v k,
                      sector_of D fs s c v h,
                      sector_of D fs s e v k,
                    ))
                ∙ ap (λ l. word_at (D.content s l) (ent_offset e)) (sym at)
            | inr far ↦
                ap (λ b. word_at b (ent_offset e))
                  (put_there (D.content s) (fat_sector fs c) (fat_sector fs e) _
                    (λ same. ground (arith, far, same)))
          ])
    ]

    -- On a disk without faults and a volume whose tables lie on it, `set_cluster` on a cluster of
    -- the table succeeds, sets its entry to the low 28 bits of the value, and changes no other
    -- entry; the volume keeps its shape.
    pub set_cluster_lem :
        ((set_cluster D fs c value s).0 ≡ true)
        × IsVolume D fs (set_cluster D fs c value s).1
        × ((e : ℕ)
            → IsCluster D fs e
            → fat_entry D fs (set_cluster D fs c value s).1 e
              ≡ (if e == c then low28 value else fat_entry D fs s e))
    set_cluster_lem =
        let (done, kept, same) = set_cluster_content D fs R c value s v h in
        (
          done,
          kept,
          λ e k.
              ap (λ b. low28 (word_at b (ent_offset e))) (first_table e k)
              ∙ ap low28 (entry_in e k)
              ∙ tidy e,
        )
      where
        tidy :
            (e : ℕ)
            → low28 (
                if e == c
                then low28 value
                else word_at (D.content s (fat_sector fs e)) (ent_offset e))
              ≡ (if e == c then low28 value else fat_entry D fs s e)
        tidy e = elim (Bool-cases (e == c)) [
          | inl same ↦ simp same (omega arith)
          | inr other ↦ simp other refl
        ]

  -- Sector by sector, the second table is a copy of the first.
  pub record IsMirrored (s : D.State) : Type 0 where
    pub copy :
        (i : ℕ)
        → i < fs.bpb.fat_size_32
        → D.content s (fs.fat_start + i) ≡ D.content s (fs.fat_start + i + fs.bpb.fat_size_32)

  -- On a disk without faults and a volume whose tables lie on it, where the second table is a copy
  -- of the first, it still is after `set_cluster` on a cluster of the table.
  pub set_cluster-IsMirrored :
      (c value : ℕ) (s : D.State)
      → IsVolume D fs s
      → IsCluster D fs c
      → IsMirrored s
      → IsMirrored (set_cluster D fs c value s).1
  set_cluster-IsMirrored c value s v h copied =
      let same = (set_cluster_content D fs R c value s v h).2 in
      record {
        copy = λ i inside. ground (
          arith,
          same (fs.fat_start + i),
          same (fs.fat_start + i + fs.bpb.fat_size_32),
          sector_of D fs s c v h,
          mirror_of D fs s c v h,
          copied.copy i inside,
        );
      }

  -- On a disk without faults, for a volume that has one table, with its data right behind it,
  -- `set_cluster` makes a sector of the data equal to the sector of the table that it changes.
  pub set_cluster_one_fat :
      (c value : ℕ) (s : D.State)
      → IsVolume D fs s
      → IsCluster D fs c
      → fs.bpb.num_fats ≡ 1
      → fs.data_start ≡ fs.fat_start + fs.bpb.num_fats * fs.bpb.fat_size_32
      → D.content (set_cluster D fs c value s).1 (fs.data_start + c / 128)
        ≡ D.content (set_cluster D fs c value s).1 (fs.fat_start + c / 128)
  set_cluster_one_fat c value s v h one start =
      let same = (set_cluster_content D fs R c value s v h).2 in
      let at : fs.data_start + c / 128 ≡ mirror D fs R c =
        omega (arith, one, start, mirror_of D fs s c v h, mul_one one) in
      ground (
        arith,
        same (fs.data_start + c / 128),
        same (fs.fat_start + c / 128),
        sector_of D fs s c v h,
        at,
      )
    where
      mul_one : {n : ℕ} → n ≡ 1 → n * fs.bpb.fat_size_32 ≡ fs.bpb.fat_size_32
      mul_one e = omega (arith, ap (λ x. x * fs.bpb.fat_size_32) e)
