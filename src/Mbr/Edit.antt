-- ===== src/Mbr/Edit.antt =====
-- What create_partition and delete_partition leave on the disk.
use podumat_os.Prelude.{
  ℕ, zero, suc, ◌<◌, ◌≡◌, refl, ◌⊎◌, inl, inr, true, false, List, [], ◌∷◌, Option, none, some, ltb,
  ◌==◌, if◌then◌else◌, set, ==_iff, Bool-cases, Option-cases, arith, ap, subst, ◌∙◌, sym, lt→ltb,
}
use podumat_os.Prelude.{length-set}
use podumat_os.Disk.{Device}
use podumat_os.Mbr.Sector.{
  Partition, Mbr, parse, serialize, empty_partition, parse-serialize_all, IsMbr, IsPartition,
  AllPartitions,
}
use podumat_os.Mbr.{
  read, write, replace, create_partition, delete_partition, fresh_partition, with_partition,
}

set-AllPartitions :
    (ps : List Partition) (i : ℕ) (p : Partition)
    → AllPartitions ps
    → IsPartition p
    → AllPartitions (set ps i p)
set-AllPartitions [] i p all v = tt
set-AllPartitions (q ∷ qs) zero p all v = (v, all.1)
set-AllPartitions (q ∷ qs) (suc i) p all v = (all.0, set-AllPartitions qs i p all.1 v)

with_partition-IsMbr :
    (m : Mbr) (i : ℕ) (p : Partition) → IsMbr m → IsPartition p → IsMbr (with_partition m i p)
unfolding with_partition
with_partition-IsMbr m i p v w = record {
  boot = v.boot;
  fit = set-AllPartitions m.partitions i p v.fit w;
  four = length-set m.partitions i p ∙ v.four;
  signed = omega arith;
}

module _ (D : Device) where
  -- The table as it stands on the medium.
  abbrev pub table : D.State → Mbr
  table s = parse (D.content s 0)

  replace-none : (index : ℕ) (p : Partition) (s : D.State) → (replace D index p (none, s)).0 ≡ false
  unfolding replace
  replace-none index p s = refl

  replaced :
      (index : ℕ) (p : Partition) (r : Option Mbr) (s : D.State) {m : Mbr}
      → r ≡ some m
      → IsMbr m
      → IsPartition p
      → (replace D index p (r, s)).0 ≡ true
      → table (replace D index p (r, s)).1 ≡ with_partition m index p
  unfolding replace write
  replaced index p none s {m} e v w done = absurd (cc e)
  replaced index p (some k) s {m} e v w done =
      let same : k ≡ m = ground (arith, e) in
      ap parse (D.write_true 0 (serialize (with_partition k index p)) s done)
      ∙ ap (λ (x : Mbr). parse (serialize (with_partition x index p))) same
      ∙ parse-serialize_all (with_partition m index p) (with_partition-IsMbr m index p v w)

  -- A read that succeeds gives the table of the medium.
  pub read-table : (s : D.State) {m : Mbr} → (read D s).0 ≡ some m → m ≡ table s
  unfolding read
  read-table s {m} h = from (D.read_sector 0 s).0 refl h
    where
      from :
          (o : Option (List ℕ))
          → (D.read_sector 0 s).0 ≡ o
          → (elim o [ none ↦ none | some bytes ↦ some (parse bytes) ]) ≡ some m
          → m ≡ table s
      from none e k = absurd (cc k)
      from (some bytes) e k =
          let got : parse bytes ≡ m = ground (arith, k) in
          sym got ∙ ap parse (D.read_some 0 s bytes e)

  replace-read :
      (index : ℕ) (p : Partition) (s : D.State)
      → IsMbr (table s)
      → IsPartition p
      → (replace D index p (read D s)).0 ≡ true
      → table (replace D index p (read D s)).1 ≡ with_partition (table s) index p
  replace-read index p s v w done = elim (Option-cases (read D s).0) [
    | inl e ↦ absurd (
        cc (
          sym done
          ∙ ap (λ o. (replace D index p (o, (read D s).1)).0) e
          ∙ replace-none index p (read D s).1))
    | inr (m, e) ↦
        let same = read-table s e in
        replaced index p (read D s).0 (read D s).1 e (subst IsMbr (sym same) v) w done
        ∙ ap (λ (x : Mbr). with_partition x index p) same
  ]

  -- On a medium whose table has fields of their sizes, `delete_partition`, where it reports
  -- success, leaves that table with entry `index` zeroed and the signature set; it does so only
  -- for an index below 4.
  pub delete_partition_lem :
      (index : ℕ) (s : D.State)
      → IsMbr (table s)
      → (delete_partition D index s).0 ≡ true
      → (table (delete_partition D index s).1 ≡ with_partition (table s) index empty_partition)
        × (index < 4)
  unfolding delete_partition
  delete_partition_lem index s v done = elim (Bool-cases (ltb 3 index)) [
    | inl far ↦ absurd (cc (simp far at done))
    | inr near ↦ simp near (
      replace-read index empty_partition s v (refl, refl, omega arith, omega arith)
          (simp near at done),
      ground (arith, near),
    )
  ]

  -- An index above 3, a start below 2048 or no sectors is refused before the disk is touched.
  pub create_partition_refused :
      (index start sectors type : ℕ) (s : D.State)
      → (3 < index) ⊎ ((start < 2048) ⊎ (sectors ≡ 0))
      → create_partition D index start sectors type s ≡ (false, s)
  unfolding create_partition
  create_partition_refused index start sectors type s (inl far) = simp (lt→ltb 3 index far) refl
  create_partition_refused index start sectors type s (inr bad) = elim (Bool-cases (ltb 3 index)) [
    | inl far ↦ simp far refl
    | inr near ↦ simp near (by_range bad)
  ]
    where
      by_range :
          (start < 2048) ⊎ (sectors ≡ 0)
          → (if ltb start 2048
              then (false, s)
              else if sectors == 0
              then (false, s)
              else replace D index (fresh_partition start sectors type) (read D s))
            ≡ (false, s)
      by_range (inl low) = simp (lt→ltb start 2048 low) refl
      by_range (inr none_wanted) = elim (Bool-cases (ltb start 2048)) [
        | inl low ↦ simp low refl
        | inr high ↦ simp (high, (==_iff sectors 0).1 none_wanted) refl
      ]
