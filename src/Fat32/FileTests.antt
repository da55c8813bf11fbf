-- ===== src/Fat32/FileTests.antt =====
-- The theorems on directories and paths at the small volume of Tests.
use podumat_os.Prelude.{
  ℕ, ◌≡◌, refl, inl, inr, List, [], ◌∷◌, ◌++◌, ◌==◌, length, replicate, set, Bool-cases, arith,
}
use podumat_os.Prelude.Words.{word_at, put_word}
use podumat_os.Disk.{put}
use podumat_os.Disk.Ram.{Medium, ram, ram-IsReliable}
use podumat_os.Fat32.{follows, cluster_to_lba, half_at}
use podumat_os.Fat32.Names.{name_to_83}
use podumat_os.Fat32.Files.{Place, entry_cluster, new_entry, put_entry, find_entry}
use podumat_os.Fat32.Directory.{Outcome, found, scan_entries, scan_entries-Outcome}
use podumat_os.Fat32.Paths.{Where, push, at_start}
use podumat_os.Fat32.Table.{IsVolume}
use podumat_os.Fat32.Find.{Finds, resolve, dir_sectors, find_entry_lem}
use podumat_os.Fat32.Tests.{volume, disk}

-- The root directory, in clusters 2 and 3, has 16 entries in the first of them: deleted ones, and then
-- `DOCS` in cluster 9.
abbrev dir_sector : List ℕ
dir_sector =
    put_entry (set (replicate 480 0xE5 ++ replicate 32 0) 0 0xE5) 15
      (new_entry (b'D' ∷ b'O' ∷ b'C' ∷ b'S' ∷ replicate 7 32) 0x10 9)

abbrev dir_disk : Medium
dir_disk = record disk { cells = put disk.cells 36 dir_sector }

dir_disk_full : (l : ℕ) → length (dir_disk.cells l) ≡ 512
unfolding put_word new_entry
dir_disk_full l = elim (Bool-cases (l == 36)) [
  | inl d ↦ simp d refl
  | inr a ↦ simp a (elim (Bool-cases (l == 34)) [
    | inl e ↦ simp e refl
    | inr n ↦ simp n (elim (Bool-cases (l == 32)) [ inl e ↦ simp e refl | inr m ↦ simp m refl ])
  ])
]

dir_disk-IsVolume : IsVolume ram volume dir_disk
dir_disk-IsVolume = record {
  small = omega arith;
  inside = omega arith;
  disk = omega arith;
  fits = omega arith;
  full = dir_disk_full;
}

find_entry_lem_example :
    Finds ram volume ram-IsReliable dir_disk
      (resolve dir_disk.cells
        (name_to_83 (b'd' ∷ b'o' ∷ b'c' ∷ b's' ∷ []))
        (dir_sectors volume (2 ∷ 3 ∷ [])))
      (find_entry ram volume 3 2 (b'd' ∷ b'o' ∷ b'c' ∷ b's' ∷ []) dir_disk)
unfolding word_at put_word follows cluster_to_lba
find_entry_lem_example =
    find_entry_lem ram volume ram-IsReliable (2 ∷ 3 ∷ []) 3 2 (b'd' ∷ b'o' ∷ b'c' ∷ b's' ∷ [])
      dir_disk dir_disk-IsVolume
      (refl, refl, omega arith, (omega arith, tt), (refl, refl, omega arith, tt, refl))
      (omega arith, (omega arith, tt)) (omega arith)

scan_entries-Outcome_example :
    Outcome 16 dir_sector (name_to_83 (b'd' ∷ b'o' ∷ b'c' ∷ b's' ∷ [])) (found 15)
unfolding scan_entries name_to_83 new_entry
scan_entries-Outcome_example =
    scan_entries-Outcome dir_sector (name_to_83 (b'd' ∷ b'o' ∷ b'c' ∷ b's' ∷ []))

-- `docs/none`: the directory is there, and it is empty.
abbrev to_none : List ℕ
to_none = b'd' ∷ b'o' ∷ b'c' ∷ b's' ∷ b'/' ∷ b'n' ∷ b'o' ∷ b'n' ∷ b'e' ∷ []

abbrev docs : Place
docs = record { bytes = dir_sector; sector = 36; index = 15 }

abbrev in_docs : Where
in_docs = push volume (b'd' ∷ b'o' ∷ b'c' ∷ b's' ∷ []) docs (at_start ram volume to_none)

in_docs_cluster : in_docs.cluster ≡ 9
unfolding entry_cluster half_at put_word new_entry
in_docs_cluster = refl
