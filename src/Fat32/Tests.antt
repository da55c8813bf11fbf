-- ===== src/Fat32/Tests.antt =====
-- The theorems on fat32.cpp at a small volume, and runs of its functions.
use podumat_os.Prelude.{
  ℕ, zero, suc, ◌+◌, ◌≤◌, ◌<◌, ◌≡◌, refl, ◌⊎◌, inl, inr, true, List, [], ◌∷◌, ◌==◌, if◌then◌else◌,
  length, replicate, set, Bool-cases, arith,
}
use podumat_os.Prelude.Words.{word_at, put_word}
use podumat_os.Disk.{put}
use podumat_os.Disk.Ram.{Medium, ram, blank, ram-IsReliable}
use podumat_os.Fat32.{Fs, empty_path, end_mark, follows, set_cluster, alloc_cluster, free_chain}
use podumat_os.Fat32.{mounted_fs, cluster_to_lba}
use podumat_os.Fat32.Names.{
  name_to_83, name_from_83, split_83, dotted, upper, name_from_83-name_to_83,
}
use podumat_os.Prelude.{take, some}
use podumat_os.Fat32.Clusters.{read_cluster, write_cluster, read_cluster-write_cluster}
use podumat_os.Fat32.Mount.{mounted_fs_clusters}
use podumat_os.Fat32.Table.{fat_entry, IsVolume}
use podumat_os.Fat32.Entries.{IsMirrored, set_cluster_lem, set_cluster-IsMirrored}
use podumat_os.Fat32.Chain.{NoneFree, TakesFirst, alloc_cluster_lem, Frees, free_chain_lem}

-- Two tables of two sectors each, at sectors 32 and 34, and a hundred clusters of one sector.
abbrev pub volume : Fs
volume = record {
  mounted = true;
  drive_letter = b'C';
  partition_lba = 0;
  bpb = record {
    bytes_per_sector = 512;
    sectors_per_cluster = 1;
    reserved_sectors = 32;
    num_fats = 2;
    fat_size_16 = 0;
    total_sectors_32 = 136;
    fat_size_32 = 2;
    root_cluster = 2;
  };
  fat_start = 32;
  data_start = 36;
  root_cluster = 2;
  current_cluster = 2;
  total_clusters = 100;
  bytes_per_cluster = 512;
  path = empty_path;
}

-- Cluster 2 leads to cluster 3, which ends the chain.
abbrev pub table_sector : List ℕ
table_sector = put_word (put_word (replicate 512 0) 8 3) 12 end_mark

abbrev pub disk : Medium
disk = record { cells = put (put (blank 1).cells 32 table_sector) 34 table_sector; size = 136 }

disk_full : (l : ℕ) → length (disk.cells l) ≡ 512
unfolding put_word
disk_full l = elim (Bool-cases (l == 34)) [
  | inl e ↦ simp e refl
  | inr n ↦ simp n (elim (Bool-cases (l == 32)) [ inl e ↦ simp e refl | inr m ↦ simp m refl ])
]

pub disk-IsVolume : IsVolume ram volume disk
disk-IsVolume = record {
  small = omega arith;
  inside = omega arith;
  disk = omega arith;
  fits = omega arith;
  full = disk_full;
}

set_cluster_lem_example :
    ((set_cluster ram volume 3 4 disk).0 ≡ true)
    × IsVolume ram volume (set_cluster ram volume 3 4 disk).1
    × ((e : ℕ)
        → e < 256
        → fat_entry ram volume (set_cluster ram volume 3 4 disk).1 e
          ≡ (if e == 3 then 4 else fat_entry ram volume disk e))
set_cluster_lem_example =
    set_cluster_lem ram ram-IsReliable volume 3 4 disk disk-IsVolume (omega arith)

disk_copied : (i : ℕ) → i < 2 → disk.cells (32 + i) ≡ disk.cells (32 + i + 2)
disk_copied zero h = refl
disk_copied (suc zero) h = refl
disk_copied (suc (suc i)) h = absurd (omega arith)

disk-IsMirrored : IsMirrored ram ram-IsReliable volume disk
disk-IsMirrored = record { copy = disk_copied }

set_cluster-IsMirrored_example :
    IsMirrored ram ram-IsReliable volume (set_cluster ram volume 3 4 disk).1
set_cluster-IsMirrored_example =
    set_cluster-IsMirrored ram ram-IsReliable volume 3 4 disk disk-IsVolume (omega arith)
      disk-IsMirrored

-- The same volume with one table: the data begins at sector 34.
abbrev one_table : Fs
one_table = record volume { data_start = 34; bpb = record volume.bpb { num_fats = 1 } }

one_table-IsVolume : IsVolume ram one_table disk
one_table-IsVolume = record {
  small = omega arith;
  inside = omega arith;
  disk = omega arith;
  fits = omega arith;
  full = disk_full;
}

alloc_cluster_lem_example :
    NoneFree ram ram-IsReliable volume 100 2 disk (alloc_cluster ram volume disk)
    ⊎ TakesFirst ram ram-IsReliable volume 100 2 disk (alloc_cluster ram volume disk)
alloc_cluster_lem_example = alloc_cluster_lem ram ram-IsReliable volume disk disk-IsVolume

free_chain_lem_example :
    Frees ram ram-IsReliable volume (2 ∷ 3 ∷ []) disk (free_chain ram volume 3 2 disk)
unfolding word_at put_word follows
free_chain_lem_example =
    free_chain_lem ram ram-IsReliable volume (2 ∷ 3 ∷ []) 3 2 disk disk-IsVolume
      (refl, refl, omega arith, (omega arith, tt), (refl, refl, omega arith, tt, refl))
      (omega arith)

-- The boot sector of the volume.
abbrev boot_sector : List ℕ
boot_sector =
    put_word
      (put_word (put_word (set (set (set (set (replicate 512 0) 12 2) 13 1) 14 32) 16 2) 32 136) 36
        2)
      44 2

abbrev bootable : Medium
bootable = record disk { cells = put disk.cells 0 boot_sector }

mounted_fs_clusters_example :
    let fs = mounted_fs 0 b'C' volume.bpb in
    (cluster_to_lba fs 5 ≡ 39) × (36 ≡ fs.data_start) × (cluster_to_lba fs 5 + 1 ≤ 136)
unfolding mounted_fs
mounted_fs_clusters_example =
    mounted_fs_clusters 0 b'C' volume.bpb 5
      (record { room = omega arith; inside = omega arith; some_sectors = omega arith })
      (omega arith) (omega arith)

-- readme.txt
name_from_83-name_to_83_example :
    name_from_83 (
      split_83
        (name_to_83 (b'r' ∷ b'e' ∷ b'a' ∷ b'd' ∷ b'm' ∷ b'e' ∷ b'.' ∷ b't' ∷ b'x' ∷ b't' ∷ [])))
    ≡ b'R' ∷ b'E' ∷ b'A' ∷ b'D' ∷ b'M' ∷ b'E' ∷ b'.' ∷ b'T' ∷ b'X' ∷ b'T' ∷ []
unfolding dotted upper
name_from_83-name_to_83_example =
    name_from_83-name_to_83 (b'r' ∷ b'e' ∷ b'a' ∷ b'd' ∷ b'm' ∷ b'e' ∷ []) (b't' ∷ b'x' ∷ b't' ∷ [])
      (omega arith) (omega arith) (omega arith) (omega arith) (omega arith)

read_cluster-write_cluster_example :
    let w = write_cluster ram volume 5 (replicate 512 7) disk in
    (w.0 ≡ true) × ((read_cluster ram volume 5 w.1).0 ≡ some (take 512 (replicate 512 7)))
unfolding cluster_to_lba
read_cluster-write_cluster_example =
    read_cluster-write_cluster ram ram-IsReliable volume 5 (replicate 512 7) disk (omega arith)
      (omega arith)
