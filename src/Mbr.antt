-- ===== src/Mbr.antt =====
-- kernel/src/fs/mbr.cpp: the partition table in sector 0. `MBR` is the packed struct; the disk is a
-- block device, whose state the functions return.
pub mod Sector
pub mod Edit
pub mod Space
mod Tests
use podumat_os.Prelude.{
  ℕ, zero, suc, ◌+◌, ◌*◌, ◌/◌, ◌%◌, Bool, true, false, ◌&&◌, ◌||◌, Option, none, some, List, [],
  ◌∷◌, ltb, leb, ◌==◌, if◌then◌else◌, u32, get_or, set,
}
use podumat_os.Disk.{Device}
use Sector.{Partition, Mbr, parse, serialize, empty_partition}

abbrev pub signature_bytes : ℕ
signature_bytes = 0xAA55

-- The entry that `create_partition` fills in.
abbrev pub fresh_partition : ℕ → ℕ → ℕ → Partition
fresh_partition start sectors type = record {
  boot_flag = 0;
  chs_start = 0 ∷ 0 ∷ 0 ∷ [];
  type = type;
  chs_end = 0 ∷ 0 ∷ 0 ∷ [];
  lba_start = start;
  sector_count = sectors;
}

-- The table with entry `index` replaced, and the signature set.
pub with_partition : Mbr → ℕ → Partition → Mbr
with_partition m index p = record m {
  partitions = set m.partitions index p;
  signature = signature_bytes;
}

abbrev align : ℕ → ℕ
align c = if c % 2048 == 0 then c else u32 ((c / 2048 + 1) * 2048)

-- One round of the loop of `find_free_lba`.
pub skip_over : ℕ → Partition → ℕ
skip_over candidate p =
    let end = u32 (p.lba_start + p.sector_count) in
    if p.type == 0 && p.sector_count == 0
    then candidate
    else if leb p.lba_start candidate && ltb candidate end
    then align end
    else candidate

pub first_gap : ℕ → List Partition → ℕ
first_gap candidate [] = candidate
first_gap candidate (p ∷ ps) = first_gap (skip_over candidate p) ps

module _ (D : Device) where
  pub read : D.State → Option Mbr × D.State
  read s =
      let (got, s') = D.read_sector 0 s in
      (elim got [ none ↦ none | some bytes ↦ some (parse bytes) ], s')

  pub write : Mbr → D.State → Bool × D.State
  write m s = D.write_sector 0 (serialize m) s

  -- What `create_partition` and `delete_partition` do once the table is read.
  pub replace : ℕ → Partition → Option Mbr × D.State → Bool × D.State
  unfolding write with_partition
  replace index p (none, s) = (false, s)
  replace index p (some m, s) = write (with_partition m index p) s

  -- The index is not negative here.
  pub create_partition : (index start sectors type : ℕ) → D.State → Bool × D.State
  unfolding read replace
  create_partition index start sectors type s =
      if ltb 3 index
      then (false, s)
      else if ltb start 2048
      then (false, s)
      else if sectors == 0
      then (false, s)
      else replace index (fresh_partition start sectors type) (read s)

  pub delete_partition : ℕ → D.State → Bool × D.State
  unfolding read replace
  delete_partition index s =
      if ltb 3 index then (false, s) else replace index empty_partition (read s)

  pub room : ℕ → Option Mbr × D.State → ℕ × D.State
  room needed (none, s) = (0, s)
  room needed (some m, s) =
      let c = first_gap 2048 m.partitions in
      (if ltb (D.sectors s) (u32 (c + needed)) then 0 else c, s)

  pub find_free_lba : ℕ → D.State → ℕ × D.State
  unfolding room read
  find_free_lba needed s = room needed (read s)
