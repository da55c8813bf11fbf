-- ===== src/Fat32.antt =====
-- kernel/src/fs/fat32.cpp: the volume and its allocation table. `Fs` is the static `fs`; the disk is a
-- block device, whose state the functions return.
pub mod Directory
pub mod Files
pub mod Operations
pub mod Paths
pub mod Walk
pub mod Walked
pub mod Ways
pub mod Printed
pub mod Find
pub mod Clusters
pub mod Names
pub mod Mount
pub mod Table
pub mod Entries
pub mod Chain
mod Tests
mod FileTests
use podumat_os.Prelude.{
  ℕ, zero, suc, ◌+◌, ◌-◌, ◌*◌, ◌/◌, ◌%◌, ◌^◌, Bool, true, false, not, ◌&&◌, ◌||◌, Option, none,
  some, List, [], ◌∷◌, ◌++◌, ltb, leb, ◌==◌, if◌then◌else◌, u32, replicate, take, drop,
}
use podumat_os.Prelude.Words.{byte_at, word_at, put_word}
use podumat_os.Disk.{Device}

-- The fields of the boot sector that the code reads.
pub record Bpb : Type 0 where
  pub bytes_per_sector : ℕ
  pub sectors_per_cluster : ℕ
  pub reserved_sectors : ℕ
  pub num_fats : ℕ
  pub fat_size_16 : ℕ
  pub total_sectors_32 : ℕ
  pub fat_size_32 : ℕ
  pub root_cluster : ℕ

pub half_at : List ℕ → ℕ → ℕ
half_at b i = byte_at b i + byte_at b (i + 1) * 2 ^ 8

-- `(BPB*)sector`
pub read_bpb : List ℕ → Bpb
unfolding half_at
read_bpb b = record {
  bytes_per_sector = half_at b 11;
  sectors_per_cluster = byte_at b 13;
  reserved_sectors = half_at b 14;
  num_fats = byte_at b 16;
  fat_size_16 = half_at b 22;
  total_sectors_32 = word_at b 32;
  fat_size_32 = word_at b 36;
  root_cluster = word_at b 44;
}

pub record PathStack : Type 0 where
  pub names : List (List ℕ)
  pub clusters : List ℕ
  pub depth : ℕ

pub record Fs : Type 0 where
  pub mounted : Bool
  pub drive_letter : ℕ
  pub partition_lba : ℕ
  pub bpb : Bpb
  pub fat_start : ℕ
  pub data_start : ℕ
  pub root_cluster : ℕ
  pub current_cluster : ℕ
  pub total_clusters : ℕ
  pub bytes_per_cluster : ℕ
  pub path : PathStack

-- A name that starts with the terminator is empty.
abbrev pub empty_path : PathStack
empty_path = record { names = replicate 32 []; clusters = replicate 32 0; depth = 0 }

-- What `mount` accepts of a boot sector.
pub mountable : Bpb → Bool
mountable b = b.bytes_per_sector == 512 && (b.fat_size_16 == 0 && not (b.fat_size_32 == 0))

-- Sectors before the data: a sum and a product of 32-bit numbers.
abbrev pub overhead : Bpb → ℕ
overhead b = u32 (b.reserved_sectors + u32 (b.num_fats * b.fat_size_32))

-- `fs` as `mount` fills it in; a subtraction of 32-bit numbers wraps.
pub mounted_fs : ℕ → ℕ → Bpb → Fs
mounted_fs lba letter b =
    let fat = u32 (lba + b.reserved_sectors) in
    let data_sectors = u32 (b.total_sectors_32 + 2 ^ 32 - overhead b) in
    record {
      mounted = true;
      drive_letter = letter;
      partition_lba = lba;
      bpb = b;
      fat_start = fat;
      data_start = u32 (fat + u32 (b.num_fats * b.fat_size_32));
      root_cluster = b.root_cluster;
      current_cluster = b.root_cluster;
      total_clusters = data_sectors / b.sectors_per_cluster;
      bytes_per_cluster = b.bytes_per_sector * b.sectors_per_cluster;
      path = empty_path;
    }

-- How a call of `mount` ends: with no sectors per cluster it divides by zero.
pub data Mounting : Type 0 where
  refused : Mounting
  divides_by_zero : Mounting
  mounts : Fs → Mounting

pub mount_sector : ℕ → ℕ → Bpb → Mounting
unfolding mountable mounted_fs
mount_sector lba letter b =
    if not (mountable b)
    then refused
    else if b.sectors_per_cluster == 0
    then divides_by_zero
    else mounts (mounted_fs lba letter b)

-- `cluster - 2` wraps.
pub cluster_to_lba : Fs → ℕ → ℕ
cluster_to_lba fs cluster =
    u32 (fs.data_start + u32 (u32 (cluster + 2 ^ 32 - 2) * fs.bpb.sectors_per_cluster))

-- Where the entry of a cluster stands in the table.
abbrev pub fat_sector : Fs → ℕ → ℕ
fat_sector fs cluster = u32 (fs.fat_start + u32 (cluster * 4) / 512)

abbrev pub ent_offset : ℕ → ℕ
ent_offset cluster = u32 (cluster * 4) % 512

abbrev pub low28 : ℕ → ℕ
low28 v = v % 2 ^ 28

-- The end mark, and what a read that fails gives.
abbrev pub end_mark : ℕ
end_mark = 0x0FFFFFFF

-- The test of the loops that follow a chain.
pub follows : ℕ → Bool
follows c = not (c == 0) && ltb c 0x0FFFFFF8

module _ (D : Device) where
  pub mount : ℕ → ℕ → D.State → Mounting × D.State
  unfolding mount_sector
  mount lba letter s =
      let (got, s') = D.read_sector lba s in
      (elim got [ none ↦ refused | some b ↦ mount_sector lba letter (read_bpb b) ], s')

  module _ (fs : Fs) where
    pub entry_of : Option (List ℕ) → ℕ → ℕ
    entry_of none cluster = end_mark
    entry_of (some b) cluster = low28 (word_at b (ent_offset cluster))

    pub next_cluster : ℕ → D.State → ℕ × D.State
    unfolding entry_of
    next_cluster cluster s =
        let (got, s') = D.read_sector (fat_sector fs cluster) s in (entry_of got cluster, s')

    -- The two writes, once the sector is read; the second one only if the first succeeds.
    pub write_second : ℕ → List ℕ → Bool × D.State → Bool × D.State
    write_second sector b (false, s) = (false, s)
    write_second sector b (true, s) = D.write_sector (u32 (sector + fs.bpb.fat_size_32)) b s

    pub write_both : ℕ → ℕ → Option (List ℕ) × D.State → Bool × D.State
    unfolding write_second
    write_both cluster value (none, s) = (false, s)
    write_both cluster value (some b, s) =
        let new = put_word b (ent_offset cluster) (low28 value) in
        write_second (fat_sector fs cluster) new (D.write_sector (fat_sector fs cluster) new s)

    pub set_cluster : ℕ → ℕ → D.State → Bool × D.State
    unfolding write_both
    set_cluster cluster value s = write_both cluster value (D.read_sector (fat_sector fs cluster) s)

    -- The loop of `alloc_cluster` from cluster `c`, with `left` clusters to try.
    pub alloc_loop : ℕ → ℕ → D.State → ℕ × D.State
    unfolding next_cluster set_cluster
    alloc_loop zero c s = (0, s)
    alloc_loop (suc left) c s =
        let (next, s') = next_cluster c s in
        let rest = alloc_loop left (c + 1) s' in
        if next == 0 then (c, (set_cluster c end_mark s').1) else rest

    pub alloc_cluster : D.State → ℕ × D.State
    unfolding alloc_loop
    alloc_cluster s = alloc_loop (u32 (fs.total_clusters + 2) - 2) 2 s

    -- The loop of `free_chain` for `fuel` rounds; `none` if it has not ended by then.
    pub free_chain : ℕ → ℕ → D.State → Option D.State
    unfolding next_cluster set_cluster follows
    free_chain zero start s = none
    free_chain (suc fuel) start s =
        let (next, s') = next_cluster start s in
        let rest = free_chain fuel next (set_cluster start 0 s').1 in
        if follows start then rest else some s
