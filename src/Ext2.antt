-- ===== src/Ext2.antt =====
-- kernel/src/fs/ext2.cpp: blocks, the superblock, the group descriptors and the inodes of a volume. A
-- statement of a call is an action on the volume that may fail, which ends the call with false.
pub mod Actions
pub mod Bitmaps
pub mod Tree
pub mod Entries
pub mod Directory
pub mod Paths
pub mod Mount
pub mod Files
pub mod Calls
pub mod CurrentDir
pub mod Relative
pub mod Sought
pub mod Frames
pub mod Reached
pub mod Inserted
pub mod FirstClear
pub mod Geometry
pub mod Blocks
pub mod Loaded
pub mod BlockMap
pub mod Mapped
mod Tests
use Prim.{Unit, tt}
use podumat_os.Prelude.{
  ℕ, zero, suc, ◌+◌, ◌-◌, ◌*◌, ◌/◌, ◌%◌, ◌^◌, Bool, true, false, ◌||◌, Option, none, some, List,
  ltb, leb, ◌==◌, if◌then◌else◌, u32, take, drop,
}
use podumat_os.Prelude.Words.{word_at, short_at, put_bytes, slice}
use podumat_os.Disk.{Device}
use Actions.{Outcome, done, failed, divides_by_zero, Fs, Volume, Act, give, fail, ◌>>=◌, ◌>>◌}

-- The fields of the superblock and of a group descriptor.
abbrev pub s_inodes_count : List ℕ → ℕ
s_inodes_count sb = word_at sb 0

abbrev pub bg_block_bitmap : List ℕ → ℕ
bg_block_bitmap bgd = word_at bgd 0

abbrev pub bg_inode_bitmap : List ℕ → ℕ
bg_inode_bitmap bgd = word_at bgd 4

abbrev pub bg_inode_table : List ℕ → ℕ
bg_inode_table bgd = word_at bgd 8

-- `block` as a sector of the disk.
abbrev pub block_lba : Fs → ℕ → ℕ
block_lba fs block = u32 (fs.partition_lba + u32 (block * fs.sectors_per_block))

-- Sector `k` of a buffer.
abbrev pub sector_of : List ℕ → ℕ → List ℕ
sector_of buf k = slice buf (k * 512) 512

abbrev pub bgd_start_block : Fs → ℕ
bgd_start_block fs = u32 (fs.first_data_block + 1)

-- The block of a group's descriptor, and the byte in it.
abbrev pub bgd_block : Fs → ℕ → ℕ
bgd_block fs group = u32 (bgd_start_block fs + u32 (group * 32) / fs.block_size)

abbrev pub bgd_off : Fs → ℕ → ℕ
bgd_off fs group = u32 (group * 32) % fs.block_size

-- The byte of the disk where an inode starts, as the code counts it.
abbrev pub inode_byte : Fs → List ℕ → ℕ → ℕ
inode_byte fs bgd index =
    u32 (u32 (bg_inode_table bgd * fs.block_size) + u32 (index * fs.inode_size))

module _ (D : Device) where
  -- One round of the two loops; `rest` is what follows a call that succeeds.
  abbrev pub read_next :
      List ℕ
      → (List ℕ → D.State → (Bool × List ℕ) × D.State)
      → Option (List ℕ) × D.State
      → (Bool × List ℕ) × D.State
  read_next buf rest (none, s) = ((false, buf), s)
  read_next buf rest (some b, s) = rest b s

  abbrev pub write_next : (D.State → Bool × D.State) → Bool × D.State → Bool × D.State
  write_next rest (false, s) = (false, s)
  write_next rest (true, s) = rest s

  -- The loops of read_block and write_block from sector `k` on; a read that fails leaves the sectors
  -- before it in the buffer.
  unfoldable pub read_loop : (left k lba : ℕ) → List ℕ → D.State → (Bool × List ℕ) × D.State
  read_loop zero k lba buf s = ((true, buf), s)
  read_loop (suc left) k lba buf s =
      read_next buf (λ b t. read_loop left (k + 1) lba (put_bytes buf (k * 512) b) t)
        (D.read_sector (u32 (lba + k)) s)

  unfoldable pub write_loop : (left k lba : ℕ) → List ℕ → D.State → Bool × D.State
  write_loop zero k lba buf s = (true, s)
  write_loop (suc left) k lba buf s =
      write_next (λ t. write_loop left (k + 1) lba buf t)
        (D.write_sector (u32 (lba + k)) (sector_of buf k) s)

  -- read_block into a buffer with these bytes.
  unfoldable pub read_block : Fs → ℕ → List ℕ → D.State → (Bool × List ℕ) × D.State
  read_block fs block buf s = read_loop fs.sectors_per_block 0 (block_lba fs block) buf s

  abbrev pub tested : Bool → Outcome Unit
  tested true = done tt
  tested false = failed

  -- `if (!read_block(block, g_buf)) return false;`, and for the two other buffers.
  unfoldable pub load_g : ℕ → Act D Unit
  load_g block v =
      let ((ok, buf), s) = read_block v.fs block v.g_buf v.disk in
      (tested ok, record v { g_buf = buf; disk = s })

  unfoldable pub load_g2 : ℕ → Act D Unit
  load_g2 block v =
      let ((ok, buf), s) = read_block v.fs block v.g_buf2 v.disk in
      (tested ok, record v { g_buf2 = buf; disk = s })

  unfoldable pub load_dir : ℕ → Act D Unit
  load_dir block v =
      let ((ok, buf), s) = read_block v.fs block v.dir_buf v.disk in
      (tested ok, record v { dir_buf = buf; disk = s })

  unfoldable pub write_block : ℕ → List ℕ → Act D Unit
  write_block block buf v =
      let (ok, s) = write_loop v.fs.sectors_per_block 0 (block_lba v.fs block) buf v.disk in
      (tested ok, record v { disk = s })

  -- `memcpy` of what the read gave to byte `off` of the superblock.
  abbrev pub half_got : (off : ℕ) → Volume D → Option (List ℕ) × D.State → Outcome Unit × Volume D
  half_got off v (none, s) = (failed, record v { disk = s })
  half_got off v (some b, s) =
      (done tt, record v { fs = record v.fs { sb = put_bytes v.fs.sb off b }; disk = s })

  -- The two halves of the superblock, with the sectors 2 and 3 of the partition.
  unfoldable pub read_half : ℕ → ℕ → Act D Unit
  read_half sector off v = half_got off v (D.read_sector (u32 (v.fs.partition_lba + sector)) v.disk)

  unfoldable pub write_half : ℕ → ℕ → Act D Unit
  write_half sector off v =
      let (ok, s) =
        D.write_sector (u32 (v.fs.partition_lba + sector)) (slice v.fs.sb off 512) v.disk in
      (tested ok, record v { disk = s })

  unfoldable pub read_superblock : Act D Unit
  read_superblock = do read_half 2 0; read_half 3 512

  unfoldable pub write_superblock : Act D Unit
  write_superblock = do write_half 2 0; write_half 3 512

  -- `if (!test) return false;`
  abbrev pub require : Bool → Act D Unit
  require true = give tt
  require false = fail

  -- What a function of the volume's fixed part and of the buffer g_buf gives.
  abbrev pub the_fs : Act D Fs
  the_fs v = (done v.fs, v)

  abbrev pub the_g : Act D (List ℕ)
  the_g v = (done v.g_buf, v)

  abbrev pub put_g : List ℕ → Act D Unit
  put_g b v = (done tt, record v { g_buf = b })

  unfoldable pub read_bgd : ℕ → Act D (List ℕ)
  read_bgd group = do
    fs ← the_fs
    require (ltb group fs.groups_count)
    load_g (bgd_block fs group)
    b ← the_g
    give (slice b (bgd_off fs group) 32)

  unfoldable pub write_bgd : ℕ → List ℕ → Act D Unit
  write_bgd group bgd = do
    fs ← the_fs
    require (ltb group fs.groups_count)
    load_g (bgd_block fs group)
    b ← the_g
    put_g (put_bytes b (bgd_off fs group) bgd)
    write_block (bgd_block fs group) (put_bytes b (bgd_off fs group) bgd)

  -- A division by the 32-bit number `n`.
  abbrev pub nonzero : ℕ → Act D Unit
  nonzero zero v = (divides_by_zero, v)
  nonzero (suc n) v = (done tt, v)

  -- The part that read_inode and write_inode share: it reads the inode's block and gives the byte
  -- of the disk where the inode starts.
  unfoldable pub locate_inode : ℕ → Act D ℕ
  locate_inode inode_num = do
    fs ← the_fs
    require (if inode_num == 0 then false else leb inode_num (s_inodes_count fs.sb))
    nonzero fs.inodes_per_group
    bgd ← read_bgd ((inode_num - 1) / fs.inodes_per_group)
    let byte_off = inode_byte fs bgd ((inode_num - 1) % fs.inodes_per_group)
    load_g (byte_off / fs.block_size)
    give byte_off

  unfoldable pub read_inode : ℕ → Act D (List ℕ)
  read_inode inode_num = do
    fs ← the_fs
    byte_off ← locate_inode inode_num
    b ← the_g
    give (slice b (byte_off % fs.block_size) 128)

  unfoldable pub write_inode : ℕ → List ℕ → Act D Unit
  write_inode inode_num inode = do
    fs ← the_fs
    byte_off ← locate_inode inode_num
    b ← the_g
    put_g (put_bytes b (byte_off % fs.block_size) inode)
    write_block (byte_off / fs.block_size) (put_bytes b (byte_off % fs.block_size) inode)
