-- ===== src/Ext2/Mount.antt =====
-- mount of ext2.cpp: the superblock is read, and the geometry of the volume is taken from it.
use Prim.{Unit, tt}
use podumat_os.Prelude.{
  ℕ, ◌+◌, ◌-◌, ◌*◌, ◌/◌, ◌%◌, ◌^◌, true, false, ◌&&◌, List, [], ltb, leb, ◌==◌, if◌then◌else◌, u32,
  replicate,
}
use podumat_os.Prelude.Words.{word_at, short_at}
use podumat_os.Disk.{Device}
use podumat_os.Ext2.{read_superblock, require, the_fs, nonzero}
use podumat_os.Ext2.Actions.{done, Fs, Act, ◌>>=◌, ◌>>◌}

-- `memset(&fs, 0, sizeof(fs))`, with the address of the partition.
abbrev pub unmounted : ℕ → Fs
unmounted lba = record {
  mounted = false;
  drive_letter = 0;
  partition_lba = lba;
  block_size = 0;
  sectors_per_block = 0;
  inode_size = 0;
  inodes_per_group = 0;
  blocks_per_group = 0;
  groups_count = 0;
  first_data_block = 0;
  current_inode = 0;
  root_inode = 0;
  sb = replicate 1024 0;
  names = replicate 32 [];
  inodes = replicate 32 0;
  depth = 0;
}

-- `1024u << s_log_block_size`, on a processor that shifts by the low five bits of the count.
unfoldable pub block_size_of : List ℕ → ℕ
block_size_of sb = u32 (1024 * 2 ^ (word_at sb 24 % 32))

unfoldable pub inode_size_of : List ℕ → ℕ
inode_size_of sb =
    let size = if leb 1 (word_at sb 76) && leb 128 (short_at sb 88) then short_at sb 88 else 128 in
    if ltb 1024 size then 128 else size

unfoldable pub geometry : (letter : ℕ) → Fs → Fs
geometry letter fs =
    let sb = fs.sb in
    let per_group = word_at sb 32 in
    let first = word_at sb 20 in
    record fs {
      mounted = true;
      drive_letter = letter;
      block_size = block_size_of sb;
      sectors_per_block = block_size_of sb / 512;
      inode_size = inode_size_of sb;
      inodes_per_group = word_at sb 40;
      blocks_per_group = per_group;
      first_data_block = first;
      root_inode = 2;
      current_inode = 2;
      groups_count = u32 (word_at sb 4 + (2 ^ 32 - first) + per_group + (2 ^ 32 - 1)) / per_group;
    }

module _ (D : Device) where
  abbrev pub set_fs : Fs → Act D Unit
  set_fs fs v = (done tt, record v { fs = fs })

  -- mount behind the read of the superblock.
  unfoldable pub mount_checked : (letter : ℕ) → Act D Unit
  mount_checked letter = do
    fs ← the_fs D
    require D (short_at fs.sb 56 == 0xEF53)
    let sized = record fs { block_size = block_size_of fs.sb }
    set_fs sized
    require D (leb 1024 (block_size_of fs.sb) && leb (block_size_of fs.sb) 4096)
    nonzero D (word_at fs.sb 32)
    set_fs (geometry letter sized)

  unfoldable pub mount : (partition_lba letter : ℕ) → Act D Unit
  mount partition_lba letter = do
    set_fs (unmounted partition_lba)
    read_superblock D
    mount_checked letter
