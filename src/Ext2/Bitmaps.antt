-- ===== src/Ext2/Bitmaps.antt =====
-- The bitmaps of ext2.cpp: which blocks and which inodes of a group are in use.
use Prim.{Unit, tt}
use podumat_os.Prelude.{
  ℕ, zero, suc, ◌+◌, ◌-◌, ◌*◌, ◌/◌, ◌%◌, Bool, true, false, not, Option, none, some, List, ltb, leb,
  ◌==◌, if◌then◌else◌, u16, u32, set,
}
use podumat_os.Prelude.Bytes.{bit_of, with_bit, without_bit}
use podumat_os.Prelude.Words.{byte_at, word_at, put_word, short_at, put_short}
use podumat_os.Disk.{Device}
use podumat_os.Ext2.{
  bg_block_bitmap, bg_inode_bitmap, load_g, write_block, write_superblock, require, the_fs, the_g,
  put_g, read_bgd, write_bgd, nonzero,
}
use podumat_os.Ext2.Actions.{done, Fs, Act, give, fail, ◌>>=◌, ◌>>◌, ignoring}

abbrev pub bg_free_blocks_count : List ℕ → ℕ
bg_free_blocks_count bgd = short_at bgd 12

abbrev pub bg_free_inodes_count : List ℕ → ℕ
bg_free_inodes_count bgd = short_at bgd 14

abbrev pub bg_used_dirs_count : List ℕ → ℕ
bg_used_dirs_count bgd = short_at bgd 16

abbrev pub s_first_ino : List ℕ → ℕ
s_first_ino sb = word_at sb 84

-- The first clear bit of a byte from `bit` on that passes the test; `i` is the byte's index.
unfoldable pub clear_in_byte : (ℕ → Bool) → (left bit i byte : ℕ) → Option ℕ
clear_in_byte fits zero bit i byte = none
clear_in_byte fits (suc left) bit i byte =
    let rest = clear_in_byte fits left (bit + 1) i byte in
    if bit_of byte bit then rest else if fits (i * 8 + bit) then some (i * 8 + bit) else rest

-- The loop over the bytes of a bitmap from byte `i` on.
unfoldable pub first_clear : (ℕ → Bool) → (left i : ℕ) → List ℕ → Option ℕ
first_clear fits zero i b = none
first_clear fits (suc left) i b =
    let rest = first_clear fits left (i + 1) b in
    if byte_at b i == 0xFF
    then rest
    else elim (clear_in_byte fits 8 0 i (byte_at b i)) [ none ↦ rest | some idx ↦ some idx ]

-- `g_buf[idx / 8] |= 1u << (idx % 8)`, and the mask that clears the bit.
unfoldable pub mark : List ℕ → ℕ → List ℕ
mark b idx = set b (idx / 8) (with_bit (byte_at b (idx / 8)) (idx % 8))

unfoldable pub unmark : List ℕ → ℕ → List ℕ
unmark b idx = set b (idx / 8) (without_bit (byte_at b (idx / 8)) (idx % 8))

-- The group descriptor with one fewer, and one more, of a counter.
abbrev pub fewer : List ℕ → ℕ → List ℕ
fewer bgd off = put_short bgd off (short_at bgd off - 1)

abbrev pub one_more : List ℕ → ℕ → List ℕ
one_more bgd off = put_short bgd off (u16 (short_at bgd off + 1))

-- The counter of free blocks in the superblock, and that of free inodes.
abbrev pub free_blocks_at : ℕ
free_blocks_at = 12

abbrev pub free_inodes_at : ℕ
free_inodes_at = 16

-- The descriptor of a group that loses an inode to a file or to a directory, and the one that gets it
-- back.
abbrev pub inode_taken : List ℕ → Bool → List ℕ
inode_taken bgd false = fewer bgd 14
inode_taken bgd true = one_more (fewer bgd 14) 16

abbrev pub inode_back : List ℕ → Bool → List ℕ
inode_back bgd false = one_more bgd 14
inode_back bgd true = fewer (one_more bgd 14) 16

module _ {D : Device} where
  abbrev pub count_sb : (off : ℕ) → (ℕ → ℕ) → Act D Unit
  count_sb off f v = (
    done tt,
    record v { fs = record v.fs { sb = put_word v.fs.sb off (f (word_at v.fs.sb off)) } },
  )

module _ (D : Device) where
  -- What is done at the bit that the search found; the superblock's counter is at `counter`.
  unfoldable pub claim : (g bitmap idx : ℕ) → List ℕ → (counter : ℕ) → Act D Unit
  claim g bitmap idx bgd counter = do
    b ← the_g D
    put_g D (mark b idx)
    write_block D bitmap (mark b idx)
    write_bgd D g bgd
    count_sb counter (λ n. n - 1)
    ignoring (write_superblock D)

  -- The number of the block at bit `idx` of group `g`.
  abbrev pub block_number : Fs → ℕ → ℕ → ℕ
  block_number fs g idx = u32 (u32 (u32 (g * fs.blocks_per_group) + idx) + fs.first_data_block)

  abbrev pub inode_number : Fs → ℕ → ℕ → ℕ
  inode_number fs g idx = u32 (u32 (u32 (g * fs.inodes_per_group) + idx) + 1)

  -- The search of the bitmap in the buffer; `rest` is what the next groups give.
  abbrev pub claim_block : (g : ℕ) → List ℕ → Option ℕ → Act D ℕ → Act D ℕ
  claim_block g bgd none rest = rest
  claim_block g bgd (some idx) rest = do
    fs ← the_fs D
    claim g (bg_block_bitmap bgd) idx (fewer bgd 12) free_blocks_at
    give (block_number fs g idx)

  -- One group: nothing if its counter is 0.
  unfoldable pub alloc_in : (g : ℕ) → List ℕ → Act D ℕ → Act D ℕ
  alloc_in g bgd rest = if bg_free_blocks_count bgd == 0 then rest else do
    fs ← the_fs D
    load_g D (bg_block_bitmap bgd)
    b ← the_g D
    claim_block g bgd (first_clear (λ idx. true) fs.block_size 0 b) rest

  unfoldable pub alloc_from : (left g : ℕ) → Act D ℕ
  alloc_from zero g = fail
  alloc_from (suc left) g = do bgd ← read_bgd D g; alloc_in g bgd (alloc_from left (g + 1))

  -- A block number 0 is a failure to every caller.
  unfoldable pub alloc_block_internal : Act D ℕ
  alloc_block_internal = do
    fs ← the_fs D
    blk ← alloc_from fs.groups_count 0
    require D (not (blk == 0))
    give blk

  abbrev pub claim_inode : Bool → (g : ℕ) → List ℕ → Option ℕ → Act D ℕ → Act D ℕ
  claim_inode is_dir g bgd none rest = rest
  claim_inode is_dir g bgd (some idx) rest = do
    fs ← the_fs D
    claim g (bg_inode_bitmap bgd) idx (inode_taken bgd is_dir) free_inodes_at
    give (inode_number fs g idx)

  unfoldable pub alloc_inode_in : Bool → (g : ℕ) → List ℕ → Act D ℕ → Act D ℕ
  alloc_inode_in is_dir g bgd rest = if bg_free_inodes_count bgd == 0 then rest else do
    fs ← the_fs D
    load_g D (bg_inode_bitmap bgd)
    b ← the_g D
    claim_inode is_dir g bgd
        (first_clear (λ idx. leb (s_first_ino fs.sb) (inode_number fs g idx)) fs.block_size 0 b)
        rest

  unfoldable pub alloc_inode_from : Bool → (left g : ℕ) → Act D ℕ
  alloc_inode_from is_dir zero g = fail
  alloc_inode_from is_dir (suc left) g = do
    bgd ← read_bgd D g
    alloc_inode_in is_dir g bgd (alloc_inode_from is_dir left (g + 1))

  unfoldable pub alloc_inode : Bool → Act D ℕ
  alloc_inode is_dir = do
    fs ← the_fs D
    n ← alloc_inode_from is_dir fs.groups_count 0
    require D (not (n == 0))
    give n

  -- What free_block and free_inode do once they have the group's descriptor: the bit is cleared, the
  -- descriptor and the superblock are written; no result is tested but that of the read.
  unfoldable pub release : (g bitmap idx : ℕ) → List ℕ → (counter : ℕ) → Act D Unit
  release g bitmap idx bgd counter = do
    load_g D bitmap
    b ← the_g D
    put_g D (unmark b idx)
    ignoring (write_block D bitmap (unmark b idx))
    ignoring (write_bgd D g bgd)
    count_sb counter (λ n. u32 (n + 1))
    ignoring (write_superblock D)

  -- `blocks_per_group` is not 0 on a mounted volume.
  unfoldable pub free_block : ℕ → Act D Unit
  free_block block = ignoring do
    fs ← the_fs D
    require D (not (block == 0))
    require D (leb fs.first_data_block block)
    let adjusted = block - fs.first_data_block
    require D (ltb (adjusted / fs.blocks_per_group) fs.groups_count)
    bgd ← read_bgd D (adjusted / fs.blocks_per_group)
    release (adjusted / fs.blocks_per_group) (bg_block_bitmap bgd) (adjusted % fs.blocks_per_group)
        (one_more bgd 12) free_blocks_at

  unfoldable pub free_inode : ℕ → Bool → Act D Unit
  free_inode inode_num is_dir = ignoring do
    fs ← the_fs D
    require D (ltb 10 inode_num)
    nonzero D fs.inodes_per_group
    let group = (inode_num - 1) / fs.inodes_per_group
    require D (ltb group fs.groups_count)
    bgd ← read_bgd D group
    release group (bg_inode_bitmap bgd) ((inode_num - 1) % fs.inodes_per_group)
        (inode_back bgd is_dir) free_inodes_at
