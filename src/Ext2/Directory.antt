-- ===== src/Ext2/Directory.antt =====
-- find_dir_entry, add_dir_entry and remove_dir_entry of ext2.cpp.
use Prim.{Unit, tt}
use podumat_os.Prelude.{
  ℕ, zero, suc, ◌+◌, ◌-◌, ◌*◌, ◌/◌, ◌^◌, Bool, false, Option, List, ◌++◌, leb, ◌==◌, if◌then◌else◌,
  u32, length, drop,
}
use podumat_os.Prelude.Words.{word_at, short_at, put_word}
use podumat_os.Disk.{Device}
use podumat_os.Ext2.{load_dir, write_block, require, the_fs, read_inode, write_inode}
use podumat_os.Ext2.Actions.{
  Outcome, done, failed, divides_by_zero, Fs, Volume, Act, give, fail, after, ◌>>=◌, ◌>>◌,
}
use podumat_os.Ext2.Bitmaps.{alloc_block_internal, free_block}
use podumat_os.Ext2.Tree.{get_inode_block, set_inode_block}
use podumat_os.Ext2.Entries.{
  Seek, unfinished, missing, at, seek_in, has_name, has_room, entry_room, dir_entry, insert_at,
  remove_at, de_inode, de_file_type,
}

abbrev pub i_mode : List ℕ → ℕ
i_mode inode = short_at inode 0

abbrev pub i_size : List ℕ → ℕ
i_size inode = word_at inode 4

abbrev pub i_blocks : List ℕ → ℕ
i_blocks inode = word_at inode 28

-- `(mode & S_IFMT) == S_IFDIR`
abbrev pub is_dir_mode : ℕ → Bool
is_dir_mode mode = mode / 2 ^ 12 == 4

abbrev pub blocks_of : Fs → List ℕ → ℕ
blocks_of fs inode = u32 (i_size inode + fs.block_size + (2 ^ 32 - 1)) / fs.block_size

module _ (D : Device) where
  abbrev pub the_dir : Act D (List ℕ)
  the_dir v = (done v.dir_buf, v)

  abbrev pub put_dir : List ℕ → Act D Unit
  put_dir b v = (done tt, record v { dir_buf = b })

  -- `if (!m) { cleanup; return false; }`
  abbrev pub undone : {A : Type 0} → Act D Unit → Outcome A × Volume D → Outcome A × Volume D
  undone cleanup (done a, v) = (done a, v)
  undone cleanup (failed, v) = after (cleanup v) (λ a. fail)
  undone cleanup (divides_by_zero, v) = (divides_by_zero, v)

  abbrev pub or_undo : {A : Type 0} → Act D A → Act D Unit → Act D A
  or_undo m cleanup v = undone cleanup (m v)

  -- The loop over the blocks of a directory from block `b` on: the first entry that passes the test
  -- is handed to `use`, with its block; a block number 0 is passed over.
  abbrev pub sought : {A : Type 0} → (ℕ → ℕ → Option ℕ → Act D A) → ℕ → Seek → Act D A → Act D A
  sought found blk unfinished rest = rest
  sought found blk missing rest = rest
  sought found blk (at off prev) rest = found blk off prev

  unfoldable pub each_block :
      {A : Type 0}
      → List ℕ
      → (List ℕ → ℕ → Bool)
      → (ℕ → ℕ → Option ℕ → Act D A)
      → (otherwise : Act D A) → (left b : ℕ) → Act D A
  each_block dir hit found otherwise zero b = otherwise
  each_block dir hit found otherwise (suc left) b = do
    fs ← the_fs D
    blk ← get_inode_block D dir b
    if blk == 0 then each_block dir hit found otherwise left (b + 1) else do
      load_dir D blk
      buf ← the_dir
      sought found blk (seek_in fs.block_size hit buf)
          (each_block dir hit found otherwise left (b + 1))

  -- The inode number and the type of the entry with the name.
  unfoldable pub find_dir_entry : ℕ → List ℕ → Act D (ℕ × ℕ)
  find_dir_entry dir_inode name = do
    fs ← the_fs D
    dir ← read_inode D dir_inode
    require D (is_dir_mode (i_mode dir))
    require D (if length name == 0 then false else leb (length name) 255)
    each_block dir (has_name name)
        (λ blk off prev. do buf ← the_dir; give (de_inode buf off, de_file_type buf off)) fail
        (blocks_of fs dir) 0

  -- The entry in a new block at the end of the directory.
  unfoldable pub append_entry : (dir_inode : ℕ) → List ℕ → (new_inode : ℕ) → List ℕ → ℕ → Act D Unit
  append_entry dir_inode dir new_inode name type = do
    fs ← the_fs D
    blk ← alloc_block_internal D
    old ← the_dir
    put_dir (dir_entry new_inode fs.block_size name type ++ drop fs.block_size old)
    buf ← the_dir
    or_undo (write_block D blk buf) (free_block D blk)
    dir2 ← or_undo (set_inode_block D dir (blocks_of fs dir) blk) (free_block D blk)
    let sized = put_word dir2 4 (u32 ((blocks_of fs dir + 1) * fs.block_size))
    write_inode D dir_inode (put_word sized 28 (u32 (i_blocks sized + fs.block_size / 512)))

  unfoldable pub add_dir_entry : (dir_inode new_inode : ℕ) → List ℕ → (type : ℕ) → Act D Unit
  add_dir_entry dir_inode new_inode name type = do
    fs ← the_fs D
    dir ← read_inode D dir_inode
    require D (leb (length name) 255)
    each_block dir (has_room (entry_room (length name)))
        (λ blk off prev. do
          buf ← the_dir
          put_dir (insert_at buf off new_inode name type)
          write_block D blk (insert_at buf off new_inode name type))
        (append_entry dir_inode dir new_inode name type) (blocks_of fs dir) 0

  -- The number of the inode that the entry named.
  unfoldable pub remove_dir_entry : (dir_inode : ℕ) → List ℕ → Act D ℕ
  remove_dir_entry dir_inode name = do
    fs ← the_fs D
    dir ← read_inode D dir_inode
    each_block dir (has_name name)
        (λ blk off prev. do
          buf ← the_dir
          put_dir (remove_at buf off prev)
          write_block D blk (remove_at buf off prev)
          give (de_inode buf off))
        fail (blocks_of fs dir) 0
