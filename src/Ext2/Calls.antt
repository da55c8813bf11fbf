-- ===== src/Ext2/Calls.antt =====
-- The calls of ext2.cpp that make a directory, delete a file or a directory, and ask for a file.
use Prim.{Unit}
use podumat_os.Prelude.{ℕ, ◌+◌, ◌-◌, ◌/◌, true, not, List, [], ◌∷◌, ◌++◌, ◌==◌, u16, length, drop}
use podumat_os.Prelude.Words.{put_word, put_short, short_at}
use podumat_os.Disk.{Device}
use podumat_os.Ext2.{write_block, require, the_fs, the_g, put_g, read_inode, write_inode}
use podumat_os.Ext2.Actions.{Act, give, ◌>>=◌, ◌>>◌, ignoring}
use podumat_os.Ext2.Bitmaps.{alloc_block_internal, free_block, alloc_inode, free_inode}
use podumat_os.Ext2.Tree.{free_inode_blocks, put_i_block}
use podumat_os.Ext2.Entries.{dir_entry}
use podumat_os.Ext2.Directory.{
  i_mode, i_size, is_dir_mode, add_dir_entry, remove_dir_entry, or_undo,
}
use podumat_os.Ext2.Paths.{split_path, resolve_relative}
use podumat_os.Ext2.Files.{lookup, new_inode}

-- The block of a new directory: the entries `.` and `..`.
unfoldable pub dots : (block_size self parent : ℕ) → List ℕ
dots block_size self parent =
    dir_entry self 12 (46 ∷ []) 2 ++ dir_entry parent (block_size - 12) (46 ∷ 46 ∷ []) 2

-- The inode of a new directory with its block.
abbrev pub directory_inode : (block_size blk : ℕ) → List ℕ
directory_inode block_size blk =
    put_i_block (put_word (put_word (new_inode 0x41ED 2) 4 block_size) 28 (block_size / 512)) 0 blk

module _ (D : Device) where
  -- What create_dir takes back: the block of the directory and its inode.
  abbrev pub take_back : (blk inode_num : ℕ) → Act D Unit
  take_back blk inode_num = do free_block D blk; free_inode D inode_num true

  -- One more link to the parent, if its inode can be read; the write is not tested.
  unfoldable pub link_parent : ℕ → Act D Unit
  link_parent parent = ignoring do
    inode ← read_inode D parent
    write_inode D parent (put_short inode 26 (u16 (short_at inode 26 + 1)))

  unfoldable pub make_dir : (parent : ℕ) → List ℕ → Act D Unit
  make_dir parent name = do
    fs ← the_fs D
    n ← alloc_inode D true
    blk ← or_undo D (alloc_block_internal D) (free_inode D n true)
    old ← the_g D
    put_g D (dots fs.block_size n parent ++ drop fs.block_size old)
    b ← the_g D
    or_undo D (write_block D blk b) (take_back blk n)
    or_undo D (write_inode D n (directory_inode fs.block_size blk)) (take_back blk n)
    link_parent parent
    or_undo D (add_dir_entry D parent n name 2) (take_back blk n)

  unfoldable pub create_dir : List ℕ → Act D Unit
  create_dir path = do
    fs ← the_fs D
    require D fs.mounted
    let (parent_path, name) = split_path path
    require D (not (length name == 0))
    parent ← resolve_relative D fs.current_inode parent_path
    require D (not (parent == 0))
    found ← lookup D parent name
    require D (found == 0)
    make_dir parent name

  unfoldable pub delete_file : List ℕ → Act D Unit
  delete_file path = do
    fs ← the_fs D
    require D fs.mounted
    let (parent_path, name) = split_path path
    parent ← resolve_relative D fs.current_inode parent_path
    require D (not (parent == 0))
    target ← remove_dir_entry D parent name
    require D (not (target == 0))
    inode ← read_inode D target
    free_inode_blocks D inode
    free_inode D target (is_dir_mode (i_mode inode))

  unfoldable pub file_exists : List ℕ → Act D Unit
  file_exists path = do
    fs ← the_fs D
    require D fs.mounted
    n ← resolve_relative D fs.current_inode path
    require D (not (n == 0))

  -- A failure is the size 0.
  unfoldable pub file_size : List ℕ → Act D ℕ
  file_size path = do
    fs ← the_fs D
    require D fs.mounted
    n ← resolve_relative D fs.current_inode path
    require D (not (n == 0))
    inode ← read_inode D n
    give (i_size inode)
