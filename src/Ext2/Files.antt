-- ===== src/Ext2/Files.antt =====
-- The calls of ext2.cpp on files and directories. The data of a file is the list of its bytes.
use Prim.{Unit, tt}
use podumat_os.Prelude.{
  ℕ, zero, suc, ◌+◌, ◌-◌, ◌*◌, ◌/◌, Bool, true, false, not, List, [], ◌++◌, ltb, ◌==◌,
  if◌then◌else◌, u32, length, take, drop, replicate,
}
use podumat_os.Prelude.Words.{put_word, put_short, put_bytes}
use podumat_os.Disk.{Device}
use podumat_os.Ext2.{load_g, write_block, require, the_fs, the_g, put_g, read_inode, write_inode}
use podumat_os.Ext2.Actions.{
  Outcome, done, failed, divides_by_zero, Fs, Volume, Act, give, ◌>>=◌, ◌>>◌,
}
use podumat_os.Ext2.Bitmaps.{alloc_block_internal, free_block, alloc_inode, free_inode}
use podumat_os.Ext2.Tree.{get_inode_block, set_inode_block, free_inode_blocks, no_blocks, blank_g}
use podumat_os.Ext2.Directory.{i_mode, i_size, is_dir_mode, find_dir_entry, add_dir_entry, or_undo}
use podumat_os.Ext2.Paths.{split_path, resolve_relative}

-- An inode of zeros with a mode and a number of links.
abbrev pub new_inode : (mode links : ℕ) → List ℕ
new_inode mode links = put_short (put_short (replicate 128 0) 0 mode) 26 links

abbrev pub rounds : (block_size size : ℕ) → ℕ
rounds block_size size = (size + block_size - 1) / block_size

module _ (D : Device) where
  -- `find_dir_entry(parent, name, nullptr)`, whose callers test the number for 0.
  abbrev pub number_or_zero : Outcome (ℕ × ℕ) × Volume D → Outcome ℕ × Volume D
  number_or_zero (done (n, type), v) = (done n, v)
  number_or_zero (failed, v) = (done 0, v)
  number_or_zero (divides_by_zero, v) = (divides_by_zero, v)

  unfoldable pub lookup : (parent : ℕ) → List ℕ → Act D ℕ
  lookup parent name v = number_or_zero (find_dir_entry D parent name v)

  -- The bytes of block `k` of the file; a hole gives zeros.
  unfoldable pub read_chunk : List ℕ → (k size : ℕ) → Act D (List ℕ)
  read_chunk inode k size = do
    blk ← get_inode_block D inode k
    if blk == 0 then give (replicate size 0) else do load_g D blk; b ← the_g D; give (take size b)

  abbrev pub chunk_size : Fs → ℕ → ℕ
  chunk_size fs remaining = if ltb remaining fs.block_size then remaining else fs.block_size

  -- The loop of read_file; the caller's buffer is as large as the file.
  unfoldable pub read_chunks : List ℕ → (left k remaining : ℕ) → Act D (List ℕ)
  read_chunks inode zero k remaining = give []
  read_chunks inode (suc left) k remaining = do
    fs ← the_fs D
    b ← read_chunk inode k (chunk_size fs remaining)
    more ← read_chunks inode left (k + 1) (remaining - chunk_size fs remaining)
    give (b ++ more)

  unfoldable pub read_file : List ℕ → Act D (List ℕ)
  read_file path = do
    fs ← the_fs D
    require D fs.mounted
    inode_num ← resolve_relative D fs.current_inode path
    require D (not (inode_num == 0))
    inode ← read_inode D inode_num
    require D (not (is_dir_mode (i_mode inode)))
    read_chunks inode (rounds fs.block_size (i_size inode)) 0 (i_size inode)

  -- A new file is taken back if there is no block for it.
  abbrev pub drop_new : Bool → (inode_num : ℕ) → List ℕ → Act D Unit
  drop_new false inode_num inode = give tt
  drop_new true inode_num inode = do free_inode_blocks D inode; free_inode D inode_num false

  -- The loop of write_file; it gives the inode with its blocks.
  unfoldable pub write_chunks : Bool → (inode_num left k : ℕ) → List ℕ → List ℕ → Act D (List ℕ)
  write_chunks is_new inode_num zero k inode data_left = give inode
  write_chunks is_new inode_num (suc left) k inode data_left = do
    fs ← the_fs D
    blk ← or_undo D (alloc_block_internal D) (drop_new is_new inode_num inode)
    blank_g D
    b ← the_g D
    put_g D (put_bytes b 0 (take fs.block_size data_left))
    or_undo D (write_block D blk (put_bytes b 0 (take fs.block_size data_left))) (free_block D blk)
    inode2 ← or_undo D (set_inode_block D inode k blk) (free_block D blk)
    write_chunks is_new inode_num left (k + 1) inode2 (drop fs.block_size data_left)

  unfoldable pub new_target : Act D (Bool × ℕ × List ℕ)
  new_target = do n ← alloc_inode D false; give (true, n, new_inode 0x81A4 1)

  unfoldable pub old_target : ℕ → Act D (Bool × ℕ × List ℕ)
  old_target found = do
    inode ← read_inode D found
    free_inode_blocks D inode
    give (false, found, put_word (no_blocks inode) 4 0)

  -- The file's inode, once its old blocks are freed, or a new one.
  abbrev pub open_target : (found : ℕ) → Act D (Bool × ℕ × List ℕ)
  open_target found = if found == 0 then new_target else old_target found

  unfoldable pub name_new : Bool → (parent inode_num : ℕ) → List ℕ → List ℕ → Act D Unit
  name_new false parent inode_num inode name = give tt
  name_new true parent inode_num inode name =
      or_undo D (add_dir_entry D parent inode_num name 1) (drop_new true inode_num inode)

  unfoldable pub fill_file : (parent : ℕ) → List ℕ → List ℕ → Bool × ℕ × List ℕ → Act D Unit
  fill_file parent name bytes (is_new, inode_num, start) = do
    fs ← the_fs D
    let n = rounds fs.block_size (length bytes)
    inode ← write_chunks is_new inode_num n 0 start bytes
    let sized = put_word (put_word inode 4 (length bytes)) 28 (u32 (n * (fs.block_size / 512)))
    write_inode D inode_num sized
    name_new is_new parent inode_num sized name

  unfoldable pub write_file : (path bytes : List ℕ) → Act D Unit
  write_file path bytes = do
    fs ← the_fs D
    require D fs.mounted
    let (parent_path, name) = split_path path
    require D (not (length name == 0))
    parent ← resolve_relative D fs.current_inode parent_path
    require D (not (parent == 0))
    parent_in ← read_inode D parent
    require D (is_dir_mode (i_mode parent_in))
    found ← lookup parent name
    target ← open_target found
    fill_file parent name bytes target
