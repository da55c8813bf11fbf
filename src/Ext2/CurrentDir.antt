-- ===== src/Ext2/CurrentDir.antt =====
-- The current directory of ext2.cpp and the names on the way to it: cd and get_path.
use Prim.{Unit}
use podumat_os.Prelude.{
  ℕ, zero, suc, ◌+◌, ◌-◌, Bool, true, false, not, List, [], ◌∷◌, ◌++◌, ltb, ◌==◌, if◌then◌else◌,
  length, take, drop, set, get_or,
}
use podumat_os.Disk.{Device}
use podumat_os.Ext2.{load_dir, require, the_fs, read_inode}
use podumat_os.Ext2.Actions.{Fs, Act, give, ◌>>=◌, ◌>>◌}
use podumat_os.Ext2.Tree.{get_inode_block}
use podumat_os.Ext2.Entries.{seek_in, same_bytes, is_dotdot}
use podumat_os.Ext2.Directory.{i_mode, is_dir_mode, find_dir_entry, the_dir, or_undo}
use podumat_os.Ext2.Mount.{set_fs}
use podumat_os.Ext2.Paths.{components, without_root, starts_at_root, parent_in, or_stay}

-- One directory down; more than 32 names are not kept.
abbrev pub entered : Fs → (next : ℕ) → List ℕ → Fs
entered fs next name =
    if ltb fs.depth 32
    then record fs {
      names = set fs.names fs.depth name;
      inodes = set fs.inodes fs.depth next;
      depth = fs.depth + 1;
    }
    else fs

abbrev pub left_one : Fs → Fs
left_one fs = record fs { depth = fs.depth - 1 }

-- The names and inodes of `saved` over those of `fs`.
abbrev pub rolled_back : (saved fs : Fs) → Fs
rolled_back saved fs = record fs {
  current_inode = saved.current_inode;
  depth = saved.depth;
  names = take saved.depth saved.names ++ drop saved.depth fs.names;
  inodes = take saved.depth saved.inodes ++ drop saved.depth fs.inodes;
}

-- The buffer of `size` bytes with more of the text; one byte is left for the terminator.
unfoldable pub put_text : (size : ℕ) → (out text : List ℕ) → List ℕ
put_text size out [] = out
put_text size out (c ∷ cs) =
    let more = put_text size (out ++ (c ∷ [])) cs in if ltb (length out + 1) size then more else out

unfoldable pub put_names : (size : ℕ) → Fs → (left d : ℕ) → List ℕ → List ℕ
put_names size fs zero d out = out
put_names size fs (suc left) d out =
    put_names size fs left (d + 1) (put_text size out (47 ∷ get_or fs.names d []))

-- What get_path puts before the terminator.
unfoldable pub get_path : (size : ℕ) → Fs → List ℕ
get_path size fs = put_names size fs fs.depth 0 (put_text size [] (114 ∷ 111 ∷ 111 ∷ 116 ∷ []))

module _ (D : Device) where
  -- The inode of the entry `..`, or 0.
  unfoldable pub dotdot_inode : List ℕ → Act D ℕ
  dotdot_inode inode v = or_stay D 0 (
      (do
        fs ← the_fs D
        blk ← get_inode_block D inode 0
        require D (not (blk == 0))
        load_dir D blk
        buf ← the_dir D
        give (parent_in 0 buf (seek_in fs.block_size is_dotdot buf)))
        v)

  unfoldable pub go_up : ℕ → Act D ℕ
  go_up cur = do
    inode ← read_inode D cur
    parent ← dotdot_inode inode
    fs ← the_fs D
    set_fs D (left_one fs)
    give (if parent == 0 then fs.root_inode else parent)

  unfoldable pub go_down : ℕ → List ℕ → Act D ℕ
  go_down cur name = do
    (next, type) ← find_dir_entry D cur name
    inode ← read_inode D next
    require D (is_dir_mode (i_mode inode))
    fs ← the_fs D
    set_fs D (entered fs next name)
    give next

  unfoldable pub cd_walk : ℕ → List (List ℕ) → Act D ℕ
  cd_walk cur [] = give cur
  cd_walk cur (name ∷ names) = do
    fs ← the_fs D
    next ←
        (if same_bytes name (46 ∷ [])
          then give cur
          else if same_bytes name (46 ∷ 46 ∷ [])
          then if cur == fs.root_inode then give cur else go_up cur
          else go_down cur name)
    cd_walk next names

  unfoldable pub roll_back : Fs → Act D Unit
  roll_back saved = do fs ← the_fs D; set_fs D (rolled_back saved fs)

  abbrev pub at_start : Bool → Fs → Fs
  at_start false fs = fs
  at_start true fs = record fs { depth = 0 }

  unfoldable pub cd : List ℕ → Act D Unit
  cd path = do
    saved ← the_fs D
    require D saved.mounted
    require D (not (length path == 0))
    set_fs D (at_start (starts_at_root path) saved)
    cur ←
        or_undo D
          (cd_walk (if starts_at_root path then saved.root_inode else saved.current_inode)
            (components (length path) (without_root path)))
          (roll_back saved)
    fs ← the_fs D
    set_fs D (record fs { current_inode = cur })
