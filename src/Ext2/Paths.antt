-- ===== src/Ext2/Paths.antt =====
-- The path utilities of ext2.cpp. A path is the list of its bytes without the terminator.
use podumat_os.Prelude.{
  ℕ, zero, suc, ◌+◌, ◌-◌, Bool, false, ◌||◌, List, [], ◌∷◌, ◌==◌, if◌then◌else◌, length, take, drop,
}
use podumat_os.Disk.{Device}
use podumat_os.Ext2.{load_dir, the_fs, read_inode}
use podumat_os.Ext2.Actions.{Outcome, done, failed, divides_by_zero, Volume, Act, give, ◌>>=◌, ◌>>◌}
use podumat_os.Ext2.Tree.{get_inode_block}
use podumat_os.Ext2.Entries.{
  Seek, unfinished, missing, at, seek_in, same_bytes, is_dotdot, de_inode,
}
use podumat_os.Ext2.Directory.{find_dir_entry, the_dir}

abbrev pub is_separator : ℕ → Bool
is_separator c = c == 47 || c == 92

-- The path without a separator at its start.
abbrev pub without_root : List ℕ → List ℕ
without_root [] = []
without_root (c ∷ cs) = if is_separator c then cs else c ∷ cs

-- The index behind the last separator; `i` is the index of the first byte.
unfoldable pub last_part : List ℕ → (i last : ℕ) → ℕ
last_part [] i last = last
last_part (c ∷ cs) i last = last_part cs (i + 1) (if is_separator c then i + 1 else last)

-- The parent's path and the name, cut to the sizes of their buffers.
unfoldable pub split_path : List ℕ → List ℕ × List ℕ
split_path path =
    let p = without_root path in
    let last = last_part p 0 0 in (take 255 (take (last - 1) p), take 63 (drop last p))

-- One component of at most 63 bytes; the byte behind it is passed over, whatever it is.
unfoldable pub component : (room : ℕ) → List ℕ → List ℕ × List ℕ
component room [] = ([], [])
component zero (c ∷ cs) = ([], cs)
component (suc room) (c ∷ cs) =
    let (name, rest) = component room cs in if is_separator c then ([], cs) else (c ∷ name, rest)

-- The components that are not empty, in `fuel` rounds.
unfoldable pub components : (fuel : ℕ) → List ℕ → List (List ℕ)
components zero path = []
components (suc fuel) [] = []
components (suc fuel) (c ∷ cs) =
    let (name, rest) = component 63 (c ∷ cs) in
    let more = components fuel rest in elim name [ [] ↦ more | d ∷ ds ↦ (d ∷ ds) ∷ more ]

abbrev pub starts_at_root : List ℕ → Bool
starts_at_root [] = false
starts_at_root (c ∷ cs) = is_separator c

-- `cur` after the entry `..` of the first block, if there is one; otherwise `cur`.
abbrev pub parent_in : (cur : ℕ) → List ℕ → Seek → ℕ
parent_in cur buf unfinished = cur
parent_in cur buf missing = cur
parent_in cur buf (at off prev) = de_inode buf off

module _ (D : Device) where
  -- A failed call leaves `cur` as it is.
  abbrev pub or_stay : (cur : ℕ) → Outcome ℕ × Volume D → Outcome ℕ × Volume D
  or_stay cur (done n, v) = (done n, v)
  or_stay cur (failed, v) = (done cur, v)
  or_stay cur (divides_by_zero, v) = (divides_by_zero, v)

  unfoldable pub parent_of : ℕ → Act D ℕ
  parent_of cur v = or_stay cur (
      (do
        fs ← the_fs D
        inode ← read_inode D cur
        blk ← get_inode_block D inode 0
        if blk == 0 then give cur else do
          load_dir D blk
          buf ← the_dir D
          give (parent_in cur buf (seek_in fs.block_size is_dotdot buf)))
        v)

  unfoldable pub enter : (cur : ℕ) → List ℕ → Act D ℕ
  enter cur name = do
    fs ← the_fs D
    if same_bytes name (46 ∷ [])
        then give cur
        else if same_bytes name (46 ∷ 46 ∷ [])
        then if cur == fs.root_inode then give cur else parent_of cur
        else do (inode, type) ← find_dir_entry D cur name; give inode

  unfoldable pub follow : (cur : ℕ) → List (List ℕ) → Act D ℕ
  follow cur [] = give cur
  follow cur (name ∷ names) = do next ← enter cur name; follow next names

  -- One round takes at least one byte of the path.
  unfoldable pub resolve_relative : (start : ℕ) → List ℕ → Act D ℕ
  resolve_relative start path = do
    fs ← the_fs D
    follow (if starts_at_root path then fs.root_inode else start)
        (components (length path) (without_root path))
