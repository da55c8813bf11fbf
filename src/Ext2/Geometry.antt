-- ===== src/Ext2/Geometry.antt =====
-- What mount of ext2.cpp accepts, and the geometry of a volume that is mounted.
use Prim.{Unit, tt}
use podumat_os.Prelude.{
  ℕ, zero, suc, sym, ◌+◌, ◌*◌, ◌%◌, ◌^◌, ◌≤◌, ◌<◌, ◌≡◌, ◌≢◌, ◌⊎◌, inl, inr, Bool, true, false, ◌&&◌,
  ◌||◌, List, Option, none, some, leb, ◌==◌, if◌then◌else◌, Bool-cases, arith, u32, refl, ==_iff,
}
use podumat_os.Prelude.Bytes.{holds_under, at_index}
use podumat_os.Prelude.Words.{word_at, short_at}
use podumat_os.Disk.{Device}
use podumat_os.Ext2.{half_got, read_half, read_superblock, nonzero}
use podumat_os.Ext2.Actions.{Outcome, done, failed, divides_by_zero, Fs, Volume, after}
use podumat_os.Ext2.Mount.{block_size_of, inode_size_of, geometry, set_fs, mount_checked, mount}

in_range : ℕ → Bool
in_range n = leb 1024 n && leb n 4096

abbrev powers : ℕ → Bool
powers k =
    let n = u32 (1024 * 2 ^ k) in
    if leb 1024 n && leb n 4096 then n == 1024 || (n == 2048 || n == 4096) else true

powers_table : holds_under powers 32 ≡ true
unfolding holds_under
powers_table = refl

block_size_cases :
    (sb : List ℕ)
    → (leb 1024 (block_size_of sb) && leb (block_size_of sb) 4096) ≡ true
    → (block_size_of sb ≡ 1024) ⊎ ((block_size_of sb ≡ 2048) ⊎ (block_size_of sb ≡ 4096))
unfolding block_size_of
block_size_cases sb h =
    ground (arith, at_index powers 32 (word_at sb 24 % 32) (omega arith) powers_table, h)

-- The geometry that the other calls rely on.
pub record IsVolume (fs : Fs) : Type 0 where
  pub mounted : fs.mounted ≡ true
  pub magic : short_at fs.sb 56 ≡ 0xEF53
  pub block_size : (fs.block_size ≡ 1024) ⊎ ((fs.block_size ≡ 2048) ⊎ (fs.block_size ≡ 4096))
  pub sectors : fs.sectors_per_block * 512 ≡ fs.block_size
  pub inode_size : (128 ≤ fs.inode_size) × (fs.inode_size ≤ 1024)
  pub per_group : 0 < fs.blocks_per_group
  pub at_root : fs.current_inode ≡ fs.root_inode

inode_size_of_range : (sb : List ℕ) → (128 ≤ inode_size_of sb) × (inode_size_of sb ≤ 1024)
unfolding inode_size_of
inode_size_of_range sb = (ground arith, ground arith)

geometry-IsVolume :
    (letter : ℕ) (fs : Fs)
    → short_at fs.sb 56 ≡ 0xEF53
    → (leb 1024 (block_size_of fs.sb) && leb (block_size_of fs.sb) 4096) ≡ true
    → word_at fs.sb 32 ≢ 0
    → IsVolume (geometry letter fs)
unfolding geometry
geometry-IsVolume letter fs magic range groups = record {
  mounted = refl;
  magic = magic;
  block_size = block_size_cases fs.sb range;
  sectors = omega (arith, block_size_cases fs.sb range);
  inode_size = inode_size_of_range fs.sb;
  per_group = omega (arith, groups);
  at_root = refl;
}

module _ (D : Device) where
  -- How a call of `mount` ends.
  pub data MountResult (lba : ℕ) : Outcome Unit × Volume D → Type 0 where
    refused : (w : Volume D) → w.fs.mounted ≡ false → MountResult lba (failed, w)
    no_groups : (w : Volume D) → word_at w.fs.sb 32 ≡ 0 → MountResult lba (divides_by_zero, w)
    mounts :
        (w : Volume D) → w.fs.partition_lba ≡ lba → IsVolume w.fs → MountResult lba (done tt, w)

  -- The volume is still unmounted after the superblock is read, or half of it.
  data Reads (lba : ℕ) : Outcome Unit × Volume D → Type 0 where
    unread : (w : Volume D) → w.fs.mounted ≡ false → Reads lba (failed, w)
    read : (w : Volume D) → w.fs.mounted ≡ false → w.fs.partition_lba ≡ lba → Reads lba (done tt, w)

  module _ (lba : ℕ) where
    half_got-Reads :
        (off : ℕ) (v : Volume D) (got : Option (List ℕ) × D.State)
        → v.fs.mounted ≡ false
        → v.fs.partition_lba ≡ lba
        → Reads lba (half_got D off v got)
    half_got-Reads off v (none, s) m l = unread _ m
    half_got-Reads off v (some b, s) m l = read _ m l

    read_half-Reads :
        (sector off : ℕ) (v : Volume D)
        → v.fs.mounted ≡ false
        → v.fs.partition_lba ≡ lba
        → Reads lba (read_half D sector off v)
    unfolding read_half
    read_half-Reads sector off v =
        half_got-Reads off v (D.read_sector (u32 (v.fs.partition_lba + sector)) v.disk)

    second-Reads :
        (o : Outcome Unit × Volume D) → Reads lba o → Reads lba (after o (λ a. read_half D 3 512))
    second-Reads _ (unread w m) = unread w m
    second-Reads _ (read w m l) = read_half-Reads 3 512 w m l

    divided :
        (letter : ℕ) (w : Volume D) (n : ℕ)
        → n ≡ word_at w.fs.sb 32
        → (n ≢ 0 → IsVolume (geometry letter w.fs))
        → w.fs.partition_lba ≡ lba
        → MountResult lba (after (nonzero D n w) (λ a. set_fs D (geometry letter w.fs)))
    unfolding geometry
    divided letter w zero e volume l = no_groups w (sym e)
    divided letter w (suc n) e volume l = mounts _ l (volume (λ h. absurd (omega (arith, h))))

    -- What follows in `mount` once the superblock is read.
    checks-MountResult :
        (letter : ℕ) (w : Volume D)
        → w.fs.mounted ≡ false
        → w.fs.partition_lba ≡ lba
        → MountResult lba (mount_checked D letter w)
    unfolding mount_checked
    checks-MountResult letter w m l = elim (Bool-cases (short_at w.fs.sb 56 == 0xEF53)) [
      | inr other ↦ simp other (refused w m)
      | inl magic ↦
          elim (Bool-cases (leb 1024 (block_size_of w.fs.sb) && leb (block_size_of w.fs.sb) 4096)) [
            | inr out ↦ simp (magic, out) (refused _ m)
            | inl range ↦
                simp (magic, range)
                  (divided letter
                    (record w { fs = record w.fs { block_size = block_size_of w.fs.sb } })
                    (word_at w.fs.sb 32) refl
                    (λ some_groups.
                      geometry-IsVolume letter (record w.fs { block_size = block_size_of w.fs.sb })
                        ((==_iff _ _).0 magic) range some_groups)
                    l)
          ]
    ]

    after_read-MountResult :
        (letter : ℕ) (o : Outcome Unit × Volume D)
        → Reads lba o
        → MountResult lba (after o (λ a. mount_checked D letter))
    after_read-MountResult letter _ (unread w m) = refused w m
    after_read-MountResult letter _ (read w m l) = checks-MountResult letter w m l

  -- Whatever the disk holds, `mount` ends in one of three ways: it fails, and no volume is mounted; it
  -- divides by a number of blocks per group that is 0 in the superblock; or the volume is mounted,
  -- with blocks of 1024, 2048 or 4096 bytes in whole sectors, inodes of 128 to 1024 bytes and the root
  -- as the current directory.
  pub mount-MountResult : (lba letter : ℕ) (v : Volume D) → MountResult lba (mount D lba letter v)
  unfolding mount read_superblock
  mount-MountResult lba letter v =
      after_read-MountResult lba letter _ (second-Reads lba _ (read_half-Reads lba 2 0 _ refl refl))
