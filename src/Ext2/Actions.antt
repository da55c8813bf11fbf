-- ===== src/Ext2/Actions.antt =====
-- kernel/src/fs/ext2.hpp: the state of a volume and the structures on the disk. A packed structure is
-- the list of its bytes, as the code copies it, with a function for each field that it reads.
use podumat_os.Prelude.{ℕ, Bool, List}
use Prim.{Unit, tt}
use podumat_os.Disk.{Device}

-- How a call ends: with its result, with false (or a block or inode number 0), or in a division by
-- zero.
pub data Outcome (A : Type 0) : Type 0 where
  done : A → Outcome A
  failed : Outcome A
  divides_by_zero : Outcome A

-- A call that returns a number, 0 for a failure too.
abbrev pub or_zero : Outcome ℕ → ℕ
or_zero (done n) = n
or_zero failed = 0
or_zero divides_by_zero = 0

pub record Fs : Type 0 where
  pub mounted : Bool
  pub drive_letter : ℕ
  pub partition_lba : ℕ
  pub block_size : ℕ
  pub sectors_per_block : ℕ
  pub inode_size : ℕ
  pub inodes_per_group : ℕ
  pub blocks_per_group : ℕ
  pub groups_count : ℕ
  pub first_data_block : ℕ
  pub current_inode : ℕ
  pub root_inode : ℕ
  pub sb : List ℕ
  pub names : List (List ℕ)
  pub inodes : List ℕ
  pub depth : ℕ

-- The static variables of ext2.cpp, and the disk.
pub record Volume (D : Device) : Type 0 where
  pub fs : Fs
  pub g_buf : List ℕ
  pub g_buf2 : List ℕ
  pub dir_buf : List ℕ
  pub disk : D.State

module _ (D : Device) where
  -- A call on the volume.
  abbrev pub Act : Type 0 → Type 0
  Act A = Volume D → Outcome A × Volume D

module _ {D : Device} where
  abbrev pub give : {A : Type 0} → A → Act D A
  give a v = (done a, v)

  abbrev pub fail : {A : Type 0} → Act D A
  fail v = (failed, v)

  abbrev pub after : {A B : Type 0} → Outcome A × Volume D → (A → Act D B) → Outcome B × Volume D
  after (done a, v) f = f a v
  after (failed, v) f = (failed, v)
  after (divides_by_zero, v) f = (divides_by_zero, v)

  infixl 10 ◌>>=◌
  abbrev pub ◌>>=◌ : {A B : Type 0} → Act D A → (A → Act D B) → Act D B
  (m >>= f) v = after (m v) f

  -- The call goes on if the action of `m` succeeds, whatever it returns, and if it fails.
  abbrev pub regardless : {A B : Type 0} → Outcome A × Volume D → Act D B → Outcome B × Volume D
  regardless (done a, v) f = f v
  regardless (failed, v) f = f v
  regardless (divides_by_zero, v) f = (divides_by_zero, v)

  infixl 10 ◌>>◌
  abbrev pub ◌>>◌ : {A B : Type 0} → Act D A → Act D B → Act D B
  (m >> f) v = after (m v) (λ a. f)

  -- A statement whose result the code does not test.
  abbrev pub ignoring : {A : Type 0} → Act D A → Act D Unit
  ignoring m v = regardless (m v) (give tt)
