-- ===== src/Ext2/Loaded.antt =====
-- The entries of an index block, once read_block has read it into g_buf.
use podumat_os.Prelude.{
  ℕ, ◌+◌, ◌*◌, ◌/◌, ◌%◌, ◌^◌, ◌≤◌, ◌<◌, ◌≡◌, ◌≢◌, refl, ap, ap₂, ◌∙◌, subst, Bool, List, length,
  arith, ne→==,
}
use podumat_os.Prelude.Words.{byte_at, word_at}
use podumat_os.Disk.{Device, IsReliable}
use podumat_os.Ext2.{block_lba, read_block, load_g}
use podumat_os.Ext2.Actions.{Outcome, done, failed, Fs, Volume}
use podumat_os.Ext2.Tree.{pointer, per_block, pointer_in}
use podumat_os.Ext2.Blocks.{Loaded, IsSectored, SameDisk, IsSectored-SameDisk, read_loop-Loaded}

-- The sizes of a block, as `mount` leaves them.
pub record IsSized (fs : Fs) : Type 0 where
  pub positive : 0 < fs.block_size
  pub at_most : fs.block_size ≤ 4096
  pub sectors : fs.sectors_per_block * 512 ≡ fs.block_size

module _ (D : Device) where
  -- Entry `i` of an index block on the medium.
  abbrev pub entry_on : Fs → D.State → (block i : ℕ) → ℕ
  entry_on fs s block i = word_at (D.content s (block_lba fs block + i / 128)) (i % 128 * 4)

  -- All sectors of the block are on the disk.
  pub record IsOnDisk (fs : Fs) (s : D.State) (block : ℕ) : Type 0 where
    pub ends : block_lba fs block + fs.sectors_per_block ≤ D.sectors s

  -- The buffer and the disk are as the calls need them.
  pub record IsReady (v : Volume D) : Type 0 where
    pub sized : IsSized v.fs
    pub sectored : IsSectored D v.disk
    pub sectors : D.sectors v.disk ≤ 2 ^ 32
    pub buffer : length v.g_buf ≡ 8192

  -- A call on `v` has changed only g_buf, and gives the number: a failure is 0.
  pub data Answers (v : Volume D) : Outcome ℕ × Volume D → ℕ → Type 0 where
    number :
        (n : ℕ) (buf : List ℕ) (t : D.State)
        → length buf ≡ length v.g_buf
        → SameDisk D v.disk t
        → Answers v (done n, record v { g_buf = buf; disk = t }) n
    nothing :
        (buf : List ℕ) (t : D.State)
        → length buf ≡ length v.g_buf
        → SameDisk D v.disk t
        → Answers v (failed, record v { g_buf = buf; disk = t }) 0

  pub IsReady-kept :
      (v : Volume D) (buf : List ℕ) (t : D.State)
      → length buf ≡ length v.g_buf
      → SameDisk D v.disk t
      → IsReady v
      → IsReady (record v { g_buf = buf; disk = t })
  IsReady-kept v buf t long same r = record {
    sized = r.sized;
    sectored = IsSectored-SameDisk D v.disk t same r.sectored;
    sectors = omega (arith, same.sectors, r.sectors);
    buffer = long ∙ r.buffer;
  }

  module _ (R : IsReliable D) where
    pointer-Loaded :
        (fs : Fs) (block i n : ℕ) (buf : List ℕ) (s : D.State) (o : (Bool × List ℕ) × D.State)
        → i < n * 128
        → Loaded D n 0 (block_lba fs block) buf s o
        → pointer o.0.1 i ≡ entry_on fs s block i
    unfolding word_at
    pointer-Loaded fs block i n buf s o inside l =
        ap₂ (λ x y. x + y)
          (ap₂ (λ x y. x + y)
            (ap₂ (λ x y. x + y) (part 0 _ _ (omega arith) (omega arith) (omega arith))
              (ap (λ x. x * 2 ^ 8) (part 1 _ _ (omega arith) refl refl)))
            (ap (λ x. x * 2 ^ 16) (part 2 _ _ (omega arith) refl refl)))
          (ap (λ x. x * 2 ^ 24) (part 3 _ _ (omega arith) refl refl))
      where
        part :
            (k x y : ℕ)
            → k < 4
            → 4 * i + k ≡ x
            → i % 128 * 4 + k ≡ y
            → byte_at o.0.1 x ≡ byte_at (D.content s (block_lba fs block + i / 128)) y
        part k x y small at there =
            let sector : x / 512 ≡ i / 128 = omega (arith, small, at) in
            let place : x % 512 ≡ y = omega (arith, small, at, there) in
            l.inside x (omega arith) (omega (arith, small, inside, at))
            ∙ ap₂ (λ m n. byte_at (D.content s (block_lba fs block + m)) n) sector place

    -- Entry `i` of a block that is there.
    pub pointer_in-Answers :
        (p i : ℕ) (v : Volume D)
        → IsReady v
        → p ≢ 0
        → IsOnDisk v.fs v.disk p
        → i < per_block v.fs
        → Answers v (pointer_in D p i v) (entry_on v.fs v.disk p i)
    unfolding pointer_in load_g read_block
    pointer_in-Answers p i v r there on short =
        let lba : ℕ = block_lba v.fs p in
        let n : ℕ = v.fs.sectors_per_block in
        let l : Loaded D n 0 lba v.g_buf v.disk (read_block D v.fs p v.g_buf v.disk) =
          read_loop-Loaded D R n 0 lba v.g_buf v.disk r.sectored (omega (arith, on.ends)) r.sectors
            (omega (arith, r.buffer, r.sized.sectors, r.sized.at_most)) in
        let value =
          pointer-Loaded v.fs p i n v.g_buf v.disk (read_block D v.fs p v.g_buf v.disk)
            (omega (arith, short, r.sized.sectors)) l in
        subst (Answers v (pointer_in D p i v)) value
          (simp (ne→== p 0 there, l.read) (number _ _ _ l.size l.disk))
