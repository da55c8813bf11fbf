-- ===== src/Disk.antt =====
-- kernel/src/drivers/disk.cpp: the block layer. `Device` is what disk.cpp needs of a driver (ahci::
-- and ata::), and what the file systems need of disk::; `Dispatch` builds the one from the other.
pub mod Dispatch
pub mod Ram
pub mod Stores
use podumat_os.Prelude.{
  ℕ, ◌<◌, ◌≡◌, ◌≢◌, Bool, true, false, Option, none, some, List, ◌==◌, if◌then◌else◌,
}

-- What sector `l` holds after `bytes` are written to it.
abbrev pub put : (ℕ → List ℕ) → ℕ → List ℕ → ℕ → List ℕ
put f l bytes m = if m == l then bytes else f m

-- A driver over the state of its hardware. A read gives the 512 bytes of the buffer, or `none` where
-- the call returns false. `content` is the medium: it is not an operation, the laws speak of it.
pub record Device : Type 1 where
  pub State : Type 0
  pub init : ℕ → State → Bool × State
  pub present : State → Bool
  pub sectors : State → ℕ
  pub read_sector : ℕ → State → Option (List ℕ) × State
  pub write_sector : ℕ → List ℕ → State → Bool × State
  pub flush : State → Bool × State
  pub content : State → ℕ → List ℕ
  -- A read returns what the medium holds and does not change it.
  pub read_content : (l : ℕ) (s : State) (m : ℕ) → content (read_sector l s).1 m ≡ content s m
  pub read_some :
      (l : ℕ) (s : State) (bytes : List ℕ) → (read_sector l s).0 ≡ some bytes → bytes ≡ content s l
  -- A write that succeeds stores its bytes; a write changes no other sector, also if it fails.
  pub write_true :
      (l : ℕ) (bytes : List ℕ) (s : State)
      → (write_sector l bytes s).0 ≡ true
      → content (write_sector l bytes s).1 l ≡ bytes
  pub write_other :
      (l : ℕ) (bytes : List ℕ) (s : State) (m : ℕ)
      → m ≢ l
      → content (write_sector l bytes s).1 m ≡ content s m
  -- Only `init` and `stop` write `disk::info`.
  pub read_present : (l : ℕ) (s : State) → present (read_sector l s).1 ≡ present s
  pub write_present :
      (l : ℕ) (bytes : List ℕ) (s : State) → present (write_sector l bytes s).1 ≡ present s
  pub read_sectors : (l : ℕ) (s : State) → sectors (read_sector l s).1 ≡ sectors s
  pub write_sectors :
      (l : ℕ) (bytes : List ℕ) (s : State) → sectors (write_sector l bytes s).1 ≡ sectors s

-- A device without faults: every call on a sector that it has succeeds.
pub record IsReliable (D : Device) : Type 0 where
  pub reads : (l : ℕ) (s : D.State) → l < D.sectors s → (D.read_sector l s).0 ≡ some (D.content s l)
  pub writes :
      (l : ℕ) (bytes : List ℕ) (s : D.State) → l < D.sectors s → (D.write_sector l bytes s).0 ≡ true
