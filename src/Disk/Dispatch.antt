-- ===== src/Disk/Dispatch.antt =====
-- disk.cpp: every call goes to the driver that `init` chose.
pub mod Laws
pub mod Calls
use podumat_os.Prelude.{
  ℕ, ◌≡◌, ◌≢◌, refl, ap, sym, ◌∙◌, Bool, true, false, Option, none, some, List, [], ◌||◌,
  if◌then◌else◌,
}
use podumat_os.Disk.{Device}

-- `disk::Driver`
pub data Driver : Type 0 where
  no_driver ata ahci : Driver

module _ (Ahci Ata : Device) where
  -- `active_driver`, and the state of the two drivers; `disk::info` is in the active one's state.
  pub record Disk : Type 0 where
    pub active_driver : Driver
    pub ahci_state : Ahci.State
    pub ata_state : Ata.State

  open_ahci : Disk → Bool × Ahci.State → Bool × Disk
  open_ahci d (ok, s) =
      (ok, record d { active_driver = if ok then ahci else no_driver; ahci_state = s })

  open_ata : Disk → Bool × Ata.State → Bool × Disk
  open_ata d (ok, s) =
      (ok, record d { active_driver = if ok then ata else no_driver; ata_state = s })

  -- The second probe runs only if the first one fails.
  or_else : ℕ → Bool × Disk → Bool × Disk
  unfolding open_ata
  or_else hhdm (true, d) = (true, d)
  or_else hhdm (false, d) = open_ata d (Ata.init hhdm d.ata_state)

  pub init : ℕ → Disk → Bool × Disk
  unfolding open_ahci or_else
  init hhdm d = or_else hhdm (open_ahci d (Ahci.init hhdm d.ahci_state))

  on_ahci : {A : Type 0} → Disk → A × Ahci.State → A × Disk
  on_ahci d (a, s) = (a, record d { ahci_state = s })

  on_ata : {A : Type 0} → Disk → A × Ata.State → A × Disk
  on_ata d (a, s) = (a, record d { ata_state = s })

  pub read_by : Driver → ℕ → Disk → Option (List ℕ) × Disk
  unfolding on_ahci on_ata
  read_by no_driver l d = (none, d)
  read_by ata l d = on_ata d (Ata.read_sector l d.ata_state)
  read_by ahci l d = on_ahci d (Ahci.read_sector l d.ahci_state)

  unfoldable pub read_sector : ℕ → Disk → Option (List ℕ) × Disk
  unfolding read_by
  read_sector l d = read_by d.active_driver l d

  pub write_by : Driver → ℕ → List ℕ → Disk → Bool × Disk
  unfolding on_ahci on_ata
  write_by no_driver l bytes d = (false, d)
  write_by ata l bytes d = on_ata d (Ata.write_sector l bytes d.ata_state)
  write_by ahci l bytes d = on_ahci d (Ahci.write_sector l bytes d.ahci_state)

  unfoldable pub write_sector : ℕ → List ℕ → Disk → Bool × Disk
  unfolding write_by
  write_sector l bytes d = write_by d.active_driver l bytes d

  flush_by : Driver → Disk → Bool × Disk
  unfolding on_ahci on_ata
  flush_by no_driver d = (false, d)
  flush_by ata d = on_ata d (Ata.flush d.ata_state)
  flush_by ahci d = on_ahci d (Ahci.flush d.ahci_state)

  pub flush : Disk → Bool × Disk
  unfolding flush_by
  flush d = flush_by d.active_driver d

  -- `info.present` and `info.sectors`: `init` clears the former when no driver is found.
  pub present_by : Driver → Disk → Bool
  present_by no_driver d = false
  present_by ata d = Ata.present d.ata_state
  present_by ahci d = Ahci.present d.ahci_state

  pub sectors_by : Driver → Disk → ℕ
  sectors_by no_driver d = 0
  sectors_by ata d = Ata.sectors d.ata_state
  sectors_by ahci d = Ahci.sectors d.ahci_state

  pub content_by : Driver → Disk → ℕ → List ℕ
  content_by no_driver d l = []
  content_by ata d l = Ata.content d.ata_state l
  content_by ahci d l = Ahci.content d.ahci_state l

  -- What a client sees through `disk::`.
  pub present : Disk → Bool
  present d = present_by d.active_driver d

  pub sectors : Disk → ℕ
  unfolding sectors_by
  sectors d = sectors_by d.active_driver d

  pub content : Disk → ℕ → List ℕ
  unfolding content_by
  content d = content_by d.active_driver d
