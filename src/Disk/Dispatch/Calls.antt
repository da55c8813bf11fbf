-- ===== src/Disk/Dispatch/Calls.antt =====
-- Reads of other sectors around a write, and which driver `init` chooses.
use podumat_os.Prelude.{
  ℕ, ◌≡◌, ◌≢◌, refl, sym, ◌∙◌, Bool, true, false, some, List, ◌||◌, if◌then◌else◌,
}
use podumat_os.Disk.{Device}
use podumat_os.Disk.Dispatch.{Driver, no_driver, ata, ahci, Disk, read_sector, write_sector, init}
use podumat_os.Disk.Dispatch.Laws.{read_some_lem, write_other_lem}

module _ (Ahci Ata : Device) where
  -- Whether a write succeeds or not, two reads of another sector, one before it and one after it,
  -- that both succeed return the same bytes.
  pub read_sector-write_sector_ne :
      (l m : ℕ) (bytes old back : List ℕ) (d : Disk Ahci Ata)
      → m ≢ l
      → (read_sector Ahci Ata m d).0 ≡ some old
      → (read_sector Ahci Ata m (write_sector Ahci Ata l bytes d).1).0 ≡ some back
      → back ≡ old
  read_sector-write_sector_ne l m bytes old back d ne before after =
      read_some_lem Ahci Ata m _ back after
      ∙ write_other_lem Ahci Ata l bytes d m ne
      ∙ sym (read_some_lem Ahci Ata m d old before)

  -- The drivers in the order in which `init` tries them.
  unfoldable pub preferred : Bool → Bool → Driver
  preferred true t = ahci
  preferred false true = ata
  preferred false false = no_driver

  -- `init` prefers AHCI, touches ATA only if AHCI fails, succeeds if one of them does, and with
  -- neither leaves no driver.
  pub init_lem :
      (hhdm : ℕ) (d : Disk Ahci Ata)
      → let h = Ahci.init hhdm d.ahci_state in
        let t = Ata.init hhdm d.ata_state in
        let r = init Ahci Ata hhdm d in
        (r.0 ≡ (h.0 || t.0))
        × (r.1.active_driver ≡ preferred h.0 t.0)
        × (r.1.ahci_state ≡ h.1)
        × (r.1.ata_state ≡ (if h.0 then d.ata_state else t.1))
  unfolding init preferred
  init_lem hhdm d = by_cases (Ahci.init hhdm d.ahci_state) (Ata.init hhdm d.ata_state) refl refl
    where
      by_cases :
          (h : Bool × Ahci.State) (t : Bool × Ata.State)
          → Ahci.init hhdm d.ahci_state ≡ h
          → Ata.init hhdm d.ata_state ≡ t
          → ((init Ahci Ata hhdm d).0 ≡ (h.0 || t.0))
            × ((init Ahci Ata hhdm d).1.active_driver ≡ preferred h.0 t.0)
            × ((init Ahci Ata hhdm d).1.ahci_state ≡ h.1)
            × ((init Ahci Ata hhdm d).1.ata_state ≡ (if h.0 then d.ata_state else t.1))
      by_cases (true, a) t e f = simp e (refl, refl, refl, refl)
      by_cases (false, a) (true, b) e f = simp (e, f) (refl, refl, refl, refl)
      by_cases (false, a) (false, b) e f = simp (e, f) (refl, refl, refl, refl)
