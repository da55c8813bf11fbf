-- ===== src/Disk/Dispatch/Laws.antt =====
-- The laws of `Device` for the block layer over two drivers that have them.
use podumat_os.Prelude.{ℕ, ◌≡◌, ◌≢◌, refl, ap, ◌∙◌, true, some, List}
use podumat_os.Disk.{Device}
use podumat_os.Disk.Dispatch.{
  Driver, no_driver, ata, ahci, Disk, read_by, write_by, read_sector, write_sector, present_by,
  sectors_by, content_by, init, present, sectors, content, flush,
}

module _ (Ahci Ata : Device) where
  read_keeps :
      (w : Driver) (l : ℕ) (d : Disk Ahci Ata)
      → (read_by Ahci Ata w l d).1.active_driver ≡ d.active_driver
  unfolding read_by
  read_keeps no_driver l d = refl
  read_keeps ata l d = refl
  read_keeps ahci l d = refl

  write_keeps :
      (w : Driver) (l : ℕ) (bytes : List ℕ) (d : Disk Ahci Ata)
      → (write_by Ahci Ata w l bytes d).1.active_driver ≡ d.active_driver
  unfolding write_by
  write_keeps no_driver l bytes d = refl
  write_keeps ata l bytes d = refl
  write_keeps ahci l bytes d = refl

  read_content_by :
      (w : Driver) (l : ℕ) (d : Disk Ahci Ata) (m : ℕ)
      → content_by Ahci Ata w (read_by Ahci Ata w l d).1 m ≡ content_by Ahci Ata w d m
  unfolding read_by content_by
  read_content_by no_driver l d m = refl
  read_content_by ata l d m = Ata.read_content l d.ata_state m
  read_content_by ahci l d m = Ahci.read_content l d.ahci_state m

  read_some_by :
      (w : Driver) (l : ℕ) (d : Disk Ahci Ata) (bytes : List ℕ)
      → (read_by Ahci Ata w l d).0 ≡ some bytes
      → bytes ≡ content_by Ahci Ata w d l
  unfolding read_by content_by
  read_some_by no_driver l d bytes h = cc
  read_some_by ata l d bytes h = Ata.read_some l d.ata_state bytes h
  read_some_by ahci l d bytes h = Ahci.read_some l d.ahci_state bytes h

  write_true_by :
      (w : Driver) (l : ℕ) (bytes : List ℕ) (d : Disk Ahci Ata)
      → (write_by Ahci Ata w l bytes d).0 ≡ true
      → content_by Ahci Ata w (write_by Ahci Ata w l bytes d).1 l ≡ bytes
  unfolding write_by content_by
  write_true_by no_driver l bytes d h = cc
  write_true_by ata l bytes d h = Ata.write_true l bytes d.ata_state h
  write_true_by ahci l bytes d h = Ahci.write_true l bytes d.ahci_state h

  write_other_by :
      (w : Driver) (l : ℕ) (bytes : List ℕ) (d : Disk Ahci Ata) (m : ℕ)
      → m ≢ l
      → content_by Ahci Ata w (write_by Ahci Ata w l bytes d).1 m ≡ content_by Ahci Ata w d m
  unfolding write_by content_by
  write_other_by no_driver l bytes d m h = refl
  write_other_by ata l bytes d m h = Ata.write_other l bytes d.ata_state m h
  write_other_by ahci l bytes d m h = Ahci.write_other l bytes d.ahci_state m h

  read_present_by :
      (w : Driver) (l : ℕ) (d : Disk Ahci Ata)
      → present_by Ahci Ata w (read_by Ahci Ata w l d).1 ≡ present_by Ahci Ata w d
  unfolding read_by present_by
  read_present_by no_driver l d = refl
  read_present_by ata l d = Ata.read_present l d.ata_state
  read_present_by ahci l d = Ahci.read_present l d.ahci_state

  write_present_by :
      (w : Driver) (l : ℕ) (bytes : List ℕ) (d : Disk Ahci Ata)
      → present_by Ahci Ata w (write_by Ahci Ata w l bytes d).1 ≡ present_by Ahci Ata w d
  unfolding write_by present_by
  write_present_by no_driver l bytes d = refl
  write_present_by ata l bytes d = Ata.write_present l bytes d.ata_state
  write_present_by ahci l bytes d = Ahci.write_present l bytes d.ahci_state

  pub read_content_lem :
      (l : ℕ) (d : Disk Ahci Ata) (m : ℕ)
      → content Ahci Ata (read_sector Ahci Ata l d).1 m ≡ content Ahci Ata d m
  unfolding content read_sector
  read_content_lem l d m =
      ap (λ w. content_by Ahci Ata w (read_by Ahci Ata d.active_driver l d).1 m)
        (read_keeps d.active_driver l d)
      ∙ read_content_by d.active_driver l d m

  pub read_some_lem :
      (l : ℕ) (d : Disk Ahci Ata) (bytes : List ℕ)
      → (read_sector Ahci Ata l d).0 ≡ some bytes
      → bytes ≡ content Ahci Ata d l
  unfolding content read_sector
  read_some_lem l d bytes h = read_some_by d.active_driver l d bytes h

  pub write_true_lem :
      (l : ℕ) (bytes : List ℕ) (d : Disk Ahci Ata)
      → (write_sector Ahci Ata l bytes d).0 ≡ true
      → content Ahci Ata (write_sector Ahci Ata l bytes d).1 l ≡ bytes
  unfolding content write_sector
  write_true_lem l bytes d h =
      ap (λ w. content_by Ahci Ata w (write_by Ahci Ata d.active_driver l bytes d).1 l)
        (write_keeps d.active_driver l bytes d)
      ∙ write_true_by d.active_driver l bytes d h

  pub write_other_lem :
      (l : ℕ) (bytes : List ℕ) (d : Disk Ahci Ata) (m : ℕ)
      → m ≢ l
      → content Ahci Ata (write_sector Ahci Ata l bytes d).1 m ≡ content Ahci Ata d m
  unfolding content write_sector
  write_other_lem l bytes d m h =
      ap (λ w. content_by Ahci Ata w (write_by Ahci Ata d.active_driver l bytes d).1 m)
        (write_keeps d.active_driver l bytes d)
      ∙ write_other_by d.active_driver l bytes d m h

  pub read_present_lem :
      (l : ℕ) (d : Disk Ahci Ata)
      → present Ahci Ata (read_sector Ahci Ata l d).1 ≡ present Ahci Ata d
  unfolding present read_sector
  read_present_lem l d =
      ap (λ w. present_by Ahci Ata w (read_by Ahci Ata d.active_driver l d).1)
        (read_keeps d.active_driver l d)
      ∙ read_present_by d.active_driver l d

  pub write_present_lem :
      (l : ℕ) (bytes : List ℕ) (d : Disk Ahci Ata)
      → present Ahci Ata (write_sector Ahci Ata l bytes d).1 ≡ present Ahci Ata d
  unfolding present write_sector
  write_present_lem l bytes d =
      ap (λ w. present_by Ahci Ata w (write_by Ahci Ata d.active_driver l bytes d).1)
        (write_keeps d.active_driver l bytes d)
      ∙ write_present_by d.active_driver l bytes d

  read_sectors_by :
      (w : Driver) (l : ℕ) (d : Disk Ahci Ata)
      → sectors_by Ahci Ata w (read_by Ahci Ata w l d).1 ≡ sectors_by Ahci Ata w d
  unfolding read_by sectors_by
  read_sectors_by no_driver l d = refl
  read_sectors_by ata l d = Ata.read_sectors l d.ata_state
  read_sectors_by ahci l d = Ahci.read_sectors l d.ahci_state

  write_sectors_by :
      (w : Driver) (l : ℕ) (bytes : List ℕ) (d : Disk Ahci Ata)
      → sectors_by Ahci Ata w (write_by Ahci Ata w l bytes d).1 ≡ sectors_by Ahci Ata w d
  unfolding write_by sectors_by
  write_sectors_by no_driver l bytes d = refl
  write_sectors_by ata l bytes d = Ata.write_sectors l bytes d.ata_state
  write_sectors_by ahci l bytes d = Ahci.write_sectors l bytes d.ahci_state

  pub read_sectors_lem :
      (l : ℕ) (d : Disk Ahci Ata)
      → sectors Ahci Ata (read_sector Ahci Ata l d).1 ≡ sectors Ahci Ata d
  unfolding sectors read_sector
  read_sectors_lem l d =
      ap (λ w. sectors_by Ahci Ata w (read_by Ahci Ata d.active_driver l d).1)
        (read_keeps d.active_driver l d)
      ∙ read_sectors_by d.active_driver l d

  pub write_sectors_lem :
      (l : ℕ) (bytes : List ℕ) (d : Disk Ahci Ata)
      → sectors Ahci Ata (write_sector Ahci Ata l bytes d).1 ≡ sectors Ahci Ata d
  unfolding sectors write_sector
  write_sectors_lem l bytes d =
      ap (λ w. sectors_by Ahci Ata w (write_by Ahci Ata d.active_driver l bytes d).1)
        (write_keeps d.active_driver l bytes d)
      ∙ write_sectors_by d.active_driver l bytes d

  -- The block layer is again a device: the file systems can stand on it.
  pub device : Device
  device = record {
    State = Disk Ahci Ata;
    init = init Ahci Ata;
    present = present Ahci Ata;
    sectors = sectors Ahci Ata;
    read_sector = read_sector Ahci Ata;
    write_sector = write_sector Ahci Ata;
    flush = flush Ahci Ata;
    content = content Ahci Ata;
    read_content = read_content_lem;
    read_some = read_some_lem;
    write_true = write_true_lem;
    write_other = write_other_lem;
    read_present = read_present_lem;
    write_present = write_present_lem;
    read_sectors = read_sectors_lem;
    write_sectors = write_sectors_lem;
  }
