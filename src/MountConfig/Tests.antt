-- ===== src/MountConfig/Tests.antt =====
-- The theorems on mount_config.cpp at concrete tables, and runs of its functions.
use podumat_os.Prelude.{ℕ, ◌≡◌, refl, true, false, [], ◌∷◌, arith, replicate}
use podumat_os.Disk.Ram.{ram, blank}
use podumat_os.MountConfig.Layout.{SavedEntry, DiskLayout, blank_entry, serialize, IsLayout}
use podumat_os.MountConfig.{
  ensure, zeroed, stamped, Mounts, save, load, add, add_entry, remove_entry, has_letter,
}
use podumat_os.MountConfig.Edit.{live, IsConfig, put_entry, erase_first, live-remove_entry}
use podumat_os.MountConfig.Persist.{load-save, load-IsConfig, live-add, load-add}

abbrev saved_entry : ℕ → ℕ → SavedEntry
saved_entry letter part = record {
  letter = letter;
  fs_type = 2;
  part_num = part;
  reserved = 0;
  lba = 2048;
}

-- Partition 1 is C:, partition 2 is D:.
abbrev two_drives : DiskLayout
two_drives = record {
  magic = 0x504D5443;
  version = 2;
  count = 2;
  reserved = 0;
  entries = saved_entry b'C' 1 ∷ saved_entry b'D' 2 ∷ blank_entry ∷ blank_entry ∷ [];
  padding = replicate 460 0;
  checksum = 0;
}

two_drives-IsLayout : IsLayout two_drives
two_drives-IsLayout = omega arith

two_drives-IsConfig : IsConfig two_drives
two_drives-IsConfig = omega arith

live-remove_entry_example :
    live (remove_entry (has_letter b'C') two_drives) ≡ saved_entry b'D' 2 ∷ []
unfolding erase_first
live-remove_entry_example = live-remove_entry (has_letter b'C') two_drives two_drives-IsConfig

abbrev booted : Mounts ram
booted = record { cfg = two_drives; loaded = true; disk = blank 64 }

abbrev next_boot : Mounts ram
next_boot = record { cfg = zeroed; loaded = false; disk = (save ram booted).1.disk }

load-save_example : (load ram next_boot).1.cfg ≡ record (stamped two_drives) { checksum = 0 }
unfolding save
load-save_example =
    load-save ram booted next_boot (serialize (stamped two_drives)) two_drives-IsLayout
      (omega arith) refl refl refl refl refl

load-IsConfig_example : IsConfig (load ram next_boot).1.cfg
load-IsConfig_example = load-IsConfig ram next_boot refl

live-add_example :
    live (add ram b'E' 1 3 4096 booted).1.cfg
    ≡ saved_entry b'C' 1
      ∷ saved_entry b'D' 2
      ∷ record { letter = b'E'; fs_type = 1; part_num = 3; reserved = 0; lba = 4096 }
      ∷ []
unfolding put_entry
live-add_example = live-add ram b'E' 1 3 4096 booted refl two_drives-IsConfig

abbrev boot_after_add : Mounts ram
boot_after_add = record {
  cfg = zeroed;
  loaded = false;
  disk = (add ram b'E' 2 1 2048 booted).1.disk;
}

load-add_example :
    live (load ram boot_after_add).1.cfg ≡ saved_entry b'E' 1 ∷ saved_entry b'D' 2 ∷ []
unfolding add save put_entry ensure
load-add_example =
    load-add ram b'E' 2 1 2048 booted refl two_drives-IsConfig boot_after_add
      (serialize (stamped (add_entry b'E' 2 1 2048 two_drives))) (omega arith) (omega arith)
      (omega arith) (omega arith) two_drives-IsLayout refl refl refl refl refl
