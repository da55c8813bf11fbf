-- ===== src/Ext2/Relative.antt =====
-- split_path takes the separator at the start of a path away, and with it that the path is absolute.
use podumat_os.Prelude.{ℕ, ◌≡◌, refl, true, false, List, [], ◌∷◌}
use podumat_os.Disk.{Device}
use podumat_os.Ext2.Actions.{Volume}
use podumat_os.Ext2.Paths.{is_separator, without_root, starts_at_root, split_path}
use podumat_os.Ext2.Files.{write_file}
use podumat_os.Ext2.Calls.{create_dir}

without_root_relative : (path : List ℕ) → starts_at_root path ≡ false → without_root path ≡ path
without_root_relative [] h = refl
without_root_relative (c ∷ cs) h = simp h refl

split_path_root :
    (c : ℕ) (path : List ℕ)
    → is_separator c ≡ true
    → starts_at_root path ≡ false
    → split_path (c ∷ path) ≡ split_path path
unfolding split_path
split_path_root c path sep relative = simp (sep, without_root_relative path relative) refl

-- With a separator in front of a path that has none there, write_file does just what it does without
-- it: an absolute path is taken from the current directory. The same holds of create_dir.
pub write_file_root :
    (D : Device) (c : ℕ) (path bytes : List ℕ) (v : Volume D)
    → is_separator c ≡ true
    → starts_at_root path ≡ false
    → (write_file D (c ∷ path) bytes v ≡ write_file D path bytes v)
      × (create_dir D (c ∷ path) v ≡ create_dir D path v)
unfolding write_file create_dir
write_file_root D c path bytes v sep relative = (
  simp (split_path_root c path sep relative) refl,
  simp (split_path_root c path sep relative) refl,
)
