-- ===== src/MountConfig/Edit.antt =====
-- The edits of the entries against lists: what is live after `add` and `remove`.
use mathlib.Core.Option
use podumat_os.Prelude.{
  ℕ, zero, suc, ◌^◌, ◌≤◌, ◌<◌, ◌≡◌, Bool, List, [], ◌∷◌, ◌++◌, Option, none, some, ltb,
  if◌then◌else◌, length, arith, ap, ◌∙◌, take, drop,
}
use podumat_os.MountConfig.Layout.{SavedEntry, DiskLayout, IsLayout, AllEntries}
use podumat_os.MountConfig.{
  has_part, has_letter, retarget, remount, new_entry, add_entry, remove_entry,
}

-- The entries in use, oldest first.
abbrev pub live : DiskLayout → List SavedEntry
live c = take c.count c.entries

pub record IsConfig (c : DiskLayout) : Type 0 where
  pub bounded : c.count ≤ 4
  pub four : length c.entries ≡ 4

-- The first entry that passes the test, changed; `none` if there is none.
pub update_first :
    (SavedEntry → Bool) → (SavedEntry → SavedEntry) → List SavedEntry → Option (List SavedEntry)
update_first p f [] = none
update_first p f (e ∷ es) =
    if p e then some (f e ∷ es) else Option.map (λ rest. e ∷ rest) (update_first p f es)

abbrev or_else : Option (List SavedEntry) → List SavedEntry → List SavedEntry
or_else none es = es
or_else (some ds) es = ds

abbrev newest : SavedEntry → List SavedEntry → List SavedEntry
newest e es = (if ltb (length es) 4 then es else drop 1 es) ++ (e ∷ [])

-- An entry of the partition is changed, whatever letter others have; or else one of the letter; or else
-- the entry is the newest of at most four.
unfoldable pub put_entry : (letter fs_type part_num lba : ℕ) → List SavedEntry → List SavedEntry
unfolding update_first
put_entry letter fs_type part_num lba es =
    or_else (update_first (has_part part_num) (retarget letter fs_type part_num lba) es) (
      or_else (update_first (has_letter letter) (remount letter fs_type part_num lba) es)
        (newest (new_entry letter fs_type part_num lba) es))

unfoldable pub erase_first : (SavedEntry → Bool) → List SavedEntry → List SavedEntry
erase_first p [] = []
erase_first p (e ∷ es) = if p e then es else e ∷ erase_first p es

-- Every table has four entries, and a count up to four.
module _ (P : ℕ → List SavedEntry → Type 0) where
  abbrev At : ℕ → Type 0
  At n = (p q r s : SavedEntry) → P n (p ∷ q ∷ r ∷ s ∷ [])

  by_count : At 0 → At 1 → At 2 → At 3 → At 4 → (n : ℕ) → n ≤ 4 → At n
  by_count a b c d e zero h = a
  by_count a b c d e (suc zero) h = b
  by_count a b c d e (suc (suc zero)) h = c
  by_count a b c d e (suc (suc (suc zero))) h = d
  by_count a b c d e (suc (suc (suc (suc zero)))) h = e
  by_count a b c d e (suc (suc (suc (suc (suc n))))) h = absurd (omega arith)

  by_shape : (n : ℕ) → At n → (es : List SavedEntry) → length es ≡ 4 → P n es
  by_shape n h [] four = absurd (omega arith)
  by_shape n h (p ∷ []) four = absurd (omega arith)
  by_shape n h (p ∷ q ∷ []) four = absurd (omega arith)
  by_shape n h (p ∷ q ∷ r ∷ []) four = absurd (omega arith)
  by_shape n h (p ∷ q ∷ r ∷ s ∷ []) four = h p q r s
  by_shape n h (p ∷ q ∷ r ∷ s ∷ t ∷ more) four = absurd (omega arith)

  by_table :
      At 0
      → At 1
      → At 2
      → At 3
      → At 4
      → (n : ℕ) (es : List SavedEntry) → n ≤ 4
      → length es ≡ 4
      → P n es
  by_table a b c d e n es h four = by_shape n (by_count a b c d e n h) es four

module _ (letter fs_type part_num lba : ℕ) (c : DiskLayout) (v : IsConfig c) where
  abbrev adds : ℕ → List SavedEntry → DiskLayout
  adds n es = add_entry letter fs_type part_num lba (record c { count = n; entries = es })

  -- On a well-formed table `add` puts its entry as `put_entry` says: it changes the entry of the same
  -- partition, or else that of the same letter, or else appends, dropping the oldest of four.
  pub live-add_entry :
      live (add_entry letter fs_type part_num lba c)
      ≡ put_entry letter fs_type part_num lba (live c)
  unfolding add_entry put_entry
  live-add_entry =
      by_table (λ n es. live (adds n es) ≡ put_entry letter fs_type part_num lba (take n es))
        (λ p q r s. ground arith) (λ p q r s. ground arith) (λ p q r s. ground arith)
        (λ p q r s. ground arith) (λ p q r s. ground arith) c.count c.entries v.bounded v.four

  pub add_entry-IsConfig : IsConfig (add_entry letter fs_type part_num lba c)
  unfolding add_entry
  add_entry-IsConfig =
      by_table (λ n es. IsConfig (adds n es)) (λ p q r s. ground arith) (λ p q r s. ground arith)
        (λ p q r s. ground arith) (λ p q r s. ground arith) (λ p q r s. ground arith) c.count
        c.entries v.bounded v.four

  add_entry-entries :
      letter < 256
      → fs_type < 256
      → part_num < 256
      → lba < 2 ^ 32
      → AllEntries c.entries
      → AllEntries (add_entry letter fs_type part_num lba c).entries
  unfolding add_entry
  add_entry-entries hl hf hp hb =
      by_table (λ n es. AllEntries es → AllEntries (adds n es).entries)
        (λ p q r s all. ground arith) (λ p q r s all. ground arith) (λ p q r s all. ground arith)
        (λ p q r s all. ground arith) (λ p q r s all. ground arith) c.count c.entries v.bounded
        v.four

  add_entry-rest :
      ((add_entry letter fs_type part_num lba c).magic ≡ c.magic)
      × ((add_entry letter fs_type part_num lba c).version ≡ c.version)
      × ((add_entry letter fs_type part_num lba c).reserved ≡ c.reserved)
      × ((add_entry letter fs_type part_num lba c).padding ≡ c.padding)
      × ((add_entry letter fs_type part_num lba c).checksum ≡ c.checksum)
  unfolding add_entry
  add_entry-rest = ground arith

  pub add_entry-IsLayout :
      letter < 256
      → fs_type < 256
      → part_num < 256
      → lba < 2 ^ 32
      → IsLayout c
      → IsLayout (add_entry letter fs_type part_num lba c)
  add_entry-IsLayout hl hf hp hb w =
      let (magic, version, reserved, padding, checksum) = add_entry-rest in
      let kept = add_entry-IsConfig in
      record {
        magic_fits = omega (arith, magic, w.magic_fits);
        version_fits = omega (arith, version, w.version_fits);
        count_fits = omega (arith, kept.bounded);
        reserved_fits = omega (arith, reserved, w.reserved_fits);
        entries_fit = add_entry-entries hl hf hp hb w.entries_fit;
        four = kept.four;
        padded = ap length padding ∙ w.padded;
        checksum_fits = omega (arith, checksum, w.checksum_fits);
      }

module _ (p : SavedEntry → Bool) (c : DiskLayout) (v : IsConfig c) where
  abbrev removes : ℕ → List SavedEntry → DiskLayout
  removes n es = remove_entry p (record c { count = n; entries = es })

  -- On a well-formed table a removal erases the first entry in use that passes the test, and keeps
  -- the others in order.
  pub live-remove_entry : live (remove_entry p c) ≡ erase_first p (live c)
  unfolding remove_entry erase_first
  live-remove_entry =
      by_table (λ n es. live (removes n es) ≡ erase_first p (take n es)) (λ w x y z. ground arith)
        (λ w x y z. ground arith) (λ w x y z. ground arith) (λ w x y z. ground arith)
        (λ w x y z. ground arith) c.count c.entries v.bounded v.four

  pub remove_entry-IsConfig : IsConfig (remove_entry p c)
  unfolding remove_entry
  remove_entry-IsConfig =
      by_table (λ n es. IsConfig (removes n es)) (λ w x y z. ground arith) (λ w x y z. ground arith)
        (λ w x y z. ground arith) (λ w x y z. ground arith) (λ w x y z. ground arith) c.count
        c.entries v.bounded v.four
