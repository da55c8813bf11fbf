-- ===== src/MountConfig.antt =====
-- kernel/src/fs/mount_config.cpp: the drive letters that are kept in sector 1 of the boot disk.
-- `Mounts` is the static `g_cfg` and `g_loaded`, with the state of the disk.
pub mod Layout
pub mod Edit
pub mod Persist
mod Tests
use mathlib.Core.Option
use podumat_os.Prelude.{
  ℕ, zero, suc, ◌+◌, ◌-◌, ◌*◌, ◌≡◌, Bool, true, false, not, ◌&&◌, ◌||◌, Option, none, some, List,
  [], ◌∷◌, ltb, leb, ◌==◌, if◌then◌else◌, u32, bit_xor, get_or, set, replicate, take,
}
use podumat_os.Disk.{Device}
use Layout.{SavedEntry, DiskLayout, blank_entry, body, serialize, parse}

pub record Entry : Type 0 where
  pub letter : ℕ
  pub fs_type : ℕ
  pub part_num : ℕ
  pub lba : ℕ

abbrev pub config_magic : ℕ
config_magic = 0x504D5443

abbrev pub config_version : ℕ
config_version = 2

abbrev pub config_lba : ℕ
config_lba = 1

abbrev pub max_entries : ℕ
max_entries = 4

-- The loop of `compute_checksum`; a product of two 32-bit numbers wraps.
pub checksum_loop : ℕ → List ℕ → ℕ
checksum_loop sum [] = sum
checksum_loop sum (b ∷ bytes) = checksum_loop (u32 (bit_xor sum b * 16777619)) bytes

pub compute_checksum : DiskLayout → ℕ
unfolding checksum_loop
compute_checksum c = checksum_loop 0x811C9DC5 (body c [])

pub zeroed : DiskLayout
zeroed = record {
  magic = config_magic;
  version = config_version;
  count = 0;
  reserved = 0;
  entries = replicate max_entries blank_entry;
  padding = replicate 460 0;
  checksum = 0;
}

pub reset_layout : DiskLayout
unfolding zeroed
reset_layout = record zeroed { checksum = compute_checksum zeroed }

-- What `load` asks of a sector: the magic, the version, the checksum and the count.
pub acceptable : DiskLayout → Bool
acceptable c =
    (c.magic == config_magic && c.version == config_version)
    && (c.checksum == compute_checksum (record c { checksum = 0 }) && leb c.count max_entries)

-- What `save` writes.
pub stamped : DiskLayout → DiskLayout
stamped c =
    let blank = record c { magic = config_magic; version = config_version; checksum = 0 } in
    record blank { checksum = compute_checksum blank }

-- The index of the first of the first `n` entries that passes the test.
pub first_index : (SavedEntry → Bool) → ℕ → List SavedEntry → Option ℕ
first_index p zero es = none
first_index p (suc n) [] = none
first_index p (suc n) (e ∷ es) = if p e then some 0 else Option.map suc (first_index p n es)

abbrev pub has_part : ℕ → SavedEntry → Bool
has_part part e = e.part_num == part

abbrev pub has_letter : ℕ → SavedEntry → Bool
has_letter letter e = e.letter == letter

-- `entries[j - 1] = entries[j]` for `left` values of `j`, the first of them `i + 1`.
pub shift_down : List SavedEntry → ℕ → ℕ → List SavedEntry
shift_down es i zero = es
shift_down es i (suc left) = shift_down (set es i (get_or es (i + 1) blank_entry)) (i + 1) left

abbrev pub modify : List SavedEntry → ℕ → (SavedEntry → SavedEntry) → List SavedEntry
modify es i f = set es i (f (get_or es i blank_entry))

module _ (letter fs_type part_num lba : ℕ) where
  abbrev pub retarget : SavedEntry → SavedEntry
  retarget e = record e { letter = letter; fs_type = fs_type; lba = lba }

  abbrev pub remount : SavedEntry → SavedEntry
  remount e = record e { part_num = part_num; fs_type = fs_type; lba = lba }

  abbrev pub new_entry : SavedEntry
  new_entry = record {
    letter = letter;
    fs_type = fs_type;
    part_num = part_num;
    reserved = 0;
    lba = lba;
  }

  -- The oldest entry goes where there is no free slot.
  pub make_room : DiskLayout → DiskLayout
  unfolding shift_down
  make_room c =
      if leb max_entries c.count
      then record c { entries = shift_down c.entries 0 (max_entries - 1); count = max_entries - 1 }
      else c

  pub append : DiskLayout → DiskLayout
  append c = record c { entries = set c.entries c.count new_entry; count = c.count + 1 }

  add_by_letter : DiskLayout → Option ℕ → DiskLayout
  add_by_letter c (some i) = record c { entries = modify c.entries i remount }
  add_by_letter c none = append (make_room c)

  add_by_part : DiskLayout → Option ℕ → DiskLayout
  unfolding add_by_letter
  add_by_part c (some i) = record c { entries = modify c.entries i retarget }
  add_by_part c none = add_by_letter c (first_index (has_letter letter) c.count c.entries)

  -- `add` up to its call of `save`.
  pub add_entry : DiskLayout → DiskLayout
  unfolding add_by_part make_room append first_index
  add_entry c = add_by_part c (first_index (has_part part_num) c.count c.entries)

remove_at : DiskLayout → Option ℕ → DiskLayout
unfolding shift_down
remove_at c none = c
remove_at c (some i) = record c {
  entries = set (shift_down c.entries i (c.count - (i + 1))) (c.count - 1) blank_entry;
  count = c.count - 1;
}

-- `remove_by_part` and `remove_by_letter` up to their call of `save`.
pub remove_entry : (SavedEntry → Bool) → DiskLayout → DiskLayout
unfolding remove_at first_index
remove_entry p c = remove_at c (first_index p c.count c.entries)

pub clear_entries : DiskLayout → DiskLayout
clear_entries c = record c { count = 0; entries = replicate max_entries blank_entry }

module _ (D : Device) where
  pub record Mounts : Type 0 where
    pub cfg : DiskLayout
    pub loaded : Bool
    pub disk : D.State

  pub reset : Mounts → Bool × Mounts
  reset m = (false, record m { cfg = reset_layout; loaded = true })

  -- What `load` does with the sector that it has read.
  pub take_sector : Mounts → Option (List ℕ) × D.State → Bool × Mounts
  take_sector m (none, s) = reset (record m { disk = s })
  take_sector m (some sector, s) =
      let tmp = parse sector in
      if acceptable tmp
      then (
        ltb 0 tmp.count,
        record m { cfg = record tmp { checksum = 0 }; loaded = true; disk = s },
      )
      else reset (record m { disk = s })

  pub load : Mounts → Bool × Mounts
  unfolding reset take_sector
  load m =
      if m.loaded
      then (true, m)
      else if not (D.present m.disk)
      then reset m
      else take_sector m (D.read_sector config_lba m.disk)

  abbrev written : Mounts → Bool × D.State → Bool × Mounts
  written m (done, s) = (done, record m { cfg = stamped m.cfg; disk = s })

  pub save : Mounts → Bool × Mounts
  save m =
      if not (D.present m.disk)
      then (false, m)
      else written m (D.write_sector config_lba (serialize (stamped m.cfg)) m.disk)

  -- `if (!g_loaded) load();`
  pub ensure : Mounts → Mounts
  ensure m = if m.loaded then m else (load m).1

  abbrev pub edit : (DiskLayout → DiskLayout) → Mounts → Bool × Mounts
  edit f m = let n = ensure m in save (record n { cfg = f n.cfg })

  pub add : (letter fs_type part_num lba : ℕ) → Mounts → Bool × Mounts
  add letter fs_type part_num lba = edit (add_entry letter fs_type part_num lba)

  pub remove_by_part : ℕ → Mounts → Bool × Mounts
  remove_by_part part = edit (remove_entry (has_part part))

  pub remove_by_letter : ℕ → Mounts → Bool × Mounts
  remove_by_letter letter = edit (remove_entry (has_letter letter))

  pub clear : Mounts → Bool × Mounts
  clear = edit clear_entries

  pub count : Mounts → ℕ × Mounts
  count m = let n = ensure m in (n.cfg.count, n)

  abbrev entry_of : SavedEntry → Entry
  entry_of e = record { letter = e.letter; fs_type = e.fs_type; part_num = e.part_num; lba = e.lba }

  -- `idx` is not negative here; `none` is the result false.
  pub get : ℕ → Mounts → Option Entry × Mounts
  get idx m =
      let n = ensure m in
      (
        if leb n.cfg.count idx
            then none
            else some (entry_of (get_or n.cfg.entries idx blank_entry)),
        n,
      )

  pub get_last : Mounts → Option Entry × Mounts
  get_last m = let n = ensure m in if n.cfg.count == 0 then (none, n) else get (n.cfg.count - 1) n
