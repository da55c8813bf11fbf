-- ===== src/MountConfig/Layout.antt =====
-- The sector that mount_config.cpp reads and writes: the packed structs and their bytes.
use podumat_os.Prelude.{
  ℕ, zero, suc, ◌+◌, ◌*◌, ◌/◌, ◌^◌, ◌<◌, ◌≡◌, refl, ap, subst, List, [], ◌∷◌, ◌++◌, u8, length,
  take-append_self, drop-append_self, take, drop, arith,
}

pub record SavedEntry : Type 0 where
  pub letter : ℕ
  pub fs_type : ℕ
  pub part_num : ℕ
  pub reserved : ℕ
  pub lba : ℕ

-- The struct's array of `MAX_ENTRIES` entries has a field for each.
pub record DiskLayout : Type 0 where
  pub magic : ℕ
  pub version : ℕ
  pub count : ℕ
  pub reserved : ℕ
  pub entries : List SavedEntry
  pub padding : List ℕ
  pub checksum : ℕ

-- `wipe_entry`
abbrev pub blank_entry : SavedEntry
blank_entry = record { letter = 0; fs_type = 0; part_num = 0; reserved = 0; lba = 0 }

-- A `uint32_t` in memory, lowest byte first, before `rest`.
pub le32 : ℕ → List ℕ → List ℕ
le32 n rest = u8 n ∷ u8 (n / 2 ^ 8) ∷ u8 (n / 2 ^ 16) ∷ u8 (n / 2 ^ 24) ∷ rest

pub entry_bytes : SavedEntry → List ℕ → List ℕ
unfolding le32
entry_bytes e rest = e.letter ∷ e.fs_type ∷ e.part_num ∷ e.reserved ∷ le32 e.lba rest

pub entries_bytes : List SavedEntry → List ℕ → List ℕ
unfolding entry_bytes
entries_bytes [] rest = rest
entries_bytes (e ∷ es) rest = entry_bytes e (entries_bytes es rest)

-- All but the checksum, the bytes that `compute_checksum` runs over.
pub body : DiskLayout → List ℕ → List ℕ
body c rest =
    le32 c.magic (
      le32 c.version (le32 c.count (le32 c.reserved (entries_bytes c.entries (c.padding ++ rest)))))

-- `memcpy(sector, &g_cfg, 512)`
pub serialize : DiskLayout → List ℕ
serialize c = body c (le32 c.checksum [])

-- `memcpy(&tmp, sector, 512)`, field by field: what a field reads, and the bytes behind it.
pub read32 : List ℕ → ℕ × List ℕ
read32 (a ∷ b ∷ c ∷ d ∷ rest) = (a + b * 2 ^ 8 + c * 2 ^ 16 + d * 2 ^ 24, rest)
read32 _ = (0, [])

read8 : List ℕ → ℕ × List ℕ
read8 (a ∷ rest) = (a, rest)
read8 [] = (0, [])

pub read_entry : List ℕ → SavedEntry × List ℕ
unfolding read32 read8
read_entry bytes =
    let (letter, b) = read8 bytes in
    let (fs_type, c) = read8 b in
    let (part_num, d) = read8 c in
    let (reserved, e) = read8 d in
    let (lba, f) = read32 e in
    (
      record {
        letter = letter;
        fs_type = fs_type;
        part_num = part_num;
        reserved = reserved;
        lba = lba;
      },
      f,
    )

pub read_entries : ℕ → List ℕ → List SavedEntry × List ℕ
unfolding read_entry
read_entries zero bytes = ([], bytes)
read_entries (suc n) bytes =
    let (e, rest) = read_entry bytes in let (es, last) = read_entries n rest in (e ∷ es, last)

pub parse : List ℕ → DiskLayout
parse sector =
    let (magic, b) = read32 sector in
    let (version, c) = read32 b in
    let (count, d) = read32 c in
    let (reserved, e) = read32 d in
    let (entries, f) = read_entries 4 e in
    let (checksum, g) = read32 (drop 460 f) in
    record {
      magic = magic;
      version = version;
      count = count;
      reserved = reserved;
      entries = entries;
      padding = take 460 f;
      checksum = checksum;
    }

abbrev pub IsEntry : SavedEntry → Type 0
IsEntry e =
    (e.letter < 256)
    × (e.fs_type < 256)
    × (e.part_num < 256)
    × (e.reserved < 256)
    × (e.lba < 2 ^ 32)

abbrev pub AllEntries : List SavedEntry → Type 0
AllEntries [] = Unit {0}
AllEntries (e ∷ es) = IsEntry e × AllEntries es

-- The fields fit their types.
pub record IsLayout (c : DiskLayout) : Type 0 where
  pub magic_fits : c.magic < 2 ^ 32
  pub version_fits : c.version < 2 ^ 32
  pub count_fits : c.count < 2 ^ 32
  pub reserved_fits : c.reserved < 2 ^ 32
  pub entries_fit : AllEntries c.entries
  pub four : length c.entries ≡ 4
  pub padded : length c.padding ≡ 460
  pub checksum_fits : c.checksum < 2 ^ 32

word :
    (n : ℕ)
    → n < 2 ^ 32
    → u8 n + u8 (n / 2 ^ 8) * 2 ^ 8 + u8 (n / 2 ^ 16) * 2 ^ 16 + u8 (n / 2 ^ 24) * 2 ^ 24 ≡ n
word n h = omega arith

read32-le32 : (n : ℕ) (rest : List ℕ) → n < 2 ^ 32 → read32 (le32 n rest) ≡ (n, rest)
unfolding read32 le32
read32-le32 n rest h = ap (λ k. (k, rest)) (word n h)

read_entries-entries_bytes :
    (es : List SavedEntry) (rest : List ℕ)
    → AllEntries es
    → read_entries (length es) (entries_bytes es rest) ≡ (es, rest)
unfolding read_entries entries_bytes
read_entries-entries_bytes [] rest h = refl
read_entries-entries_bytes (e ∷ es) rest h =
    rw (word e.lba h.0.4, read_entries-entries_bytes es rest h.1) refl

four_entries :
    (es : List SavedEntry) (rest : List ℕ)
    → AllEntries es
    → length es ≡ 4
    → read_entries 4 (entries_bytes es rest) ≡ (es, rest)
four_entries es rest h e =
    subst (λ n. read_entries n (entries_bytes es rest) ≡ (es, rest)) e
      (read_entries-entries_bytes es rest h)

-- A layout whose fields fit their types is read back from the sector's bytes.
pub parse-serialize : (c : DiskLayout) → IsLayout c → parse (serialize c) ≡ c
unfolding parse serialize body
parse-serialize c v =
    simp
      (
        read32-le32 c.magic _ v.magic_fits,
        read32-le32 c.version _ v.version_fits,
        read32-le32 c.count _ v.count_fits,
        read32-le32 c.reserved _ v.reserved_fits,
        four_entries c.entries _ v.entries_fit v.four,
        take-append_self c.padding _ 460 v.padded,
        drop-append_self c.padding _ 460 v.padded,
        read32-le32 c.checksum _ v.checksum_fits,
      )
      refl

pub parse-four : (sector : List ℕ) → length (parse sector).entries ≡ 4
unfolding parse read_entries
parse-four sector = refl
