-- ===== src/Mbr/Sector.antt =====
-- The packed struct MBR of mbr.hpp and its 512 bytes.
use podumat_os.Prelude.{
  ℕ, zero, suc, ◌+◌, ◌*◌, ◌/◌, ◌^◌, ◌<◌, ◌≡◌, refl, ap, subst, sym, ◌∙◌, List, [], ◌∷◌, ◌++◌, u8,
  length, take-append_self, drop-append_self, drop-drop, take, drop, replicate, arith,
}
use podumat_os.Prelude.Words.{byte_at, word_at}

pub record Partition : Type 0 where
  pub boot_flag : ℕ
  pub chs_start : List ℕ
  pub type : ℕ
  pub chs_end : List ℕ
  pub lba_start : ℕ
  pub sector_count : ℕ

pub record Mbr : Type 0 where
  pub bootstrap : List ℕ
  pub partitions : List Partition
  pub signature : ℕ

abbrev pub empty_partition : Partition
empty_partition = record {
  boot_flag = 0;
  chs_start = 0 ∷ 0 ∷ 0 ∷ [];
  type = 0;
  chs_end = 0 ∷ 0 ∷ 0 ∷ [];
  lba_start = 0;
  sector_count = 0;
}

-- `create_empty`
pub create_empty : Mbr
create_empty = record {
  bootstrap = replicate 446 0;
  partitions = replicate 4 empty_partition;
  signature = 0xAA55;
}

pub word32 : ℕ → List ℕ → List ℕ
word32 n rest = u8 n ∷ u8 (n / 2 ^ 8) ∷ u8 (n / 2 ^ 16) ∷ u8 (n / 2 ^ 24) ∷ rest

pub partition_bytes : Partition → List ℕ → List ℕ
unfolding word32
partition_bytes p rest =
    p.boot_flag
    ∷ (p.chs_start ++ (p.type ∷ (p.chs_end ++ word32 p.lba_start (word32 p.sector_count rest))))

pub partitions_bytes : List Partition → List ℕ → List ℕ
partitions_bytes [] rest = rest
partitions_bytes (p ∷ ps) rest = partition_bytes p (partitions_bytes ps rest)

-- The bytes that `write` hands to the disk.
pub serialize : Mbr → List ℕ
serialize m =
    m.bootstrap ++ partitions_bytes m.partitions (u8 m.signature ∷ u8 (m.signature / 2 ^ 8) ∷ [])

pub read_partition : List ℕ → Partition
read_partition b = record {
  boot_flag = byte_at b 0;
  chs_start = take 3 (drop 1 b);
  type = byte_at b 4;
  chs_end = take 3 (drop 5 b);
  lba_start = word_at b 8;
  sector_count = word_at b 12;
}

pub read_partitions : ℕ → List ℕ → List Partition
read_partitions zero b = []
read_partitions (suc n) b = read_partition b ∷ read_partitions n (drop 16 b)

-- The sector, read as the struct.
pub parse : List ℕ → Mbr
parse b = record {
  bootstrap = take 446 b;
  partitions = read_partitions 4 (drop 446 b);
  signature = let s = drop 64 (drop 446 b) in byte_at s 0 + byte_at s 1 * 2 ^ 8;
}

abbrev pub IsPartition : Partition → Type 0
IsPartition p =
    (length p.chs_start ≡ 3)
    × (length p.chs_end ≡ 3)
    × (p.lba_start < 2 ^ 32)
    × (p.sector_count < 2 ^ 32)

abbrev pub AllPartitions : List Partition → Type 0
AllPartitions [] = Unit {0}
AllPartitions (p ∷ ps) = IsPartition p × AllPartitions ps

-- The fields have the sizes of the struct.
pub record IsMbr (m : Mbr) : Type 0 where
  pub boot : length m.bootstrap ≡ 446
  pub fit : AllPartitions m.partitions
  pub four : length m.partitions ≡ 4
  pub signed : m.signature < 2 ^ 16

three :
    (P : List ℕ → Type 0)
    → ((a b c : ℕ) → P (a ∷ b ∷ c ∷ []))
    → (xs : List ℕ) → length xs ≡ 3
    → P xs
three P h [] e = absurd (omega arith)
three P h (a ∷ []) e = absurd (omega arith)
three P h (a ∷ b ∷ []) e = absurd (omega arith)
three P h (a ∷ b ∷ c ∷ []) e = h a b c
three P h (a ∷ b ∷ c ∷ d ∷ more) e = absurd (omega arith)

word :
    (n : ℕ)
    → n < 2 ^ 32
    → u8 n + u8 (n / 2 ^ 8) * 2 ^ 8 + u8 (n / 2 ^ 16) * 2 ^ 16 + u8 (n / 2 ^ 24) * 2 ^ 24 ≡ n
word n h = omega arith

abbrev Back : Partition → List ℕ → Type 0
Back p rest =
    (read_partition (partition_bytes p rest) ≡ p) × (drop 16 (partition_bytes p rest) ≡ rest)

entry-Back : (p : Partition) (rest : List ℕ) → IsPartition p → Back p rest
unfolding read_partition partition_bytes word_at
entry-Back p rest v =
    three (λ xs. Back (record p { chs_start = xs }) rest)
      (λ a b c.
        three (λ ys. Back (record p { chs_start = a ∷ b ∷ c ∷ []; chs_end = ys }) rest)
          (λ d e f. rw (word p.lba_start v.2, word p.sector_count v.3) (refl, refl)) p.chs_end v.1)
      p.chs_start v.0

abbrev skip : ℕ → List ℕ → List ℕ
skip zero b = b
skip (suc n) b = skip n (drop 16 b)

entries_back :
    (ps : List Partition) (rest : List ℕ)
    → AllPartitions ps
    → (read_partitions (length ps) (partitions_bytes ps rest) ≡ ps)
      × (skip (length ps) (partitions_bytes ps rest) ≡ rest)
unfolding read_partitions partitions_bytes
entries_back [] rest v = (refl, refl)
entries_back (p ∷ ps) rest v =
    let (first, behind) = entry-Back p (partitions_bytes ps rest) v.0 in
    let (others, last) = entries_back ps rest v.1 in
    (simp (first, behind, others) refl, ap (λ b. skip (length ps) b) behind ∙ last)

skip_four : (b : List ℕ) → skip 4 b ≡ drop 64 b
skip_four b = simp drop-drop refl

-- A partition table whose fields have their sizes is read back from its bytes as it was.
pub parse-serialize_all : (m : Mbr) → IsMbr m → parse (serialize m) ≡ m
unfolding parse serialize
parse-serialize_all m v =
    let tail = u8 m.signature ∷ u8 (m.signature / 2 ^ 8) ∷ [] in
    let (table, last) = entries_back m.partitions tail v.fit in
    let back =
      subst (λ n. read_partitions n (partitions_bytes m.partitions tail) ≡ m.partitions) v.four
        table in
    let end : drop 64 (partitions_bytes m.partitions tail) ≡ tail =
      sym (skip_four (partitions_bytes m.partitions tail))
      ∙ subst (λ n. skip n (partitions_bytes m.partitions tail) ≡ tail) v.four last in
    let sign : u8 m.signature + u8 (m.signature / 2 ^ 8) * 2 ^ 8 ≡ m.signature =
      omega (arith, v.signed) in
    simp
      (
        take-append_self m.bootstrap (partitions_bytes m.partitions tail) 446 v.boot,
        drop-append_self m.bootstrap (partitions_bytes m.partitions tail) 446 v.boot,
        back,
        end,
        sign,
      )
      refl
