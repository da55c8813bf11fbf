-- ===== src/Fat32/Mount.antt =====
-- mount: what it takes from the boot sector, and where the clusters of a mounted volume lie.
use native.Mathlib.Nat.{mul-le-mul_right, div-mul-le_self, div-le_self}
use podumat_os.Prelude.{
  ℕ, ◌+◌, ◌-◌, ◌*◌, ◌/◌, ◌^◌, ◌≤◌, ◌<◌, ◌≡◌, refl, inl, inr, List, Option, none, some, ◌==◌,
  Bool-cases, arith, ap, subst, ◌∙◌, u32,
}
use podumat_os.Disk.{Device}
use podumat_os.Fat32.{
  Bpb, Fs, Mounting, refused, divides_by_zero, mounts, mountable, mounted_fs, overhead, read_bpb,
  mount_sector, mount, cluster_to_lba,
}

-- A boot sector whose tables fit in the partition that it stands in, on a disk of 2 ^ 32 sectors.
pub record IsBoot (lba : ℕ) (b : Bpb) : Type 0 where
  pub room : b.reserved_sectors + b.num_fats * b.fat_size_32 ≤ b.total_sectors_32
  pub inside : lba + b.total_sectors_32 < 2 ^ 32
  pub some_sectors : 0 < b.sectors_per_cluster

-- For a boot sector whose tables fit in its partition, within 2 ^ 32 sectors, and with sectors in
-- a cluster: cluster `c` of the volume starts `c - 2` clusters behind the tables, and ends within
-- the partition.
pub mounted_fs_clusters :
    (lba letter : ℕ) (b : Bpb) (c : ℕ)
    → IsBoot lba b
    → 2 ≤ c
    → c < (mounted_fs lba letter b).total_clusters + 2
    → let fs = mounted_fs lba letter b in
      (cluster_to_lba fs c ≡ fs.data_start + (c - 2) * b.sectors_per_cluster)
      × (lba + b.reserved_sectors + b.num_fats * b.fat_size_32 ≡ fs.data_start)
      × (cluster_to_lba fs c + b.sectors_per_cluster ≤ lba + b.total_sectors_32)
unfolding mounted_fs cluster_to_lba
mounted_fs_clusters lba letter b c v lo hi =
    let sectors = u32 (b.total_sectors_32 + 2 ^ 32 - overhead b) in
    let tables = b.num_fats * b.fat_size_32 in
    let exact : sectors ≡ b.total_sectors_32 - (b.reserved_sectors + tables) =
      omega (arith, v.room, v.inside) in
    let index : c - 2 + 1 ≤ sectors / b.sectors_per_cluster = omega (arith, lo, hi) in
    let few = div-le_self sectors b.sectors_per_cluster in
    let wrapped : u32 (c + 2 ^ 32 - 2) ≡ c - 2 = omega (arith, lo, index, few, exact, v.inside) in
    let fit : (c - 2) * b.sectors_per_cluster + b.sectors_per_cluster ≤ sectors = omega (
      arith,
      mul-le-mul_right b.sectors_per_cluster index,
      div-mul-le_self sectors b.sectors_per_cluster,
    ) in
    let start : lba + b.reserved_sectors + tables ≡ (mounted_fs lba letter b).data_start =
      omega (arith, v.room, v.inside) in
    let place : cluster_to_lba (mounted_fs lba letter b) c
        ≡ (mounted_fs lba letter b).data_start + (c - 2) * b.sectors_per_cluster =
      ap (λ k. u32 ((mounted_fs lba letter b).data_start + u32 (k * b.sectors_per_cluster))) wrapped
      ∙ omega (arith, fit, exact, v.room, v.inside, start) in
    (place, start, omega (arith, place, start, fit, exact, v.room))

-- The tests that a boot sector passes.
abbrev pub IsMountable : Bpb → Type 0
IsMountable b =
    (b.bytes_per_sector ≡ 512)
    × (b.fat_size_16 ≡ 0)
    × (0 < b.fat_size_32)
    × (0 < b.sectors_per_cluster)

abbrev fs_of : Mounting → Fs → Fs
fs_of refused other = other
fs_of divides_by_zero other = other
fs_of (mounts fs) other = fs

from_sector :
    (lba letter : ℕ) (b : Bpb) (fs : Fs)
    → mount_sector lba letter b ≡ mounts fs
    → IsMountable b × (mounted_fs lba letter b ≡ fs)
unfolding mount_sector mountable
from_sector lba letter b fs h = elim (Bool-cases (mountable b)) [
  | inl fine ↦ elim (Bool-cases (b.sectors_per_cluster == 0)) [
    | inl zero_sectors ↦ absurd (cc (simp (fine, zero_sectors) at h))
    | inr some_sectors ↦ (
      (
        ground (arith, fine),
        ground (arith, fine),
        ground (arith, fine),
        ground (arith, some_sectors),
      ),
      ap (λ m. fs_of m fs) (simp (fine, some_sectors) at h),
    )
  ]
  | inr bad ↦ absurd (cc (simp bad at h))
]

-- If `mount` mounts a volume as `fs`, the boot sector on the medium passes the tests and has
-- sectors in a cluster, and `fs` is what follows from that sector.
pub mount_lem :
    (D : Device) (lba letter : ℕ) (s : D.State) (fs : Fs)
    → (mount D lba letter s).0 ≡ mounts fs
    → IsMountable (read_bpb (D.content s lba))
      × (mounted_fs lba letter (read_bpb (D.content s lba)) ≡ fs)
unfolding mount
mount_lem D lba letter s fs h = from (D.read_sector lba s).0 refl h
  where
    from :
        (o : Option (List ℕ))
        → (D.read_sector lba s).0 ≡ o
        → elim o [ none ↦ refused | some b ↦ mount_sector lba letter (read_bpb b) ] ≡ mounts fs
        → IsMountable (read_bpb (D.content s lba))
          × (mounted_fs lba letter (read_bpb (D.content s lba)) ≡ fs)
    from none e k = absurd (cc k)
    from (some b) e k =
        subst (λ x. IsMountable (read_bpb x) × (mounted_fs lba letter (read_bpb x) ≡ fs))
          (D.read_some lba s b e) (from_sector lba letter (read_bpb b) fs k)
