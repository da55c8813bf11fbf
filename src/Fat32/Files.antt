-- ===== src/Fat32/Files.antt =====
-- find_entry, create_file_entry, and the calls on files and directories. A path is the list of its
-- bytes without the terminator; the data of a file is the list of its bytes.
use podumat_os.Prelude.{
  ℕ, zero, suc, ◌+◌, ◌*◌, ◌/◌, ◌%◌, ◌^◌, Bool, false, ◌||◌, Option, none, some, List, [], ◌∷◌, ◌++◌,
  ◌==◌, if◌then◌else◌, u32, replicate, take, drop,
}
use podumat_os.Prelude.Words.{word_at}
use podumat_os.Disk.{Device}
use podumat_os.Fat32.{
  Fs, half_at, cluster_to_lba, follows, end_mark, next_cluster, set_cluster, alloc_cluster,
}
use podumat_os.Fat32.Names.{name_to_83}
use podumat_os.Fat32.Directory.{Search, ended, passed, found, entry_byte, scan_entries}

-- How a call ends: with a result, with a write behind the end of its buffer of 4096 bytes, or not
-- within the fuel.
pub data Ending (A S : Type 0) : Type 0 where
  finished : A → S → Ending A S
  overruns unfinished : Ending A S

abbrev pub continue : {A B S : Type 0} → Ending A S → (A → S → Ending B S) → Ending B S
continue (finished a s) f = f a s
continue overruns f = overruns
continue unfinished f = unfinished

-- Where an entry stands: its sector as it was read, and its index.
pub record Place : Type 0 where
  pub bytes : List ℕ
  pub sector : ℕ
  pub index : ℕ

-- `(cluster_high << 16) | cluster_low`
unfoldable pub entry_cluster : Place → ℕ
unfolding half_at
entry_cluster p = half_at p.bytes (p.index * 32 + 20) * 2 ^ 16 + half_at p.bytes (p.index * 32 + 26)

abbrev pub entry_size : Place → ℕ
entry_size p = word_at p.bytes (p.index * 32 + 28)

-- `attr & ATTR_DIRECTORY`
abbrev pub is_directory : Place → Bool
is_directory p = entry_byte p.bytes p.index 11 / 16 % 2 == 1

-- What the sectors of one cluster hold of a name: the directory ends or cannot be read, the entry, or
-- nothing.
pub data Looked : Type 0 where
  missing onward : Looked
  here : Place → Looked

-- The first entry of a sector that is free or behind the last one.
pub first_free : (left i : ℕ) → List ℕ → Option ℕ
first_free zero i b = none
first_free (suc left) i b =
    let rest = first_free left (i + 1) b in
    if entry_byte b i 0 == 0x00 || entry_byte b i 0 == 0xE5 then some i else rest

abbrev pub half_bytes : ℕ → List ℕ
half_bytes v = v % 256 ∷ v / 256 % 256 ∷ []

-- An entry for a file of no bytes.
unfoldable pub new_entry : List ℕ → (attr cluster : ℕ) → List ℕ
new_entry name83 attr cluster =
    name83
    ++ (attr ∷ replicate 8 0)
    ++ half_bytes (cluster / 2 ^ 16)
    ++ replicate 4 0
    ++ half_bytes cluster
    ++ replicate 4 0

-- The sector with the entry `e` at `i`.
abbrev pub put_entry : List ℕ → ℕ → List ℕ → List ℕ
put_entry b i e = take (i * 32) b ++ e ++ drop (i * 32 + 32) b

module _ (D : Device) (fs : Fs) where
  unfoldable pub looked_at :
      (sector : ℕ) → List ℕ → Looked × D.State → D.State → Search → Looked × D.State
  looked_at sector b rest s ended = (missing, s)
  looked_at sector b rest s passed = rest
  looked_at sector b rest s (found i) = (here (record { bytes = b; sector = sector; index = i }), s)

  unfoldable pub looked_got :
      (sector : ℕ) → List ℕ → Looked × D.State → Option (List ℕ) × D.State → Looked × D.State
  looked_got sector name83 rest (none, s) = (missing, s)
  looked_got sector name83 rest (some b, s) = looked_at sector b rest s (scan_entries 16 0 b name83)

  -- The sectors of a cluster from `k` on.
  unfoldable pub look_in : (left k lba : ℕ) → List ℕ → D.State → Looked × D.State
  look_in zero k lba name83 s = (onward, s)
  look_in (suc left) k lba name83 s =
      let got = D.read_sector (u32 (lba + k)) s in
      looked_got (u32 (lba + k)) name83 (look_in left (k + 1) lba name83 got.1) got

  abbrev pub looked_on :
      Looked × D.State → Ending (Option Place) D.State → Ending (Option Place) D.State
  looked_on (missing, s) rest = finished none s
  looked_on (here p, s) rest = finished (some p) s
  looked_on (onward, s) rest = rest

  unfoldable pub find_chain : (fuel : ℕ) → List ℕ → ℕ → D.State → Ending (Option Place) D.State
  find_chain zero name83 cluster s = unfinished
  find_chain (suc fuel) name83 cluster s =
      let looked = look_in fs.bpb.sectors_per_cluster 0 (cluster_to_lba fs cluster) name83 s in
      let (next, s') = next_cluster D fs cluster looked.1 in
      let rest = find_chain fuel name83 next s' in
      if follows cluster then looked_on looked rest else finished none s

  unfoldable pub find_entry : (fuel dir : ℕ) → List ℕ → D.State → Ending (Option Place) D.State
  find_entry fuel dir name s = find_chain fuel (name_to_83 name) dir s

  -- The loop over the sectors of a cluster in create_file_entry: `none` if no entry is free.
  unfoldable pub place_in : (left k lba : ℕ) → List ℕ → D.State → Option Bool × D.State
  place_in zero k lba e s = (none, s)
  place_in (suc left) k lba e s =
      let (got, s') = D.read_sector (u32 (lba + k)) s in
      let rest = place_in left (k + 1) lba e s' in
      elim got [
        | none ↦ (some false, s')
        | some b ↦ elim (first_free 16 0 b) [
          | none ↦ rest
          | some i ↦
              let (done, t) = D.write_sector (u32 (lba + k)) (put_entry b i e) s' in (some done, t)
        ]
      ]

  -- The next cluster of the directory, a new one at its end; 0 if there is none.
  unfoldable pub next_or_new : (cluster next : ℕ) → D.State → ℕ × D.State
  next_or_new cluster next s =
      let (new, s') = alloc_cluster D fs s in
      if follows next
      then (next, s)
      else if new == 0
      then (0, s')
      else (new, (set_cluster D fs new end_mark (set_cluster D fs cluster new s').1).1)

  unfoldable pub create_chain : (fuel : ℕ) → List ℕ → ℕ → D.State → Ending Bool D.State
  create_chain zero e cluster s = unfinished
  create_chain (suc fuel) e cluster s =
      let (placed, s1) = place_in fs.bpb.sectors_per_cluster 0 (cluster_to_lba fs cluster) e s in
      let (next, s2) = next_cluster D fs cluster s1 in
      let (to, s3) = next_or_new cluster next s2 in
      let rest = create_chain fuel e to s3 in
      let on = (if to == 0 then finished false s3 else rest) in
      if follows cluster
      then (elim placed [ none ↦ on | some done ↦ finished done s1 ])
      else finished false s

  unfoldable pub create_file_entry :
      (fuel dir : ℕ) → List ℕ → (attr first : ℕ) → D.State → Ending Bool D.State
  create_file_entry fuel dir name attr first s =
      create_chain fuel (new_entry (name_to_83 name) attr first) dir s
