-- ===== src/MountConfig/Persist.antt =====
-- Saving and loading: what a boot finds of what was saved, and what it refuses.
use podumat_os.Prelude.{
  ℕ, ◌*◌, ◌^◌, ◌≤◌, ◌<◌, ◌≡◌, refl, inl, inr, Bool, true, false, List, [], ◌∷◌, Option, none, some,
  ==_iff, Bool-cases, arith, ap, ◌∙◌, sym, u32, bit_xor,
}
use podumat_os.Disk.{Device}
use podumat_os.MountConfig.Layout.{
  DiskLayout, body, serialize, parse, parse-four, IsLayout, parse-serialize,
}
use podumat_os.MountConfig.{
  checksum_loop, compute_checksum, acceptable, stamped, reset_layout, zeroed, add_entry, config_lba,
  Mounts, reset, take_sector, load, save, ensure, add,
}
use podumat_os.MountConfig.Edit.{
  live, IsConfig, put_entry, live-add_entry, add_entry-IsConfig, add_entry-IsLayout,
}

checksum_loop-lt : (sum : ℕ) (bytes : List ℕ) → sum < 2 ^ 32 → checksum_loop sum bytes < 2 ^ 32
unfolding checksum_loop
checksum_loop-lt sum [] h = h
checksum_loop-lt sum (b ∷ bytes) h =
    checksum_loop-lt (u32 (bit_xor sum b * 16777619)) bytes (omega arith)

compute_checksum-lt : (c : DiskLayout) → compute_checksum c < 2 ^ 32
unfolding compute_checksum
compute_checksum-lt c = checksum_loop-lt 0x811C9DC5 (body c []) (omega arith)

stamped-IsLayout : (c : DiskLayout) → IsLayout c → IsLayout (stamped c)
unfolding stamped
stamped-IsLayout c v = record {
  magic_fits = omega arith;
  version_fits = omega arith;
  count_fits = v.count_fits;
  reserved_fits = v.reserved_fits;
  entries_fit = v.entries_fit;
  four = v.four;
  padded = v.padded;
  checksum_fits = compute_checksum-lt _;
}

-- What `save` writes passes the tests of `load`.
acceptable-stamped : (c : DiskLayout) → c.count ≤ 4 → acceptable (stamped c) ≡ true
unfolding acceptable stamped
acceptable-stamped c h =
    ground (arith, (==_iff (compute_checksum (stamped c)) (compute_checksum (stamped c))).1 refl)

few_entries : (c : DiskLayout) → acceptable c ≡ true → c.count ≤ 4
unfolding acceptable
few_entries c ok = ground (arith, ok)

module _ (D : Device) where
  -- `load` on a sector that it accepts.
  accepts :
      (m : Mounts D) (sector : List ℕ) (s : D.State)
      → acceptable (parse sector) ≡ true
      → (take_sector D m (some sector, s)).1.cfg ≡ record (parse sector) { checksum = 0 }
  unfolding take_sector
  accepts m sector s h = simp h refl

  loads :
      (m : Mounts D) (sector : List ℕ)
      → m.loaded ≡ false
      → D.present m.disk ≡ true
      → (D.read_sector config_lba m.disk).0 ≡ some sector
      → acceptable (parse sector) ≡ true
      → (load D m).1.cfg ≡ record (parse sector) { checksum = 0 }
  unfolding load
  loads m sector fresh there r ok =
      simp (fresh, there)
        (ap (λ o. (take_sector D m (o, (D.read_sector config_lba m.disk).1)).1.cfg) r
          ∙ accepts m sector (D.read_sector config_lba m.disk).1 ok)

  -- What a save that succeeds leaves in the sector.
  saved :
      (m : Mounts D)
      → (save D m).0 ≡ true
      → D.content (save D m).1.disk config_lba ≡ serialize (stamped m.cfg)
  unfolding save
  saved m h = elim (Bool-cases (D.present m.disk)) [
    | inl there ↦
        simp there (D.write_true config_lba (serialize (stamped m.cfg)) m.disk (simp there at h))
    | inr gone ↦ absurd (cc (simp gone at h))
  ]

  -- For a layout whose fields fit their types, with at most four entries: after a save that
  -- succeeds, a boot that can read the sector loads the same table, stamped as `save` stamps it,
  -- with the checksum cleared.
  pub load-save :
      (m n : Mounts D) (sector : List ℕ)
      → IsLayout m.cfg
      → m.cfg.count ≤ 4
      → (save D m).0 ≡ true
      → n.loaded ≡ false
      → n.disk ≡ (save D m).1.disk
      → D.present n.disk ≡ true
      → (D.read_sector config_lba n.disk).0 ≡ some sector
      → (load D n).1.cfg ≡ record (stamped m.cfg) { checksum = 0 }
  load-save m n sector v few done fresh same there r =
      let bytes : sector ≡ serialize (stamped m.cfg) =
        D.read_some config_lba n.disk sector r
        ∙ ap (λ s. D.content s config_lba) same
        ∙ saved m done in
      let back : parse sector ≡ stamped m.cfg =
        ap parse bytes ∙ parse-serialize (stamped m.cfg) (stamped-IsLayout m.cfg v) in
      loads n sector fresh there r (ap acceptable back ∙ acceptable-stamped m.cfg few)
      ∙ ap (λ (c : DiskLayout). record c { checksum = 0 }) back

  reset_layout-IsConfig : IsConfig reset_layout
  unfolding reset_layout zeroed
  reset_layout-IsConfig = record { bounded = omega arith; four = refl }

  take_sector-IsConfig :
      (m : Mounts D) (o : Option (List ℕ)) (s : D.State) → IsConfig (take_sector D m (o, s)).1.cfg
  unfolding take_sector reset
  take_sector-IsConfig m none s = reset_layout-IsConfig
  take_sector-IsConfig m (some sector) s = elim (Bool-cases (acceptable (parse sector))) [
    | inl ok ↦
        simp ok (record { bounded = few_entries (parse sector) ok; four = parse-four sector })
    | inr bad ↦ simp bad reset_layout-IsConfig
  ]

  -- Whatever the sector holds, a first `load` ends with four entries, at most four of them in use.
  pub load-IsConfig : (m : Mounts D) → m.loaded ≡ false → IsConfig (load D m).1.cfg
  unfolding load reset
  load-IsConfig m fresh = elim (Bool-cases (D.present m.disk)) [
    | inl there ↦
        simp (fresh, there)
          (take_sector-IsConfig m (D.read_sector config_lba m.disk).0
            (D.read_sector config_lba m.disk).1)
    | inr gone ↦ simp (fresh, gone) reset_layout-IsConfig
  ]

  save_table : (m : Mounts D) → live (save D m).1.cfg ≡ live m.cfg
  unfolding save stamped
  save_table m = elim (Bool-cases (D.present m.disk)) [
    | inl there ↦ simp there refl
    | inr gone ↦ simp gone refl
  ]

  module _ (letter fs_type part_num lba : ℕ) (m : Mounts D) (opened : m.loaded ≡ true)
      (v : IsConfig m.cfg) where
    adds_to :
        add D letter fs_type part_num lba m
        ≡ save D (record m { cfg = add_entry letter fs_type part_num lba m.cfg })
    unfolding add ensure
    adds_to = simp opened refl

    -- On a loaded, well-formed table `add` leaves in use what `put_entry` says, also where the disk
    -- is absent or refuses the write.
    pub live-add :
        live (add D letter fs_type part_num lba m).1.cfg
        ≡ put_entry letter fs_type part_num lba (live m.cfg)
    live-add =
        ap (λ (r : Bool × Mounts D). live r.1.cfg) adds_to
        ∙ save_table (record m { cfg = add_entry letter fs_type part_num lba m.cfg })
        ∙ live-add_entry letter fs_type part_num lba m.cfg v

    -- On a loaded, well-formed table whose fields, and the new entry's, fit their types: if `add`
    -- reports success, the next boot that can read the sector finds in use exactly what
    -- `put_entry` says.
    pub load-add :
        (n : Mounts D) (sector : List ℕ)
        → letter < 256
        → fs_type < 256
        → part_num < 256
        → lba < 2 ^ 32
        → IsLayout m.cfg
        → (add D letter fs_type part_num lba m).0 ≡ true
        → n.loaded ≡ false
        → n.disk ≡ (add D letter fs_type part_num lba m).1.disk
        → D.present n.disk ≡ true
        → (D.read_sector config_lba n.disk).0 ≡ some sector
        → live (load D n).1.cfg ≡ put_entry letter fs_type part_num lba (live m.cfg)
    unfolding stamped
    load-add n sector hl hf hp hb w done fresh same there r =
        ap live (
          load-save (record m { cfg = add_entry letter fs_type part_num lba m.cfg }) n sector
            (add_entry-IsLayout letter fs_type part_num lba m.cfg v hl hf hp hb w)
            (add_entry-IsConfig letter fs_type part_num lba m.cfg v).bounded
            (ap (λ (r : Bool × Mounts D). r.0) (sym adds_to) ∙ done) fresh
            (same ∙ ap (λ (r : Bool × Mounts D). r.1.disk) adds_to) there r)
        ∙ live-add_entry letter fs_type part_num lba m.cfg v
