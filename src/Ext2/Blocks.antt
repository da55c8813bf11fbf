-- ===== src/Ext2/Blocks.antt =====
-- What read_block puts into its buffer, on a disk without faults.
use podumat_os.Prelude.{
  ℕ, zero, suc, ◌+◌, ◌-◌, ◌*◌, ◌/◌, ◌%◌, ◌^◌, ◌≤◌, ◌<◌, ◌≡◌, refl, inl, inr, ap, ap₂, sym, subst,
  ◌∙◌, Bool, true, List, ltb, length, Bool-cases, arith, u32,
}
use podumat_os.Prelude.Words.{byte_at, put_bytes}
use podumat_os.Prelude.Splice.{length-put_bytes, byte_at-put_bytes_before, byte_at-put_bytes_self}
use podumat_os.Disk.{Device, IsReliable}
use podumat_os.Ext2.{read_next, read_loop}

module _ (D : Device) where
  -- Byte `j` of the medium from sector `lba` on.
  abbrev pub disk_byte : D.State → (lba j : ℕ) → ℕ
  disk_byte s lba j = byte_at (D.content s (lba + j / 512)) (j % 512)

  -- The sectors of the disk hold 512 bytes.
  pub record IsSectored (s : D.State) : Type 0 where
    pub sector_length : (l : ℕ) → length (D.content s l) ≡ 512

  -- The same medium.
  pub record SameDisk (s t : D.State) : Type 0 where
    pub content : (l : ℕ) → D.content t l ≡ D.content s l
    pub sectors : D.sectors t ≡ D.sectors s

  pub SameDisk-refl : (s : D.State) → SameDisk s s
  SameDisk-refl s = record { content = λ l. refl; sectors = refl }

  pub SameDisk-trans : (s t u : D.State) → SameDisk s t → SameDisk t u → SameDisk s u
  SameDisk-trans s t u a b = record {
    content = λ l. b.content l ∙ a.content l;
    sectors = b.sectors ∙ a.sectors;
  }

  pub read_sector-SameDisk : (l : ℕ) (s : D.State) → SameDisk s (D.read_sector l s).1
  read_sector-SameDisk l s = record { content = D.read_content l s; sectors = D.read_sectors l s }

  pub IsSectored-SameDisk : (s t : D.State) → SameDisk s t → IsSectored s → IsSectored t
  IsSectored-SameDisk s t same h = record {
    sector_length = λ l. ap length (same.content l) ∙ h.sector_length l;
  }

  -- The buffer holds the sectors `k` to `k + left` of `lba`, and elsewhere its old bytes.
  pub record Loaded (left k lba : ℕ) (buf : List ℕ) (s : D.State) (o : (Bool × List ℕ) × D.State)
      : Type 0 where
    pub read : o.0.0 ≡ true
    pub size : length o.0.1 ≡ length buf
    pub inside : (j : ℕ) → k * 512 ≤ j → j < (k + left) * 512 → byte_at o.0.1 j ≡ disk_byte s lba j
    pub outside : (j : ℕ) → j < k * 512 → byte_at o.0.1 j ≡ byte_at buf j
    pub disk : SameDisk s o.1

  module _ (R : IsReliable D) where
    pub read_loop-Loaded :
        (left k lba : ℕ) (buf : List ℕ) (s : D.State)
        → IsSectored s
        → lba + k + left ≤ D.sectors s
        → D.sectors s ≤ 2 ^ 32
        → (k + left) * 512 ≤ length buf
        → Loaded left k lba buf s (read_loop D left k lba buf s)
    unfolding read_loop
    read_loop-Loaded zero k lba buf s whole fits small room = record {
      read = refl;
      size = refl;
      inside = λ j lo hi. absurd (omega (arith, lo, hi));
      outside = λ j h. refl;
      disk = SameDisk-refl s;
    }
    read_loop-Loaded (suc left) k lba buf s whole fits small room =
        let place : u32 (lba + k) ≡ lba + k = omega (arith, fits, small) in
        let b : List ℕ = D.content s (lba + k) in
        let t : D.State = (D.read_sector (lba + k) s).1 in
        let same : SameDisk s t = read_sector-SameDisk (lba + k) s in
        let full : length b ≡ 512 = whole.sector_length (lba + k) in
        let within : k * 512 + length b ≤ length buf = omega (arith, full, room) in
        let kept : length (put_bytes buf (k * 512) b) ≡ length buf =
          length-put_bytes buf (k * 512) b within in
        let more : Loaded left (k + 1) lba (put_bytes buf (k * 512) b) t
            (read_loop D left (k + 1) lba (put_bytes buf (k * 512) b) t) =
          read_loop-Loaded left (k + 1) lba (put_bytes buf (k * 512) b) t
            (IsSectored-SameDisk s t same whole) (omega (arith, same.sectors, fits))
            (omega (arith, same.sectors, small)) (omega (arith, kept, room)) in
        let step : read_loop D (suc left) k lba buf s
            ≡ read_loop D left (k + 1) lba (put_bytes buf (k * 512) b) t =
          ap
            (λ l.
              read_next D buf (λ c u. read_loop D left (k + 1) lba (put_bytes buf (k * 512) c) u)
                (D.read_sector l s))
            place
          ∙ ap
              (λ o.
                read_next D buf (λ c u. read_loop D left (k + 1) lba (put_bytes buf (k * 512) c) u)
                  (o, t))
              (R.reads (lba + k) s (omega (arith, fits))) in
        subst (Loaded (suc left) k lba buf s) (sym step) (record {
          read = more.read;
          size = more.size ∙ kept;
          inside = λ j lo hi. elim (Bool-cases (ltb j ((k + 1) * 512))) [
            | inl now ↦
                let i : ℕ = j - k * 512 in
                let at : k * 512 + i ≡ j = omega (arith, lo) in
                let short : i < 512 = ground (arith, now, lo) in
                let sector : k ≡ j / 512 = omega (arith, at, short) in
                let byte : i ≡ j % 512 = omega (arith, at, short) in
                more.outside j (ground (arith, now))
                ∙ ap (byte_at (put_bytes buf (k * 512) b)) (sym at)
                ∙ byte_at-put_bytes_self buf (k * 512) b within i (omega (arith, short, full))
                ∙ ap₂ (λ x y. byte_at (D.content s (lba + x)) y) sector byte
            | inr later ↦
                more.inside j (ground (arith, later)) (omega (arith, hi))
                ∙ ap (λ c. byte_at c (j % 512)) (same.content (lba + j / 512))
          ];
          outside = λ j h.
              more.outside j (omega (arith, h))
              ∙ byte_at-put_bytes_before buf (k * 512) b within j h;
          disk = SameDisk-trans s t _ same more.disk;
        })
