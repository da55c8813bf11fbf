-- ===== src/Ext2/Frames.antt =====
-- Directory blocks that agree on the bytes of an entry agree on its tests.
use podumat_os.Prelude.{
  ℕ, suc, ◌+◌, ◌-◌, ◌*◌, ◌≤◌, ◌<◌, ◌≡◌, ◌⊎◌, refl, ap, ap₂, sym, ◌∙◌, inl, inr, true, false, ◌||◌,
  List, [], ◌∷◌, ◌++◌, ltb, ◌==◌, u8, length, length-append, length-replicate, get_or-append_left,
  replicate, Bool-cases, ==_iff, arith, ◌^◌, ◌/◌,
}
use podumat_os.Prelude.Words.{byte_at, word_at, short_at, put_bytes, slice}
use podumat_os.Prelude.Splice.{
  length-take, length-drop, byte_at-slice, byte_at-put_bytes_self, length-put_bytes,
  get_or-append_right,
}
use podumat_os.Ext2.Entries.{
  stops, same_bytes, has_name, dir_entry, de_inode, de_rec_len, de_name_len, de_file_type,
}

ext :
    (xs ys : List ℕ)
    → length xs ≡ length ys
    → ((i : ℕ) → i < length xs → byte_at xs i ≡ byte_at ys i)
    → xs ≡ ys
ext [] [] l same = refl
ext [] (y ∷ ys) l same = absurd (omega (arith, l))
ext (x ∷ xs) [] l same = absurd (omega (arith, l))
ext (x ∷ xs) (y ∷ ys) l same =
    ap₂ (λ z zs. z ∷ zs) (same 0 (omega arith))
      (ext xs ys (omega (arith, l)) (λ i h. same (suc i) (omega (arith, h))))

length-slice : (b : List ℕ) (off n : ℕ) → off + n ≤ length b → length (slice b off n) ≡ n
unfolding slice
length-slice b off n h = length-take n _ (omega (arith, h, length-drop off b))

same_bytes_refl : (xs : List ℕ) → same_bytes xs xs ≡ true
unfolding same_bytes
same_bytes_refl [] = refl
same_bytes_refl (x ∷ xs) = ground (arith, same_bytes_refl xs)

-- `c` has the bytes of `b` up to `lo`, but for the two at `gap`.
module _ (b c : List ℕ) (long : length c ≡ length b) (lo gap : ℕ)
    (same : (j : ℕ) → j < lo → (j < gap) ⊎ (gap + 2 ≤ j) → byte_at c j ≡ byte_at b j) where
  pub rec_len_frame : (y : ℕ) → y + 8 ≤ lo → lo ≤ gap → de_rec_len c y ≡ de_rec_len b y
  unfolding short_at
  rec_len_frame y h g =
      ap₂ (λ m n. m + n * 2 ^ 8) (same (y + 4) (omega (arith, h)) (omega (arith, h, g)))
        (same (y + 4 + 1) (omega (arith, h)) (omega (arith, h, g)))

  pub stops_frame : (size y : ℕ) → y + 8 ≤ lo → lo ≤ gap → stops size c y ≡ stops size b y
  unfolding stops
  stops_frame size y h g =
      ap (λ r. ltb size (y + 8) || (ltb r 8 || ltb size (y + r))) (rec_len_frame y h g)

  inode_frame : (y : ℕ) → y + 4 ≤ lo → y + 4 ≤ gap → de_inode c y ≡ de_inode b y
  unfolding word_at
  inode_frame y h g =
      ap₂ (λ m n. m + n)
        (ap₂ (λ m n. m + n)
          (ap₂ (λ m n. m + n * 2 ^ 8) (same y (omega (arith, h)) (omega (arith, g)))
            (same (y + 1) (omega (arith, h)) (omega (arith, g))))
          (ap (λ n. n * 2 ^ 16) (same (y + 2) (omega (arith, h)) (omega (arith, g)))))
        (ap (λ n. n * 2 ^ 24) (same (y + 3) (omega (arith, h)) (omega (arith, g))))

  slice_frame :
      (off n : ℕ)
      → off + n ≤ lo
      → lo ≤ length b
      → (gap + 2 ≤ off) ⊎ (lo ≤ gap)
      → slice c off n ≡ slice b off n
  slice_frame off n h within g =
      let len_c : length (slice c off n) ≡ n =
        length-slice c off n (omega (arith, h, within, long)) in
      let len_b : length (slice b off n) ≡ n = length-slice b off n (omega (arith, h, within)) in
      ext (slice c off n) (slice b off n) (len_c ∙ sym len_b) (λ i small.
        let short : i < n = omega (arith, small, len_c) in
        byte_at-slice c off n i short
        ∙ same (off + i) (omega (arith, h, short)) (omega (arith, g, h, short))
        ∙ sym (byte_at-slice b off n i short))

  -- The gap is the entry's own length, or lies behind.
  pub has_name_frame :
      (name : List ℕ) (y : ℕ)
      → y + 8 + de_name_len b y ≤ lo
      → lo ≤ length b
      → (gap ≡ y + 4) ⊎ (lo ≤ gap)
      → has_name name c y ≡ has_name name b y
  unfolding has_name
  has_name_frame name y h within g =
      let inode = inode_frame y (omega (arith, h)) (omega (arith, h, g)) in
      let len : de_name_len c y ≡ de_name_len b y =
        same (y + 6) (omega (arith, h)) (omega (arith, h, g)) in
      elim (Bool-cases (de_name_len b y == length name)) [
        | inl e ↦
            let n : de_name_len b y ≡ length name = (==_iff _ _).0 e in
            simp
              (
                inode,
                len,
                slice_frame (y + 8) (length name) (omega (arith, h, n)) within
                    (omega (arith, g, h)),
              )
              refl
        | inr e ↦ simp (inode, len, e) refl
      ]

-- The entry that `dir_entry` makes, copied into a block at `x`.
module _ (c : List ℕ) (x size inode rec type : ℕ) (name : List ℕ) (fits : x + rec ≤ size)
    (room : size ≤ length c) (short : size < 2 ^ 16) (long : 8 + length name ≤ rec)
    (few : length name < 256) where
  pub length-dir_entry : length (dir_entry inode rec name type) ≡ rec
  unfolding dir_entry
  length-dir_entry = omega (
    arith,
    length-append name (replicate {A = ℕ} (rec - (8 + length name)) 0),
    length-replicate {A = ℕ} (rec - (8 + length name)) 0,
    long,
  )

  pub inside : x + length (dir_entry inode rec name type) ≤ length c
  inside = omega (arith, length-dir_entry, fits, room)

  abbrev made : List ℕ
  made = put_bytes c x (dir_entry inode rec name type)

  byte_at-made :
      (j : ℕ) → j < rec → byte_at made (x + j) ≡ byte_at (dir_entry inode rec name type) j
  byte_at-made j h = byte_at-put_bytes_self c x _ inside j (omega (arith, h, length-dir_entry))

  pub length-made : length made ≡ length c
  length-made = length-put_bytes c x _ inside

  header : (j : ℕ) → j < 8 → byte_at made (x + j) ≡ byte_at (dir_entry inode rec name type) j
  header j h = byte_at-made j (omega (arith, h, long))

  header_0 : byte_at made x ≡ u8 inode
  unfolding dir_entry
  header_0 = let same : x ≡ x + 0 = omega arith in ap (byte_at made) same ∙ header 0 (omega arith)

  pub made_inode : inode < 2 ^ 32 → de_inode made x ≡ inode
  unfolding word_at dir_entry
  made_inode small = omega (
    arith,
    header_0,
    header 1 (omega arith),
    header 2 (omega arith),
    header 3 (omega arith),
    small,
  )

  pub made_type : type < 256 → de_file_type made x ≡ type
  unfolding dir_entry
  made_type small = omega (arith, header 7 (omega arith), small)

  made_rec_len : de_rec_len made x ≡ rec
  unfolding short_at dir_entry
  made_rec_len =
      let five : byte_at made (x + 4 + 1) ≡ u8 (rec / 2 ^ 8) =
        (let same : x + 4 + 1 ≡ x + 5 = omega arith in
          ap (byte_at made) same ∙ header 5 (omega arith)) in
      omega (arith, header 4 (omega arith), five, fits, short)

  pub made_goes : stops size made x ≡ false
  unfolding stops
  made_goes = ground (arith, made_rec_len, fits, long)

  tail_at :
      (i : ℕ) → i < length name → byte_at (dir_entry inode rec name type) (8 + i) ≡ byte_at name i
  unfolding dir_entry
  tail_at i h =
      get_or-append_right
        (u8 inode
          ∷ u8 (inode / 2 ^ 8)
          ∷ u8 (inode / 2 ^ 16)
          ∷ u8 (inode / 2 ^ 24)
          ∷ u8 rec
          ∷ u8 (rec / 2 ^ 8)
          ∷ u8 (length name)
          ∷ u8 type
          ∷ [])
        (name ++ replicate (rec - (8 + length name)) 0) i 0
      ∙ get_or-append_left name _ i 0 h

  letter : (i : ℕ) → i < length name → byte_at made (x + 8 + i) ≡ byte_at name i
  letter i h =
      let same : x + 8 + i ≡ x + (8 + i) = omega arith in
      ap (byte_at made) same ∙ byte_at-made (8 + i) (omega (arith, h, long)) ∙ tail_at i h

  made_name : slice made (x + 8) (length name) ≡ name
  made_name =
      let len : length (slice made (x + 8) (length name)) ≡ length name =
        length-slice made (x + 8) (length name) (omega (arith, length-made, fits, room, long)) in
      ext (slice made (x + 8) (length name)) name len (λ i h.
        let small : i < length name = omega (arith, h, len) in
        byte_at-slice made (x + 8) (length name) i small ∙ letter i small)

  made_name_len : de_name_len made x ≡ length name
  unfolding dir_entry
  made_name_len = omega (arith, header 6 (omega arith), few)

  pub made-has_name : 0 < inode → inode < 2 ^ 32 → has_name name made x ≡ true
  unfolding has_name
  made-has_name pos small =
      simp (made_inode small, made_name_len, made_name, same_bytes_refl name) (ground (arith, pos))
