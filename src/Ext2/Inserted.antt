-- ===== src/Ext2/Inserted.antt =====
-- An entry that add_dir_entry puts into a block of a directory is found there by its name.
use podumat_os.Prelude.{
  ℕ, set, ◌+◌, ◌-◌, ◌≤◌, ◌<◌, ◌≡◌, ◌⊎◌, refl, sym, ◌∙◌, subst, inl, inr, Bool, true, false, Option,
  none, some, List, ◌==◌, length, Bool-cases, arith, ◌^◌, ◌/◌, u8, length-set, get_or-set_ne,
  get_or-set_self,
}
use podumat_os.Prelude.Words.{byte_at, short_at, put_short, put_bytes}
use podumat_os.Prelude.Splice.{byte_at-put_bytes_before}
use podumat_os.Ext2.Entries.{
  at, missing, seek_in, stops, has_name, has_room, entry_room, dir_entry, insert_at, de_inode,
  de_rec_len, de_name_len,
}
use podumat_os.Ext2.Sought.{Comes, arrived, passes, Sought, found, goes_on, seek_in-Sought}
use podumat_os.Ext2.Frames.{
  rec_len_frame, has_name_frame, inside, length-made, made_inode, made_type, made_goes,
  made-has_name,
}
use podumat_os.Ext2.Reached.{Links, first, IsDirBlock, Names, names, Comes-seek, passed_by, reaches}

module _ (size : ℕ) (b : List ℕ) (name : List ℕ) (inode type off : ℕ) (prev : Option ℕ)
    (d : IsDirBlock size b) (few : length name < 256) (pos : 0 < inode) (small : inode < 2 ^ 32)
    (kind : type < 256) (path : Comes size (has_room (entry_room (length name))) b 0 none off prev)
    (goes : stops size b off ≡ false)
    (none_there : Sought size (has_name name) b 0 none missing) where
  bounds : (off + 8 ≤ size) × (8 ≤ de_rec_len b off) × (off + de_rec_len b off ≤ size)
  bounds = goes_on size (has_name name) b off goes

  -- The new entry in place of a free one.
  in_place :
      8 + length name ≤ de_rec_len b off
      → Names size name inode type (put_bytes b off (dir_entry inode (de_rec_len b off) name type))
  in_place long =
      let rec : ℕ = de_rec_len b off in
      let c : List ℕ = put_bytes b off (dir_entry inode rec name type) in
      let (fits, eight, within) = bounds in
      let same_length : length c ≡ length b =
        length-made b off size inode rec type name within d.room d.small long few in
      let (more, links, still) =
        reaches size b c name d same_length (has_room (entry_room (length name))) 0 none off prev
          path (omega (arith, fits))
          (byte_at-put_bytes_before b off _
            (inside b off size inode rec type name within d.room d.small long few))
          first none_there in
      names off prev
        (Comes-seek size (has_name name) c size 0 off none prev (more off prev (arrived off prev))
          (made_goes b off size inode rec type name within d.room d.small long few)
          (made-has_name b off size inode rec type name within d.room d.small long few pos small)
          (omega arith) (omega (arith, d.positive)))
        (made_inode b off size inode rec type name within d.room d.small long few small)
        (made_type b off size inode rec type name within d.room d.small long few kind)

  -- The new entry behind one that is cut to `real` bytes.
  module _ (real : ℕ) (eight_real : 8 + de_name_len b off ≤ real)
      (left : real + (8 + length name) ≤ de_rec_len b off) where
    abbrev cut : List ℕ
    cut = put_short b (off + 4) real

    abbrev halves : List ℕ
    halves = put_bytes cut (off + real) (dir_entry inode (de_rec_len b off - real) name type)

    length-cut : length cut ≡ length b
    unfolding put_short
    length-cut = length-set _ _ _ ∙ length-set _ _ _

    cut_ne : (j : ℕ) → (j < off + 4) ⊎ (off + 4 + 2 ≤ j) → byte_at cut j ≡ byte_at b j
    unfolding put_short
    cut_ne j g =
        get_or-set_ne _ (off + 4 + 1) j _ 0 (omega (arith, g))
        ∙ get_or-set_ne b (off + 4) j _ 0 (omega (arith, g))

    cut_rec_len : de_rec_len cut off ≡ real
    unfolding put_short short_at
    cut_rec_len =
        let (fits, eight, within) = bounds in
        let low : byte_at cut (off + 4) ≡ u8 real =
          get_or-set_ne _ (off + 4 + 1) (off + 4) _ 0 (omega arith)
          ∙ get_or-set_self b (off + 4) _ 0 (omega (arith, fits, d.room)) in
        let high : byte_at cut (off + 4 + 1) ≡ u8 (real / 2 ^ 8) =
          get_or-set_self (set b (off + 4) (u8 real)) (off + 4 + 1) _ 0
            (omega (arith, fits, d.room, length-set b (off + 4) (u8 real))) in
        omega (arith, low, high, left, within, d.small)

    room_cut : size ≤ length cut
    room_cut = omega (arith, length-cut, d.room)

    ends_in : off + real + (de_rec_len b off - real) ≤ size
    ends_in = let (fits, eight, within) = bounds in omega (arith, within, left)

    long_new : 8 + length name ≤ de_rec_len b off - real
    long_new = omega (arith, left)

    halves_before : (j : ℕ) → j < off + real → byte_at halves j ≡ byte_at cut j
    halves_before = byte_at-put_bytes_before cut (off + real) _ (
        inside cut (off + real) size inode (de_rec_len b off - real) type name ends_in room_cut
          d.small long_new few)

    length-halves : length halves ≡ length b
    length-halves =
        length-made cut (off + real) size inode (de_rec_len b off - real) type name ends_in room_cut
          d.small long_new few
        ∙ length-cut

    halves_agree :
        (j : ℕ)
        → j < off + real
        → (j < off + 4) ⊎ (off + 4 + 2 ≤ j)
        → byte_at halves j ≡ byte_at b j
    halves_agree j h g = halves_before j h ∙ cut_ne j g

    halves_rec_len : de_rec_len halves off ≡ real
    halves_rec_len =
        rec_len_frame cut halves (length-halves ∙ sym length-cut) (off + real) (off + real)
          (λ j h g. halves_before j h) off (omega (arith, eight_real)) (omega arith)
        ∙ cut_rec_len

    halves_goes : stops size halves off ≡ false
    unfolding stops
    halves_goes =
        let (fits, eight, within) = bounds in
        ground (arith, halves_rec_len, fits, eight_real, left, within)

    behind :
        Links size b off
        → Sought size (has_name name) b off prev missing
        → ((x : ℕ) (q : Option ℕ)
            → Comes size (has_name name) halves off prev x q
            → Comes size (has_name name) halves 0 none x q)
        → Names size name inode type halves
    behind links still more =
        let (fits, eight, within) = bounds in
        let (unnamed, later) = passed_by size (has_name name) b off prev goes still in
        let unnamed_c : has_name name halves off ≡ false =
          has_name_frame b halves length-halves (off + real) (off + 4) halves_agree name off
            (omega (arith, eight_real)) (omega (arith, within, left, d.room)) (inl refl)
          ∙ unnamed in
        let arrives : Comes size (has_name name) halves off prev (off + real) (some off) =
          passes off prev (off + real) (some off) halves_goes unnamed_c (
            subst
              (λ r. Comes size (has_name name) halves (off + r) (some off) (off + real) (some off))
              (sym halves_rec_len) (arrived (off + real) (some off))) in
        names (off + real) (some off)
          (Comes-seek size (has_name name) halves size 0 (off + real) none (some off)
            (more (off + real) (some off) arrives)
            (made_goes cut (off + real) size inode (de_rec_len b off - real) type name ends_in
              room_cut d.small long_new few)
            (made-has_name cut (off + real) size inode (de_rec_len b off - real) type name ends_in
              room_cut d.small long_new few pos small)
            (omega arith) (omega (arith, d.positive)))
          (made_inode cut (off + real) size inode (de_rec_len b off - real) type name ends_in
            room_cut d.small long_new few small)
          (made_type cut (off + real) size inode (de_rec_len b off - real) type name ends_in
            room_cut d.small long_new few kind)

    in_rest : Names size name inode type halves
    in_rest =
        let (fits, eight, within) = bounds in
        let (more, links, still) =
          reaches size b halves name d length-halves (has_room (entry_room (length name))) 0 none
            off prev path (omega (arith, fits))
            (λ j h. halves_agree j (omega (arith, h)) (inl (omega (arith, h)))) first none_there in
        behind links still more

-- What the search for room tells.
at_room :
    (size : ℕ) (hit : List ℕ → ℕ → Bool) (b : List ℕ) (off : ℕ) (prev : Option ℕ)
    → Sought size hit b 0 none (at off prev)
    → Comes size hit b 0 none off prev × (stops size b off ≡ false) × (hit b off ≡ true)
at_room size hit b _ _ (found off prev c goes h) = (c, goes, h)

vacant_room :
    (n : ℕ) (b : List ℕ) (off : ℕ)
    → has_room (entry_room n) b off ≡ true
    → (de_inode b off == 0) ≡ true
    → 8 + n ≤ de_rec_len b off
unfolding has_room
vacant_room n b off h e = ground (arith, h, e)

rest_room :
    (n : ℕ) (b : List ℕ) (off : ℕ)
    → has_room (entry_room n) b off ≡ true
    → (de_inode b off == 0) ≡ false
    → entry_room (de_name_len b off) + (8 + n) ≤ de_rec_len b off
unfolding has_room
rest_room n b off h e = ground (arith, h, e)

-- In a block of a directory whose entries are long enough for their names, if the loop finds room for
-- an entry of the name and none of the name is there, then in the block with the new entry put in at
-- that place the loop finds an entry of the name, and it has the inode number and the type.
pub insert_at-Names :
    (size : ℕ) (b : List ℕ) (name : List ℕ) (inode type off : ℕ) (prev : Option ℕ)
    → IsDirBlock size b
    → length name < 256
    → 0 < inode
    → inode < 2 ^ 32
    → type < 256
    → seek_in size (has_room (entry_room (length name))) b ≡ at off prev
    → seek_in size (has_name name) b ≡ missing
    → Names size name inode type (insert_at b off inode name type)
unfolding insert_at
insert_at-Names size b name inode type off prev d few pos small kind room absent =
    let (path, goes, h) = at_room size (has_room (entry_room (length name))) b off prev (
      subst (Sought size (has_room (entry_room (length name))) b 0 none) room
        (seek_in-Sought size (has_room (entry_room (length name))) b d.positive)) in
    let none_there : Sought size (has_name name) b 0 none missing =
      subst (Sought size (has_name name) b 0 none) absent
        (seek_in-Sought size (has_name name) b d.positive) in
    elim (Bool-cases (de_inode b off == 0)) [
      | inl e ↦ simp e (
          in_place size b name inode type off prev d few pos small kind path goes none_there
            (vacant_room (length name) b off h e))
      | inr e ↦ simp e (
          in_rest size b name inode type off prev d few pos small kind path goes none_there
            (entry_room (de_name_len b off)) (omega arith) (rest_room (length name) b off h e))
    ]
