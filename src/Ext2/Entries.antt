-- ===== src/Ext2/Entries.antt =====
-- The entries in a block of a directory in ext2.cpp: the loop over them, and how one is put in and taken
-- out. Entries are linked by their lengths; a name is the list of its bytes without a terminator.
use podumat_os.Prelude.{
  ℕ, zero, suc, ◌+◌, ◌-◌, ◌*◌, ◌/◌, ◌^◌, Bool, true, false, not, ◌&&◌, ◌||◌, Option, none, some,
  List, [], ◌∷◌, ◌++◌, ltb, leb, ◌==◌, if◌then◌else◌, u8, u16, length, replicate,
}
use podumat_os.Prelude.Words.{byte_at, word_at, put_word, short_at, put_short, put_bytes, slice}

abbrev pub de_inode : List ℕ → ℕ → ℕ
de_inode b off = word_at b off

abbrev pub de_rec_len : List ℕ → ℕ → ℕ
de_rec_len b off = short_at b (off + 4)

abbrev pub de_name_len : List ℕ → ℕ → ℕ
de_name_len b off = byte_at b (off + 6)

abbrev pub de_file_type : List ℕ → ℕ → ℕ
de_file_type b off = byte_at b (off + 7)

-- How the loop over a block ends: behind the last entry, or at the first entry that passes the test,
-- with the entry before it.
pub data Seek : Type 0 where
  unfinished : Seek
  missing : Seek
  at : ℕ → Option ℕ → Seek

-- The tests of the loop at `off`: the entry does not fit.
unfoldable pub stops : (size : ℕ) → List ℕ → ℕ → Bool
stops size b off =
    ltb size (off + 8) || (ltb (de_rec_len b off) 8 || ltb size (off + de_rec_len b off))

unfoldable pub seek : (fuel size : ℕ) → (List ℕ → ℕ → Bool) → List ℕ → (off : ℕ) → Option ℕ → Seek
seek zero size hit b off prev = unfinished
seek (suc fuel) size hit b off prev =
    let rest = seek fuel size hit b (off + de_rec_len b off) (some off) in
    if stops size b off then missing else if hit b off then at off prev else rest

-- A loop over a block of `size` bytes; `size` rounds are enough, since an entry has 8 bytes or more.
abbrev pub seek_in : (size : ℕ) → (List ℕ → ℕ → Bool) → List ℕ → Seek
seek_in size hit b = seek size size hit b 0 none

-- `memcmp(a, b, n) == 0` for the `n` bytes of `b`.
unfoldable pub same_bytes : List ℕ → List ℕ → Bool
same_bytes [] [] = true
same_bytes [] (y ∷ ys) = false
same_bytes (x ∷ xs) [] = false
same_bytes (x ∷ xs) (y ∷ ys) = x == y && same_bytes xs ys

-- The entry at `off` is in use and has the name.
unfoldable pub has_name : List ℕ → List ℕ → ℕ → Bool
has_name name b off =
    not (de_inode b off == 0)
    && (de_name_len b off == length name && same_bytes (slice b (off + 8) (length name)) name)

-- The entry `..`, used or not.
unfoldable pub is_dotdot : List ℕ → ℕ → Bool
is_dotdot b off = de_name_len b off == 2 && (byte_at b (off + 8) == 46 && byte_at b (off + 9) == 46)

-- `(8 + n + 3) & ~3u`
abbrev pub entry_room : ℕ → ℕ
entry_room n = (8 + n + 3) / 4 * 4

abbrev pub vacant : (needed : ℕ) → List ℕ → ℕ → Bool
vacant needed b off = de_inode b off == 0 && leb needed (de_rec_len b off)

abbrev pub roomy : (needed : ℕ) → List ℕ → ℕ → Bool
roomy needed b off =
    not (de_inode b off == 0) && leb (entry_room (de_name_len b off) + needed) (de_rec_len b off)

-- The entry at `off` gives room for a new one.
unfoldable pub has_room : (needed : ℕ) → List ℕ → ℕ → Bool
has_room needed b off = vacant needed b off || roomy needed b off

-- The bytes of an entry that fills `rec` bytes.
unfoldable pub dir_entry : (inode rec : ℕ) → List ℕ → (type : ℕ) → List ℕ
dir_entry inode rec name type =
    u8 inode
    ∷ u8 (inode / 2 ^ 8)
    ∷ u8 (inode / 2 ^ 16)
    ∷ u8 (inode / 2 ^ 24)
    ∷ u8 rec
    ∷ u8 (rec / 2 ^ 8)
    ∷ u8 (length name)
    ∷ u8 type
    ∷ (name ++ replicate (rec - (8 + length name)) 0)

-- The new entry in place of a free one, or behind one that is cut to its real size.
unfoldable pub insert_at : List ℕ → (off inode : ℕ) → List ℕ → (type : ℕ) → List ℕ
insert_at b off inode name type =
    let real = entry_room (de_name_len b off) in
    let rec = de_rec_len b off in
    if de_inode b off == 0
    then put_bytes b off (dir_entry inode rec name type)
    else put_bytes (put_short b (off + 4) real) (off + real)
        (dir_entry inode (rec - real) name type)

-- The entry at `off` taken out: the one before it gets its bytes, or it is marked free.
unfoldable pub remove_at : List ℕ → (off : ℕ) → Option ℕ → List ℕ
remove_at b off none = put_word b off 0
remove_at b off (some prev) = put_short b (prev + 4) (u16 (de_rec_len b prev + de_rec_len b off))
