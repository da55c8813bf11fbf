-- ===== src/Fat32/Printed.antt =====
-- get_path stays inside its buffer.
use podumat_os.Prelude.{
  ℕ, zero, suc, ◌+◌, ◌<◌, inl, inr, List, [], ◌∷◌, ◌++◌, length, length-append, get_or, ltb,
  Bool-cases, arith,
}
use podumat_os.Fat32.{Fs}
use podumat_os.Fat32.Paths.{put_text, put_names, get_path}

put_text_fits :
    (size : ℕ) (text buf : List ℕ) → length buf < size → length (put_text size text buf) < size
unfolding put_text
put_text_fits size [] buf h = h
put_text_fits size (c ∷ cs) buf h = elim (Bool-cases (ltb (length buf + 1) size)) [
  | inl room ↦
      simp room
        (put_text_fits size cs (buf ++ (c ∷ [])) (ground (arith, room, length-append buf (c ∷ []))))
  | inr full ↦ simp full h
]

put_names_fits :
    (left d size : ℕ) (fs : Fs) (buf : List ℕ)
    → length buf < size
    → length (put_names left d size fs buf) < size
unfolding put_names
put_names_fits zero d size fs buf h = h
put_names_fits (suc left) d size fs buf h = elim (Bool-cases (ltb (length buf + 1) size)) [
  | inl room ↦ simp room (
      put_names_fits left (d + 1) size fs _ (
        put_text_fits size (get_or fs.path.names d []) (put_text size (b'/' ∷ []) buf)
          (put_text_fits size (b'/' ∷ []) buf h)))
  | inr full ↦ simp full h
]

-- For a buffer of at least one byte, `get_path` leaves room for the terminator.
pub get_path_fits : (size : ℕ) (fs : Fs) → 0 < size → length (get_path size fs) < size
unfolding get_path
get_path_fits size fs some_room =
    put_names_fits fs.path.depth 0 size fs _ (put_text_fits size _ [] some_room)
