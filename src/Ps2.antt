-- ===== src/Ps2.antt =====
-- kernel/src/drivers/ps2.cpp: the keyboard's scan codes and the characters that they give.
pub mod Keys
mod Tests
use podumat_os.Prelude.{
  ℕ, zero, suc, ◌+◌, ◌-◌, Bool, true, false, not, ◌&&◌, ◌||◌, List, [], ◌∷◌, leb, ◌==◌,
  if◌then◌else◌, bit_and, get_or,
}

-- `shift_pressed` and `caps_lock`
pub record Keyboard : Type 0 where
  pub shift_pressed : Bool
  pub caps_lock : Bool

abbrev pub scancode_ascii : List ℕ
scancode_ascii =
    0 ∷ 27 ∷ b'1' ∷ b'2' ∷ b'3' ∷ b'4' ∷ b'5' ∷ b'6' ∷ b'7' ∷ b'8' ∷ b'9' ∷ b'0' ∷ 45 ∷ 61 ∷ 8 ∷ 9
    ∷ b'q' ∷ b'w' ∷ b'e' ∷ b'r' ∷ b't' ∷ b'y' ∷ b'u' ∷ b'i' ∷ b'o' ∷ b'p' ∷ 91 ∷ 93 ∷ 10 ∷ 0 ∷ b'a'
    ∷ b's' ∷ b'd' ∷ b'f' ∷ b'g' ∷ b'h' ∷ b'j' ∷ b'k' ∷ b'l' ∷ 59 ∷ 39 ∷ 96 ∷ 0 ∷ 92 ∷ b'z' ∷ b'x'
    ∷ b'c' ∷ b'v' ∷ b'b' ∷ b'n' ∷ b'm' ∷ 44 ∷ 46 ∷ 47 ∷ 0 ∷ 42 ∷ 0 ∷ 32 ∷ 0 ∷ 0 ∷ 0 ∷ 0 ∷ 0 ∷ 0 ∷ 0
    ∷ 0 ∷ 0 ∷ 0 ∷ 0 ∷ 0 ∷ 0 ∷ b'7' ∷ b'8' ∷ b'9' ∷ 45 ∷ b'4' ∷ b'5' ∷ b'6' ∷ 43 ∷ b'1' ∷ b'2' ∷ b'3'
    ∷ b'0' ∷ 46 ∷ 0 ∷ 0 ∷ 0 ∷ 0 ∷ 0 ∷ 0 ∷ 0 ∷ 0 ∷ 0 ∷ 0 ∷ 0 ∷ 0 ∷ 0 ∷ 0 ∷ 0 ∷ 0 ∷ 0 ∷ 0 ∷ 0 ∷ 0 ∷ 0
    ∷ 0 ∷ 0 ∷ 0 ∷ 0 ∷ 0 ∷ 0 ∷ 0 ∷ 0 ∷ 0 ∷ 0 ∷ 0 ∷ 0 ∷ 0 ∷ 0 ∷ 0 ∷ 0 ∷ 0 ∷ 0 ∷ 0 ∷ 0 ∷ 0 ∷ 0 ∷ 0 ∷ []

abbrev pub scancode_ascii_shift : List ℕ
scancode_ascii_shift =
    0 ∷ 27 ∷ 33 ∷ 64 ∷ 35 ∷ 36 ∷ 37 ∷ 94 ∷ 38 ∷ 42 ∷ 40 ∷ 41 ∷ 95 ∷ 43 ∷ 8 ∷ 9 ∷ b'Q' ∷ b'W' ∷ b'E'
    ∷ b'R' ∷ b'T' ∷ b'Y' ∷ b'U' ∷ b'I' ∷ b'O' ∷ b'P' ∷ 123 ∷ 125 ∷ 10 ∷ 0 ∷ b'A' ∷ b'S' ∷ b'D'
    ∷ b'F' ∷ b'G' ∷ b'H' ∷ b'J' ∷ b'K' ∷ b'L' ∷ 58 ∷ 34 ∷ 126 ∷ 0 ∷ 124 ∷ b'Z' ∷ b'X' ∷ b'C' ∷ b'V'
    ∷ b'B' ∷ b'N' ∷ b'M' ∷ 60 ∷ 62 ∷ 63 ∷ 0 ∷ 42 ∷ 0 ∷ 32 ∷ 0 ∷ 0 ∷ 0 ∷ 0 ∷ 0 ∷ 0 ∷ 0 ∷ 0 ∷ 0 ∷ 0
    ∷ 0 ∷ 0 ∷ 0 ∷ b'7' ∷ b'8' ∷ b'9' ∷ 45 ∷ b'4' ∷ b'5' ∷ b'6' ∷ 43 ∷ b'1' ∷ b'2' ∷ b'3' ∷ b'0' ∷ 46
    ∷ 0 ∷ 0 ∷ 0 ∷ 0 ∷ 0 ∷ 0 ∷ 0 ∷ 0 ∷ 0 ∷ 0 ∷ 0 ∷ 0 ∷ 0 ∷ 0 ∷ 0 ∷ 0 ∷ 0 ∷ 0 ∷ 0 ∷ 0 ∷ 0 ∷ 0 ∷ 0 ∷ 0
    ∷ 0 ∷ 0 ∷ 0 ∷ 0 ∷ 0 ∷ 0 ∷ 0 ∷ 0 ∷ 0 ∷ 0 ∷ 0 ∷ 0 ∷ 0 ∷ 0 ∷ 0 ∷ 0 ∷ 0 ∷ 0 ∷ 0 ∷ 0 ∷ []

abbrev pub between : ℕ → ℕ → ℕ → Bool
between low high c = leb low c && leb c high

pub swap_case : ℕ → ℕ
swap_case c = if between b'a' b'z' c then c - 32 else if between b'A' b'Z' c then c + 32 else c

-- A key that goes down: the character of the tables, with its case swapped under caps lock.
pub character : Keyboard → ℕ → ℕ
unfolding swap_case
character k code =
    let c = get_or (if k.shift_pressed then scancode_ascii_shift else scancode_ascii) code 0 in
    if k.caps_lock then swap_case c else c

-- `get_char` once a scan code is read.
pub scanned : ℕ → Keyboard → ℕ × Keyboard
unfolding character
scanned scancode k =
    let released = not (bit_and scancode 0x80 == 0) in
    let code = bit_and scancode 0x7F in
    if code == 0x2A || code == 0x36
    then (0, record k { shift_pressed = not released })
    else if code == 0x3A && not released
    then (0, record k { caps_lock = not k.caps_lock })
    else if released
    then (0, k)
    else (character k code, k)

-- `status` is what port 0x64 gives, `scancode` what port 0x60 gives if it is read.
pub get_char : (status scancode : ℕ) → Keyboard → ℕ × Keyboard
unfolding scanned
get_char status scancode k = if bit_and status 0x01 == 0 then (0, k) else scanned scancode k
