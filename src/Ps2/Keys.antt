-- ===== src/Ps2/Keys.antt =====
-- What a sequence of scan codes leaves in the two flags, and which case a letter has.
use podumat_os.Prelude.{
  ℕ, ◌-◌, ◌<◌, ◌≡◌, refl, inl, inr, Bool, true, false, not, List, [], ◌∷◌, Option, none, some, ltb,
  ◌==◌, ◌&&◌, ◌||◌, if◌then◌else◌, ==_iff, Bool-cases, arith, ap, ap₂, ◌∙◌, get_or,
}
use podumat_os.Prelude.Bytes.{holds_under, at_index, same, same→≡}
use podumat_os.Ps2.{Keyboard, scancode_ascii, between, swap_case, character, scanned, get_char}

abbrev pub is_shift : ℕ → Bool
is_shift b = b == 0x2A || b == 0x36 || (b == 0xAA || b == 0xB6)

-- The flags after one scan code, by its number.
abbrev pub after_code : ℕ → Keyboard → Keyboard
after_code b k = record {
  shift_pressed = if is_shift b then ltb b 128 else k.shift_pressed;
  caps_lock = if b == 0x3A then not k.caps_lock else k.caps_lock;
}

keyboard : Bool → Bool → Keyboard
keyboard shift caps = record { shift_pressed = shift; caps_lock = caps }

agrees : Bool → Bool → ℕ → Bool
unfolding scanned keyboard
agrees shift caps b =
    let r = (scanned b (keyboard shift caps)).1 in
    let e = after_code b (keyboard shift caps) in
    same r.shift_pressed e.shift_pressed && same r.caps_lock e.caps_lock

agrees_all : (shift caps : Bool) → holds_under (agrees shift caps) 256 ≡ true
unfolding holds_under agrees same
agrees_all false false = refl
agrees_all false true = refl
agrees_all true false = refl
agrees_all true true = refl

and_left : (a b : Bool) → (a && b) ≡ true → a ≡ true
and_left a b h = ground (arith, h)

and_right : (a b : Bool) → (a && b) ≡ true → b ≡ true
and_right a b h = ground (arith, h)

scanned-after_code : (b : ℕ) (k : Keyboard) → b < 256 → (scanned b k).1 ≡ after_code b k
unfolding agrees keyboard
scanned-after_code b k h =
    let r = (scanned b k).1 in
    let e = after_code b k in
    let both =
      at_index (agrees k.shift_pressed k.caps_lock) 256 b h
        (agrees_all k.shift_pressed k.caps_lock) in
    let one =
      same→≡ r.shift_pressed e.shift_pressed (and_left _ (same r.caps_lock e.caps_lock) both) in
    let two =
      same→≡ r.caps_lock e.caps_lock (and_right (same r.shift_pressed e.shift_pressed) _ both) in
    ap₂ (λ shift caps. record { shift_pressed = shift; caps_lock = caps }) one two

-- The keyboard after a sequence of scan codes.
pub run : List ℕ → Keyboard → Keyboard
run [] k = k
run (b ∷ bs) k = run bs (get_char 1 b k).1

abbrev pub AreCodes : List ℕ → Type 0
AreCodes [] = Unit {0}
AreCodes (b ∷ bs) = (b < 256) × AreCodes bs

-- The last scan code of a shift key.
unfoldable pub last_shift : List ℕ → Option ℕ
last_shift [] = none
last_shift (b ∷ bs) = elim (last_shift bs) [
  | some c ↦ some c
  | none ↦ if is_shift b then some b else none
]

-- Whether caps lock is pressed an odd number of times.
unfoldable pub odd_presses : List ℕ → Bool
odd_presses [] = false
odd_presses (b ∷ bs) = if b == 0x3A then not (odd_presses bs) else odd_presses bs

abbrev shift_after : Bool → Option ℕ → Bool
shift_after start none = start
shift_after start (some b) = ltb b 128

abbrev flip : Bool → Bool → Bool
flip start odd = if odd then not start else start

-- After any sequence of bytes as scan codes the shift flag says whether the last code of a shift
-- key was a press, and is as before if there was none; caps lock is flipped if its key was pressed
-- an odd number of times.
pub run_lem :
    (bs : List ℕ) (k : Keyboard)
    → AreCodes bs
    → run bs k ≡ record {
      shift_pressed = shift_after k.shift_pressed (last_shift bs);
      caps_lock = flip k.caps_lock (odd_presses bs);
    }
unfolding run last_shift odd_presses get_char
run_lem [] k codes = refl
run_lem (b ∷ bs) k codes =
    ap (run bs) (scanned-after_code b k codes.0)
    ∙ run_lem bs (after_code b k) codes.1
    ∙ ap₂ (λ shift caps. record { shift_pressed = shift; caps_lock = caps })
        (shift_step (last_shift bs)) (caps_step (odd_presses bs))
  where
    shift_step :
        (later : Option ℕ)
        → shift_after (after_code b k).shift_pressed later
          ≡ shift_after k.shift_pressed
              (elim later [ some c ↦ some c | none ↦ if is_shift b then some b else none ])
    shift_step (some c) = refl
    shift_step none = elim (Bool-cases (is_shift b)) [ inl e ↦ simp e refl | inr e ↦ simp e refl ]

    caps_step :
        (odd : Bool)
        → flip (after_code b k).caps_lock odd
          ≡ flip k.caps_lock (if b == 0x3A then not odd else odd)
    caps_step odd = ground arith

-- The letters of the table without shift.
abbrev pub is_letter : ℕ → Bool
is_letter code = between b'a' b'z' (get_or scancode_ascii code 0)

abbrev pub upper_when : Bool → Bool → Bool
upper_when shift caps = if caps then not shift else shift

cased : Bool → Bool → ℕ → Bool
unfolding scanned keyboard character swap_case
cased shift caps code =
    let c = get_or scancode_ascii code 0 in
    if is_letter code
    then (scanned code (keyboard shift caps)).0 == (if upper_when shift caps then c - 32 else c)
    else true

cased_all : (shift caps : Bool) → holds_under (cased shift caps) 128 ≡ true
unfolding holds_under cased
cased_all false false = refl
cased_all false true = refl
cased_all true false = refl
cased_all true true = refl

-- Where a byte waits and it is the press of a letter's key, `get_char` gives the capital if
-- exactly one of shift and caps lock is on, else the small letter.
pub get_char_letter :
    (code : ℕ) (k : Keyboard)
    → code < 128
    → is_letter code ≡ true
    → (get_char 1 code k).0 ≡ (
        let c = get_or scancode_ascii code 0 in
        if upper_when k.shift_pressed k.caps_lock then c - 32 else c)
unfolding get_char cased keyboard
get_char_letter code k h letter =
    let all =
      at_index (cased k.shift_pressed k.caps_lock) 128 code h
        (cased_all k.shift_pressed k.caps_lock) in
    let c = get_or scancode_ascii code 0 in
    (==_iff (scanned code k).0 (if upper_when k.shift_pressed k.caps_lock then c - 32 else c)).0
      (simp letter at all)
