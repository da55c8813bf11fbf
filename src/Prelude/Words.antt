-- ===== src/Prelude/Words.antt =====
-- A `uint32_t` inside a buffer of bytes, lowest byte first.
use Prim.Native.Nat.{ℕ, ◌+◌, ◌*◌, ◌/◌, ◌^◌, ◌≤◌, ◌<◌}
use mathlib.Core.Path.{◌≡◌, ◌∙◌}
use mathlib.Core.Logic.{◌⊎◌}
use mathlib.Core.List.{List, ◌++◌}
use native.Mathlib.Omega.{arith}
use podumat_os.Prelude.Tests.{u8}
use podumat_os.Prelude.Lists.{
  take, drop, length, get_or, set, length-set, get_or-set_self, get_or-set_ne,
}

abbrev pub byte_at : List ℕ → ℕ → ℕ
byte_at b i = get_or b i 0

unfoldable pub word_at : List ℕ → ℕ → ℕ
word_at b i =
    byte_at b i
    + byte_at b (i + 1) * 2 ^ 8
    + byte_at b (i + 2) * 2 ^ 16
    + byte_at b (i + 3) * 2 ^ 24

unfoldable pub put_word : List ℕ → ℕ → ℕ → List ℕ
put_word b i v =
    set (set (set (set b i (u8 v)) (i + 1) (u8 (v / 2 ^ 8))) (i + 2) (u8 (v / 2 ^ 16))) (i + 3)
      (u8 (v / 2 ^ 24))

-- A `uint16_t` inside a buffer of bytes.
unfoldable pub short_at : List ℕ → ℕ → ℕ
short_at b i = byte_at b i + byte_at b (i + 1) * 2 ^ 8

unfoldable pub put_short : List ℕ → ℕ → ℕ → List ℕ
put_short b i v = set (set b i (u8 v)) (i + 1) (u8 (v / 2 ^ 8))

-- The bytes `bs` copied into a buffer from `off` on, and the `n` bytes there.
unfoldable pub put_bytes : List ℕ → ℕ → List ℕ → List ℕ
put_bytes b off bs = take off b ++ (bs ++ drop (off + length bs) b)

unfoldable pub slice : List ℕ → ℕ → ℕ → List ℕ
slice b off n = take n (drop off b)

pub length-put_word : (b : List ℕ) (i v : ℕ) → length (put_word b i v) ≡ length b
unfolding put_word
length-put_word b i v =
    length-set _ (i + 3) _ ∙ length-set _ (i + 2) _ ∙ length-set _ (i + 1) _ ∙ length-set b i _

-- A byte outside the word keeps its value.
byte_at-put_word :
    (b : List ℕ) (i v j : ℕ) → (j < i) ⊎ (i + 4 ≤ j) → byte_at (put_word b i v) j ≡ byte_at b j
unfolding put_word
byte_at-put_word b i v j h =
    get_or-set_ne _ (i + 3) j _ 0 (omega arith)
    ∙ get_or-set_ne _ (i + 2) j _ 0 (omega arith)
    ∙ get_or-set_ne _ (i + 1) j _ 0 (omega arith)
    ∙ get_or-set_ne b i j _ 0 (omega arith)

pub word_at-put_word_ne :
    (b : List ℕ) (i v j : ℕ) → (j + 4 ≤ i) ⊎ (i + 4 ≤ j) → word_at (put_word b i v) j ≡ word_at b j
unfolding word_at
word_at-put_word_ne b i v j h = omega (
  arith,
  byte_at-put_word b i v j (omega arith),
  byte_at-put_word b i v (j + 1) (omega arith),
  byte_at-put_word b i v (j + 2) (omega arith),
  byte_at-put_word b i v (j + 3) (omega arith),
)

pub word_at-put_word_self :
    (b : List ℕ) (i v : ℕ) → i + 4 ≤ length b → v < 2 ^ 32 → word_at (put_word b i v) i ≡ v
unfolding word_at put_word
word_at-put_word_self b i v inside small = omega (arith, b0, b1, b2, b3)
  where
    s0 : List ℕ
    s0 = set b i (u8 v)

    s1 : List ℕ
    s1 = set s0 (i + 1) (u8 (v / 2 ^ 8))

    s2 : List ℕ
    s2 = set s1 (i + 2) (u8 (v / 2 ^ 16))

    l1 : length s0 ≡ length b
    l1 = length-set b i (u8 v)

    l2 : length s1 ≡ length b
    l2 = length-set s0 (i + 1) (u8 (v / 2 ^ 8)) ∙ l1

    l3 : length s2 ≡ length b
    l3 = length-set s1 (i + 2) (u8 (v / 2 ^ 16)) ∙ l2

    b3 : byte_at (put_word b i v) (i + 3) ≡ u8 (v / 2 ^ 24)
    b3 = get_or-set_self s2 (i + 3) _ 0 (omega (arith, l3))

    b2 : byte_at (put_word b i v) (i + 2) ≡ u8 (v / 2 ^ 16)
    b2 =
        get_or-set_ne s2 (i + 3) (i + 2) _ 0 (omega arith)
        ∙ get_or-set_self s1 (i + 2) _ 0 (omega (arith, l2))

    b1 : byte_at (put_word b i v) (i + 1) ≡ u8 (v / 2 ^ 8)
    b1 =
        get_or-set_ne s2 (i + 3) (i + 1) _ 0 (omega arith)
        ∙ get_or-set_ne s1 (i + 2) (i + 1) _ 0 (omega arith)
        ∙ get_or-set_self s0 (i + 1) _ 0 (omega (arith, l1))

    b0 : byte_at (put_word b i v) i ≡ u8 v
    b0 =
        get_or-set_ne s2 (i + 3) i _ 0 (omega arith)
        ∙ get_or-set_ne s1 (i + 2) i _ 0 (omega arith)
        ∙ get_or-set_ne s0 (i + 1) i _ 0 (omega arith)
        ∙ get_or-set_self b i _ 0 (omega arith)
