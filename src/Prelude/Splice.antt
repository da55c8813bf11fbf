-- ===== src/Prelude/Splice.antt =====
-- Bytes copied into a buffer, and taken from it, byte by byte.
use Prim.Native.Nat.{ℕ, zero, suc, ◌+◌, ◌-◌, ◌≤◌, ◌<◌}
use mathlib.Core.Path.{◌≡◌, refl, ap, sym, ◌∙◌}
use mathlib.Core.List.{List, [], ◌∷◌, ◌++◌}
use native.Mathlib.Omega.{arith}
use podumat_os.Prelude.Lists.{length, get_or, take, drop, get_or-append_left, length-append}
use podumat_os.Prelude.Words.{byte_at, put_bytes, slice}

module _ {ℓ} {A : Type ℓ} where
  pub length-take : (n : ℕ) (xs : List A) → n ≤ length xs → length (take n xs) ≡ n
  length-take zero xs h = refl
  length-take (suc n) [] h = absurd (omega arith)
  length-take (suc n) (x ∷ xs) h = ap suc (length-take n xs (omega arith))

  pub length-drop : (n : ℕ) (xs : List A) → length (drop n xs) ≡ length xs - n
  length-drop zero xs = omega arith
  length-drop (suc n) [] = omega arith
  length-drop (suc n) (x ∷ xs) = omega (arith, length-drop n xs)

  pub get_or-take :
      (n : ℕ) (xs : List A) (i : ℕ) (d : A) → i < n → get_or (take n xs) i d ≡ get_or xs i d
  get_or-take zero xs i d h = absurd (omega arith)
  get_or-take (suc n) [] i d h = refl
  get_or-take (suc n) (x ∷ xs) zero d h = refl
  get_or-take (suc n) (x ∷ xs) (suc i) d h = get_or-take n xs i d (omega arith)

  pub get_or-drop :
      (n : ℕ) (xs : List A) (i : ℕ) (d : A) → get_or (drop n xs) i d ≡ get_or xs (n + i) d
  get_or-drop zero xs i d = ap (λ k. get_or xs k d) (omega arith)
  get_or-drop (suc n) [] i d = refl
  get_or-drop (suc n) (x ∷ xs) i d =
      let same : suc (n + i) ≡ suc n + i = omega arith in
      get_or-drop n xs i d ∙ ap (λ k. get_or (x ∷ xs) k d) same

  pub get_or-append_right :
      (xs ys : List A) (i : ℕ) (d : A) → get_or (xs ++ ys) (length xs + i) d ≡ get_or ys i d
  get_or-append_right [] ys i d = ap (λ k. get_or ys k d) (omega arith)
  get_or-append_right (x ∷ xs) ys i d =
      let same : suc (length xs) + i ≡ suc (length xs + i) = omega arith in
      ap (λ k. get_or (x ∷ xs ++ ys) k d) same ∙ get_or-append_right xs ys i d

-- The length of a buffer does not change.
pub length-put_bytes :
    (b : List ℕ) (off : ℕ) (bs : List ℕ)
    → off + length bs ≤ length b
    → length (put_bytes b off bs) ≡ length b
unfolding put_bytes
length-put_bytes b off bs h = omega (
  arith,
  length-append (take off b) (bs ++ drop (off + length bs) b),
  length-append bs (drop (off + length bs) b),
  length-take off b (omega (arith, h)),
  length-drop (off + length bs) b,
)

module _ (b : List ℕ) (off : ℕ) (bs : List ℕ) (fits : off + length bs ≤ length b) where
  start : length (take off b) ≡ off
  start = length-take off b (omega (arith, fits))

  -- A byte before the copy, of the copy, and behind it.
  pub byte_at-put_bytes_before : (j : ℕ) → j < off → byte_at (put_bytes b off bs) j ≡ byte_at b j
  unfolding put_bytes
  byte_at-put_bytes_before j h =
      get_or-append_left (take off b) _ j 0 (omega (arith, start)) ∙ get_or-take off b j 0 h

  pub byte_at-put_bytes_self :
      (j : ℕ) → j < length bs → byte_at (put_bytes b off bs) (off + j) ≡ byte_at bs j
  unfolding put_bytes
  byte_at-put_bytes_self j h =
      ap (λ n. get_or (take off b ++ (bs ++ drop (off + length bs) b)) (n + j) 0) (sym start)
      ∙ get_or-append_right (take off b) _ j 0
      ∙ get_or-append_left bs _ j 0 h

  pub byte_at-put_bytes_behind :
      (j : ℕ) → off + length bs ≤ j → byte_at (put_bytes b off bs) j ≡ byte_at b j
  unfolding put_bytes
  byte_at-put_bytes_behind j h =
      let k : ℕ = j - (off + length bs) in
      let place : j ≡ length (take off b) + (length bs + k) = omega (arith, h, start) in
      let back : off + length bs + k ≡ j = omega (arith, h) in
      ap (λ n. get_or (take off b ++ (bs ++ drop (off + length bs) b)) n 0) place
      ∙ get_or-append_right (take off b) _ (length bs + k) 0
      ∙ get_or-append_right bs _ k 0
      ∙ get_or-drop (off + length bs) b k 0
      ∙ ap (byte_at b) back

-- Byte `i` of a slice.
pub byte_at-slice :
    (b : List ℕ) (off n i : ℕ) → i < n → byte_at (slice b off n) i ≡ byte_at b (off + i)
unfolding slice
byte_at-slice b off n i h = get_or-take n (drop off b) i 0 h ∙ get_or-drop off b i 0
