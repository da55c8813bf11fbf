-- ===== src/Strings/Tests.antt =====
-- The string functions at a small memory.
use podumat_os.Prelude.{ℕ, ◌≡◌, refl, some, [], ◌∷◌, arith, ◌==◌, if◌then◌else◌}
use podumat_os.Memory.{Memory}
use podumat_os.Strings.{strlen, strcmp, strncmp}
use podumat_os.Strings.Order.{Decides, strcmp-Decides}

-- `ab` at 10 and `ac` at 20.
abbrev words : Memory
words = λ a.
    if a == 10
    then b'a'
    else if a == 11
    then b'b'
    else if a == 20
    then b'a'
    else if a == 21
    then b'c'
    else 0

length_two : strlen 5 10 words ≡ some 2
unfolding strlen
length_two = refl

b_and_c : strcmp 5 10 20 words ≡ some (b'b', b'c')
unfolding strcmp
b_and_c = refl

one_byte : strncmp 1 10 20 words ≡ (0, 0)
unfolding strncmp
one_byte = refl

strcmp-Decides_example :
    (r : ℕ × ℕ) × (strcmp 5 10 20 words ≡ some r) × Decides (b'a' ∷ b'b' ∷ []) (b'a' ∷ b'c' ∷ []) r
strcmp-Decides_example =
    strcmp-Decides (b'a' ∷ b'b' ∷ []) (b'a' ∷ b'c' ∷ []) 5 10 20 words
      (refl, omega arith, (refl, omega arith, refl)) (refl, omega arith, (refl, omega arith, refl))
      (omega arith)
