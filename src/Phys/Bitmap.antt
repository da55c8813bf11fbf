-- ===== src/Phys/Bitmap.antt =====
-- The bitmap as a set of pages: what `bit_set` and `bit_clear` change for `bit_test`.
use podumat_os.Prelude.{
  ℕ, zero, suc, ◌+◌, ◌*◌, ◌/◌, ◌%◌, ◌≤◌, ◌<◌, ◌≡◌, refl, inl, inr, Bool, true, false, List, ltb,
  leb, ◌==◌, if◌then◌else◌, length, get_or, set, Bool-cases, length-set, set_past, get_or-set_self,
  get_or-set_ne, arith, ◌&&◌, ◌∙◌,
}
use podumat_os.Prelude.Bytes.{
  with_bit, without_bit, bit_of-with_bit, bit_of-without_bit, with_bit-lt, without_bit-lt,
}
use podumat_os.Phys.{bit_set, bit_clear, bit_test, set_run}

abbrev pub IsBytes : List ℕ → Type 0
IsBytes bm = (i : ℕ) → get_or bm i 0 < 256

set-IsBytes : (bm : List ℕ) (v i : ℕ) → IsBytes bm → v < 256 → IsBytes (set bm i v)
set-IsBytes bm v i bytes small j = elim (Bool-cases (i == j)) [
  | inl e ↦ elim (Bool-cases (ltb i (length bm))) [
    | inl h ↦ ground (arith, get_or-set_self bm i v 0, bytes j)
    | inr h ↦ ground (arith, set_past bm i v, bytes j)
  ]
  | inr e ↦ ground (arith, get_or-set_ne bm i j v 0, bytes j)
]

module _ (bm : List ℕ) (p : ℕ) (bytes : IsBytes bm) where
  pub bit_set-IsBytes : IsBytes (bit_set bm p)
  unfolding bit_set
  bit_set-IsBytes =
      set-IsBytes bm _ _ bytes
        (with_bit-lt (get_or bm (p / 8) 0) (p % 8) (bytes (p / 8)) (omega arith))

  pub bit_clear-IsBytes : IsBytes (bit_clear bm p)
  unfolding bit_clear
  bit_clear-IsBytes =
      set-IsBytes bm _ _ bytes
        (without_bit-lt (get_or bm (p / 8) 0) (p % 8) (bytes (p / 8)) (omega arith))

  module _ (q : ℕ) (inside : p / 8 < length bm) where
    pub bit_test-bit_set : bit_test (bit_set bm p) q ≡ (if p == q then true else bit_test bm q)
    unfolding bit_set bit_test
    bit_test-bit_set = elim (Bool-cases (p / 8 == q / 8)) [
      | inl e ↦ ground (
        arith,
        get_or-set_self bm (p / 8) (with_bit (get_or bm (p / 8) 0) (p % 8)) 0 inside,
        bit_of-with_bit (get_or bm (p / 8) 0) (p % 8) (bytes (p / 8)) (omega arith) (q % 8)
            (omega arith),
      )
      | inr e ↦
          ground
            (arith, get_or-set_ne bm (p / 8) (q / 8) (with_bit (get_or bm (p / 8) 0) (p % 8)) 0)
    ]

    pub bit_test-bit_clear : bit_test (bit_clear bm p) q ≡ (if p == q then false else bit_test bm q)
    unfolding bit_clear bit_test
    bit_test-bit_clear = elim (Bool-cases (p / 8 == q / 8)) [
      | inl e ↦ ground (
        arith,
        get_or-set_self bm (p / 8) (without_bit (get_or bm (p / 8) 0) (p % 8)) 0 inside,
        bit_of-without_bit (get_or bm (p / 8) 0) (p % 8) (bytes (p / 8)) (omega arith) (q % 8)
            (omega arith),
      )
      | inr e ↦
          ground
            (arith, get_or-set_ne bm (p / 8) (q / 8) (without_bit (get_or bm (p / 8) 0) (p % 8)) 0)
    ]

pub length-bit_set : (bm : List ℕ) (p : ℕ) → length (bit_set bm p) ≡ length bm
unfolding bit_set
length-bit_set bm p = length-set bm _ _

pub length-bit_clear : (bm : List ℕ) (p : ℕ) → length (bit_clear bm p) ≡ length bm
unfolding bit_clear
length-bit_clear bm p = length-set bm _ _

-- The loop of `alloc_pages` sets the pages of its run and no other.
pub set_run-IsBytes : (bm : List ℕ) (p n : ℕ) → IsBytes bm → IsBytes (set_run bm p n)
unfolding set_run
set_run-IsBytes bm p zero bytes = bytes
set_run-IsBytes bm p (suc n) bytes =
    set_run-IsBytes (bit_set bm p) (p + 1) n (bit_set-IsBytes bm p bytes)

pub length-set_run : (bm : List ℕ) (p n : ℕ) → length (set_run bm p n) ≡ length bm
unfolding set_run
length-set_run bm p zero = refl
length-set_run bm p (suc n) = length-set_run (bit_set bm p) (p + 1) n ∙ length-bit_set bm p

abbrev pub in_run : ℕ → ℕ → ℕ → Bool
in_run p n q = leb p q && ltb q (p + n)

pub bit_test-set_run :
    (bm : List ℕ) (p n q : ℕ)
    → IsBytes bm
    → p + n ≤ 8 * length bm
    → bit_test (set_run bm p n) q ≡ (if in_run p n q then true else bit_test bm q)
unfolding set_run
bit_test-set_run bm p zero q bytes inside = ground arith
bit_test-set_run bm p (suc n) q bytes inside = ground (
  arith,
  bit_test-set_run (bit_set bm p) (p + 1) n q (bit_set-IsBytes bm p bytes)
      (omega (arith, length-bit_set bm p)),
  bit_test-bit_set bm p bytes q (omega arith),
)
