-- ===== src/Phys/Count.antt =====
-- The number of clear bits below a page, which the counter `g_free_pages` mirrors.
use podumat_os.Prelude.{
  ℕ, zero, suc, ◌+◌, ◌*◌, ◌/◌, ◌≤◌, ◌<◌, ◌≡◌, refl, inl, inr, true, false, List, ◌==◌,
  if◌then◌else◌, length, ==_iff, Bool-cases, arith, ap,
}
use podumat_os.Phys.{bit_set, bit_clear, bit_test, set_run}
use podumat_os.Phys.Bitmap.{
  IsBytes, bit_test-bit_set, bit_test-bit_clear, bit_set-IsBytes, length-bit_set,
}
use podumat_os.Phys.Search.{FreeRun}

unfoldable pub count_free : List ℕ → ℕ → ℕ
count_free bm zero = 0
count_free bm (suc n) = (if bit_test bm n then 0 else 1) + count_free bm n

pub count_free-le : (bm : List ℕ) (n : ℕ) → count_free bm n ≤ n
unfolding count_free
count_free-le bm zero = omega arith
count_free-le bm (suc n) = ground (arith, count_free-le bm n)

-- The count depends on the pages alone.
pub count_free_ext :
    (bm bm' : List ℕ) (n : ℕ)
    → ((q : ℕ) → bit_test bm q ≡ bit_test bm' q)
    → count_free bm n ≡ count_free bm' n
unfolding count_free
count_free_ext bm bm' zero same = refl
count_free_ext bm bm' (suc n) same = ground (arith, same n, count_free_ext bm bm' n same)

-- A free run is counted.
pub FreeRun-le-count_free :
    (bm : List ℕ) (p c n : ℕ) → FreeRun bm p c → p + c ≤ n → c ≤ count_free bm n
unfolding count_free
FreeRun-le-count_free bm p zero n free h = omega arith
FreeRun-le-count_free bm p (suc c) zero free h = absurd (omega arith)
FreeRun-le-count_free bm p (suc c) (suc n) free h = elim (Bool-cases (p + c == n)) [
  | inl last ↦ ground (
    arith,
    free n (ground arith) (ground arith),
    FreeRun-le-count_free bm p c n (λ q lo hi. free q lo (omega arith)) (ground arith),
  )
  | inr inner ↦ ground (arith, FreeRun-le-count_free bm p (suc c) n free (ground arith))
]

module _ (bm : List ℕ) (p : ℕ) (bytes : IsBytes bm) (inside : p / 8 < length bm) where
  count_free-set_above : (n : ℕ) → n ≤ p → count_free (bit_set bm p) n ≡ count_free bm n
  unfolding count_free
  count_free-set_above zero h = refl
  count_free-set_above (suc n) h =
      ground (arith, bit_test-bit_set bm p bytes n inside, count_free-set_above n (omega arith))

  count_free-clear_above : (n : ℕ) → n ≤ p → count_free (bit_clear bm p) n ≡ count_free bm n
  unfolding count_free
  count_free-clear_above zero h = refl
  count_free-clear_above (suc n) h =
      ground (arith, bit_test-bit_clear bm p bytes n inside, count_free-clear_above n (omega arith))

  -- Taking a free page lowers the count by one, and giving a used page back raises it by one.
  pub count_free-bit_set :
      (n : ℕ) → p < n → bit_test bm p ≡ false → count_free bm n ≡ count_free (bit_set bm p) n + 1
  unfolding count_free
  count_free-bit_set zero h e = absurd (omega arith)
  count_free-bit_set (suc n) h e = elim (Bool-cases (p == n)) [
    | inl last ↦ ground (
      arith,
      bit_test-bit_set bm p bytes n inside,
      count_free-set_above n (ground arith),
      ==_iff p n,
      ap (bit_test bm) ((==_iff p n).0 last),
    )
    | inr inner ↦
        ground (arith, bit_test-bit_set bm p bytes n inside, count_free-bit_set n (ground arith) e)
  ]

  pub count_free-bit_clear :
      (n : ℕ) → p < n → bit_test bm p ≡ true → count_free (bit_clear bm p) n ≡ count_free bm n + 1
  unfolding count_free
  count_free-bit_clear zero h e = absurd (omega arith)
  count_free-bit_clear (suc n) h e = elim (Bool-cases (p == n)) [
    | inl last ↦ ground (
      arith,
      bit_test-bit_clear bm p bytes n inside,
      count_free-clear_above n (ground arith),
      ap (bit_test bm) ((==_iff p n).0 last),
    )
    | inr inner ↦
        ground
          (arith, bit_test-bit_clear bm p bytes n inside, count_free-bit_clear n (ground arith) e)
  ]

pub count_free-set_run :
    (bm : List ℕ) (p c n : ℕ)
    → IsBytes bm
    → p + c ≤ 8 * length bm
    → p + c ≤ n
    → FreeRun bm p c
    → count_free bm n ≡ count_free (set_run bm p c) n + c
unfolding set_run
count_free-set_run bm p zero n bytes cap h free = omega arith
count_free-set_run bm p (suc c) n bytes cap h free = omega (
  arith,
  count_free-bit_set bm p bytes (omega arith) n (omega arith) (free p (omega arith) (omega arith)),
  count_free-set_run (bit_set bm p) (p + 1) c n (bit_set-IsBytes bm p bytes)
      (omega (arith, length-bit_set bm p)) (omega arith) still_free,
)
  where
    still_free : FreeRun (bit_set bm p) (p + 1) c
    still_free q lo hi =
        ground
          (arith, bit_test-bit_set bm p bytes q (omega arith), free q (omega arith) (omega arith))

pub count_free_full :
    (bm : List ℕ) (n : ℕ) → ((q : ℕ) → q < n → bit_test bm q ≡ true) → count_free bm n ≡ 0
unfolding count_free
count_free_full bm zero used = refl
count_free_full bm (suc n) used =
    ground (arith, used n (omega arith), count_free_full bm n (λ q h. used q (omega arith)))
