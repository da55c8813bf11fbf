-- ===== src/Prelude/Bytes.antt =====
-- Facts about a small range by evaluation, and the bits of a byte.
use Prim.Native.Nat.{ℕ, zero, suc, ◌-◌, ◌^◌, ◌<◌, bit_and, bit_or}
use mathlib.Core.Path.{◌≡◌, refl}
use mathlib.Core.Bool.{Bool, true, false, ◌&&◌, not}
use native.Mathlib.Omega.{arith}
use podumat_os.Prelude.Tests.{◌==◌, ltb, ltb→lt, if◌then◌else◌}

-- A test that passes at every index under a bound.
unfoldable pub holds_under : (ℕ → Bool) → ℕ → Bool
holds_under test zero = true
holds_under test (suc n) = holds_under test n && test n

pub at_index :
    (test : ℕ → Bool) (bound i : ℕ) → i < bound → holds_under test bound ≡ true → test i ≡ true
unfolding holds_under
at_index test zero i lt all = absurd (omega arith)
at_index test (suc n) i lt all = ground (arith, at_index test n i)

-- `(b & (1 << k)) != 0`, `b | (1 << k)` and `b & ~(1 << k)` on a byte.
unfoldable pub bit_of : ℕ → ℕ → Bool
bit_of b k = not (bit_and b (2 ^ k) == 0)

unfoldable pub with_bit : ℕ → ℕ → ℕ
with_bit b k = bit_or b (2 ^ k)

unfoldable pub without_bit : ℕ → ℕ → ℕ
without_bit b k = bit_and b (255 - 2 ^ k)

unfoldable pub same : Bool → Bool → Bool
same true b = b
same false b = not b

pub same→≡ : (a b : Bool) → same a b ≡ true → a ≡ b
unfolding same
same→≡ a b h = ground arith

table : (ℕ → ℕ → ℕ → Bool) → Bool
table p = holds_under (λ b. holds_under (λ k. holds_under (λ j. p b k j) 8) 8) 256

table_sound :
    (p : ℕ → ℕ → ℕ → Bool) (b k j : ℕ) → table p ≡ true → b < 256 → k < 8 → j < 8 → p b k j ≡ true
unfolding table
table_sound p b k j h hb hk hj = at_index _ 8 j hj (at_index _ 8 k hk (at_index _ 256 b hb h))

with_table :
    table (λ b k j. same (bit_of (with_bit b k) j) (if k == j then true else bit_of b j)) ≡ true
unfolding table holds_under same bit_of with_bit
with_table = refl

without_table :
    table (λ b k j. same (bit_of (without_bit b k) j) (if k == j then false else bit_of b j)) ≡ true
unfolding table holds_under same bit_of without_bit
without_table = refl

range_table : table (λ b k j. ltb (with_bit b k) 256 && ltb (without_bit b k) 256) ≡ true
unfolding table holds_under with_bit without_bit
range_table = refl

module _ (b k : ℕ) (hb : b < 256) (hk : k < 8) where
  pub bit_of-with_bit :
      (j : ℕ) → j < 8 → bit_of (with_bit b k) j ≡ (if k == j then true else bit_of b j)
  bit_of-with_bit j hj = same→≡ _ _ (table_sound _ b k j with_table hb hk hj)

  pub bit_of-without_bit :
      (j : ℕ) → j < 8 → bit_of (without_bit b k) j ≡ (if k == j then false else bit_of b j)
  bit_of-without_bit j hj = same→≡ _ _ (table_sound _ b k j without_table hb hk hj)

  pub with_bit-lt : with_bit b k < 256
  with_bit-lt = ltb→lt _ _ (ground (arith, table_sound _ b k 0 range_table hb hk (omega arith)))

  pub without_bit-lt : without_bit b k < 256
  without_bit-lt = ltb→lt _ _ (ground (arith, table_sound _ b k 0 range_table hb hk (omega arith)))

full_table : holds_under (λ k. bit_of 255 k) 8 ≡ true
unfolding holds_under bit_of
full_table = refl

pub bit_of_full : (k : ℕ) → k < 8 → bit_of 255 k ≡ true
bit_of_full k h = at_index _ 8 k h full_table

empty_table : holds_under (λ k. not (bit_of 0 k)) 8 ≡ true
unfolding holds_under bit_of
empty_table = refl

pub bit_of_empty : (k : ℕ) → k < 8 → bit_of 0 k ≡ false
bit_of_empty k h = ground (arith, at_index _ 8 k h empty_table)
