-- ===== src/Ext2/FirstClear.antt =====
-- The search of a bitmap in ext2.cpp finds the first bit that is clear and fits.
use podumat_os.Prelude.{
  ℕ, zero, suc, ◌+◌, ◌*◌, ◌/◌, ◌%◌, ◌≤◌, ◌<◌, ◌≡◌, refl, inl, inr, Bool, true, false, not, ◌&&◌,
  Option, none, some, List, ltb, ◌==◌, Bool-cases, arith, ==_iff, ap, sym, subst, ◌∙◌,
}
use podumat_os.Prelude.Bytes.{bit_of, bit_of_full}
use podumat_os.Prelude.Words.{byte_at}
use podumat_os.Ext2.Bitmaps.{clear_in_byte, first_clear}

-- Bit `idx` of a bitmap is clear, and the number passes the test.
unfoldable pub is_free : (ℕ → Bool) → List ℕ → ℕ → Bool
is_free fits b idx = not (bit_of (byte_at b (idx / 8)) (idx % 8)) && fits idx

-- The first free index from `lo` up to `hi`, or none.
pub data FirstFree (fits : ℕ → Bool) (b : List ℕ) (lo hi : ℕ) : Option ℕ → Type 0 where
  free :
      (idx : ℕ)
      → lo ≤ idx
      → idx < hi
      → is_free fits b idx ≡ true
      → ((j : ℕ) → lo ≤ j → j < idx → is_free fits b j ≡ false)
      → FirstFree fits b lo hi (some idx)
  full : ((j : ℕ) → lo ≤ j → j < hi → is_free fits b j ≡ false) → FirstFree fits b lo hi none

-- Both ends of a range, rewritten.
subst2 : (P : ℕ → ℕ → Type 0) {k l m n : ℕ} → k ≡ l → m ≡ n → P k m → P l n
subst2 P {l = l} {m = m} first second x = subst (P l) second (subst (λ i. P i m) first x)

module _ (fits : ℕ → Bool) (b : List ℕ) where
  -- One index that is not free, and then a search of the rest; and the search of a first part that is full.
  skip :
      (lo mid hi : ℕ) (o : Option ℕ)
      → lo ≤ mid
      → ((j : ℕ) → lo ≤ j → j < mid → is_free fits b j ≡ false)
      → FirstFree fits b mid hi o
      → FirstFree fits b lo hi o
  skip lo mid hi _ le taken (free idx low high ok before) =
      free idx (omega (arith, le, low)) high ok (λ j l h. elim (Bool-cases (ltb j mid)) [
        | inl near ↦ taken j l (ground (arith, near))
        | inr far ↦ before j (ground (arith, far)) h
      ])
  skip lo mid hi _ le taken (full none_free) = full (λ j l h. elim (Bool-cases (ltb j mid)) [
    | inl near ↦ taken j l (ground (arith, near))
    | inr far ↦ none_free j (ground (arith, far)) h
  ])

  bit_free :
      (i bit : ℕ)
      → bit < 8
      → is_free fits b (i * 8 + bit) ≡ (not (bit_of (byte_at b i) bit) && fits (i * 8 + bit))
  unfolding is_free
  bit_free i bit small =
      let byte : (i * 8 + bit) / 8 ≡ i = omega (arith, small) in
      let place : (i * 8 + bit) % 8 ≡ bit = omega (arith, small) in simp (byte, place) refl

  clear_in_byte-FirstFree :
      (left bit i : ℕ)
      → bit + left ≡ 8
      → FirstFree fits b (i * 8 + bit) (i * 8 + 8) (clear_in_byte fits left bit i (byte_at b i))
  unfolding clear_in_byte
  clear_in_byte-FirstFree zero bit i e = full (λ j l h. absurd (omega (arith, l, h, e)))
  clear_in_byte-FirstFree (suc left) bit i e =
      let rest = clear_in_byte-FirstFree left (bit + 1) i (omega (arith, e)) in
      let here : is_free fits b (i * 8 + bit)
          ≡ (not (bit_of (byte_at b i) bit) && fits (i * 8 + bit)) =
        bit_free i bit (omega (arith, e)) in
      let pass : is_free fits b (i * 8 + bit) ≡ false
          → FirstFree fits b (i * 8 + bit) (i * 8 + 8)
              (clear_in_byte fits left (bit + 1) i (byte_at b i)) =
        (λ taken.
          skip (i * 8 + bit) (i * 8 + (bit + 1)) (i * 8 + 8) _ (omega arith)
            (λ j l h.
              let same : i * 8 + bit ≡ j = omega (arith, l, h) in
              ap (is_free fits b) (sym same) ∙ taken)
            rest) in
      elim (Bool-cases (bit_of (byte_at b i) bit)) [
        | inl set_bit ↦ simp set_bit (pass (ground (arith, here, set_bit)))
        | inr clear_bit ↦ elim (Bool-cases (fits (i * 8 + bit))) [
          | inl good ↦
              simp (clear_bit, good)
                (free (i * 8 + bit) (omega arith) (omega (arith, e))
                  (ground (arith, here, clear_bit, good)) (λ j l h. absurd (omega (arith, l, h))))
          | inr bad ↦ simp (clear_bit, bad) (pass (ground (arith, here, clear_bit, bad)))
        ]
      ]

  -- What one byte gives decides, and otherwise the bytes behind it.
  abbrev or_rest : Option ℕ → Option ℕ → Option ℕ
  or_rest none rest = rest
  or_rest (some idx) rest = some idx

  or_rest-FirstFree :
      (lo mid hi : ℕ) (o rest : Option ℕ)
      → lo ≤ mid
      → mid ≤ hi
      → FirstFree fits b lo mid o
      → FirstFree fits b mid hi rest
      → FirstFree fits b lo hi (elim o [ none ↦ rest | some idx ↦ some idx ])
  or_rest-FirstFree lo mid hi _ rest le le2 (free idx low high ok before) more =
      free idx low (omega (arith, high, le2)) ok before
  or_rest-FirstFree lo mid hi _ rest le le2 (full taken) more = skip lo mid hi rest le taken more

  all_set :
      (i : ℕ)
      → (byte_at b i == 0xFF) ≡ true
      → (j : ℕ) → i * 8 ≤ j
      → j < i * 8 + 8
      → is_free fits b j ≡ false
  unfolding is_free
  all_set i ones j l h =
      let byte : j / 8 ≡ i = omega (arith, l, h) in
      let value : byte_at b (j / 8) ≡ 0xFF = ap (byte_at b) byte ∙ (==_iff _ _).0 ones in
      simp (value, bit_of_full (j % 8) (omega arith)) refl

  -- In each round the byte at `i`, and then the bytes behind it.
  first_clear-FirstFree_from :
      (left i : ℕ) → FirstFree fits b (i * 8) ((i + left) * 8) (first_clear fits left i b)
  unfolding first_clear
  first_clear-FirstFree_from zero i = full (λ j l h. absurd (omega (arith, l, h)))
  first_clear-FirstFree_from (suc left) i =
      let rest : FirstFree fits b (i * 8 + 8) ((i + suc left) * 8)
          (first_clear fits left (i + 1) b) =
        subst2 (λ l h. FirstFree fits b l h (first_clear fits left (i + 1) b)) (omega arith)
          (omega arith) (first_clear-FirstFree_from left (i + 1)) in
      elim (Bool-cases (byte_at b i == 0xFF)) [
        | inl ones ↦ simp ones (skip (i * 8) (i * 8 + 8) _ _ (omega arith) (all_set i ones) rest)
        | inr other ↦ simp other (
            or_rest-FirstFree (i * 8) (i * 8 + 8) _ _ _ (omega arith) (omega arith)
              (subst (λ k. FirstFree fits b k (i * 8 + 8) (clear_in_byte fits 8 0 i (byte_at b i)))
                (omega arith) (clear_in_byte-FirstFree 8 0 i (omega arith)))
              rest)
      ]

  -- The search of the first `size` bytes of a bitmap returns the first index whose bit is clear and
  -- whose number passes the test, or nothing if there is none.
  pub first_clear-FirstFree : (size : ℕ) → FirstFree fits b 0 (size * 8) (first_clear fits size 0 b)
  first_clear-FirstFree size =
      subst2 (λ l h. FirstFree fits b l h (first_clear fits size 0 b)) (omega arith) (omega arith)
        (first_clear-FirstFree_from size 0)
