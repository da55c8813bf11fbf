-- ===== src/Ext2/Sought.antt =====
-- The loop over the entries of a block ends, and finds the first entry that passes its test.
use podumat_os.Prelude.{
  ℕ, zero, suc, ◌+◌, ◌*◌, ◌≤◌, ◌<◌, ◌≡◌, inl, inr, Bool, true, false, Option, none, some, List,
  Bool-cases, arith,
}
use podumat_os.Ext2.Entries.{Seek, missing, at, seek, seek_in, stops, de_rec_len}

-- The loop, at `off` with the entry `p` before it, comes to the entry at `x` with `q` before it, along
-- the lengths of the entries, and none of the entries before `x` passes the test.
pub data Comes (size : ℕ) (hit : List ℕ → ℕ → Bool) (b : List ℕ)
    : ℕ → Option ℕ → ℕ → Option ℕ → Type 0 where
  arrived : (off : ℕ) (p : Option ℕ) → Comes size hit b off p off p
  passes :
      (off : ℕ) (p : Option ℕ) (x : ℕ) (q : Option ℕ)
      → stops size b off ≡ false
      → hit b off ≡ false
      → Comes size hit b (off + de_rec_len b off) (some off) x q
      → Comes size hit b off p x q

-- What the loop from `off` on returns: the first entry that passes, or nothing at the end.
pub data Sought (size : ℕ) (hit : List ℕ → ℕ → Bool) (b : List ℕ) (off : ℕ) (p : Option ℕ)
    : Seek → Type 0 where
  found :
      (x : ℕ) (q : Option ℕ)
      → Comes size hit b off p x q
      → stops size b x ≡ false
      → hit b x ≡ true
      → Sought size hit b off p (at x q)
  ended :
      (x : ℕ) (q : Option ℕ)
      → Comes size hit b off p x q
      → stops size b x ≡ true
      → Sought size hit b off p missing

module _ (size : ℕ) (hit : List ℕ → ℕ → Bool) (b : List ℕ) where
  pub goes_on :
      (off : ℕ)
      → stops size b off ≡ false
      → (off + 8 ≤ size) × (8 ≤ de_rec_len b off) × (off + de_rec_len b off ≤ size)
  unfolding stops
  goes_on off h = (ground (arith, h), ground (arith, h), ground (arith, h))

  later :
      (off : ℕ) (p : Option ℕ) (o : Seek)
      → stops size b off ≡ false
      → hit b off ≡ false
      → Sought size hit b (off + de_rec_len b off) (some off) o
      → Sought size hit b off p o
  later off p o on other (found x q c s h) = found x q (passes off p x q on other c) s h
  later off p o on other (ended x q c s) = ended x q (passes off p x q on other c) s

  seek-Sought :
      (fuel off : ℕ) (p : Option ℕ)
      → off ≤ size
      → size < off + fuel * 8
      → Sought size hit b off p (seek fuel size hit b off p)
  unfolding seek
  seek-Sought zero off p within enough = absurd (omega arith)
  seek-Sought (suc fuel) off p within enough = elim (Bool-cases (stops size b off)) [
    | inl s ↦ simp s (ended off p (arrived off p) s)
    | inr on ↦ elim (Bool-cases (hit b off)) [
      | inl h ↦ simp (on, h) (found off p (arrived off p) on h)
      | inr other ↦
          let (fits, long, inside) = goes_on off on in
          simp (on, other)
            (later off p _ on other (
              seek-Sought fuel (off + de_rec_len b off) (some off) inside
                (omega (arith, fits, long, enough))))
    ]
  ]

  -- On a block that is not empty, whatever its bytes are, the loop ends within the rounds given: it
  -- returns the first of the linked entries that passes the test with the entry before it, or nothing
  -- if none passes before the entry that does not fit.
  pub seek_in-Sought : 0 < size → Sought size hit b 0 none (seek_in size hit b)
  seek_in-Sought pos = seek-Sought size 0 none (omega arith) (omega arith)
