-- ===== src/Memory/Compare.antt =====
-- memcmp against the order of the bytes.
use podumat_os.Prelude.{
  ℕ, zero, suc, ◌+◌, ◌<◌, ◌≡◌, ◌≢◌, inl, inr, ltb, ◌==◌, ==_iff, Bool-cases, arith, ap, subst, ◌∙◌,
  sym,
}
use podumat_os.Memory.{Memory, Sign, minus, nil, plus, memcmp_loop, memcmp}

-- Where the two areas first differ: byte `k` of the `n`.
abbrev pub DifferAt : (s1 s2 n : ℕ) → Memory → ℕ → Type 0
DifferAt s1 s2 n m k =
    (k < n) × ((j : ℕ) → j < k → m (s1 + j) ≡ m (s2 + j)) × (m (s1 + k) ≢ m (s2 + k))

-- What a result of `memcmp` says.
abbrev pub Means : (s1 s2 n : ℕ) → Memory → Sign → Type 0
Means s1 s2 n m nil = (j : ℕ) → j < n → m (s1 + j) ≡ m (s2 + j)
Means s1 s2 n m minus = (k : ℕ) × DifferAt s1 s2 n m k × (m (s1 + k) < m (s2 + k))
Means s1 s2 n m plus = (k : ℕ) × DifferAt s1 s2 n m k × (m (s2 + k) < m (s1 + k))

loop-Means :
    (left i s1 s2 : ℕ) (m : Memory)
    → ((j : ℕ) → j < i → m (s1 + j) ≡ m (s2 + j))
    → Means s1 s2 (i + left) m (memcmp_loop left i s1 s2 m)
unfolding memcmp_loop
loop-Means zero i s1 s2 m before = λ j lt. before j (omega arith)
loop-Means (suc left) i s1 s2 m before = elim (Bool-cases (m (s1 + i) == m (s2 + i))) [
  | inl same ↦
      let equal = (==_iff (m (s1 + i)) (m (s2 + i))).0 same in
      simp same (
        subst (λ n. Means s1 s2 n m (memcmp_loop left (i + 1) s1 s2 m)) (omega arith)
          (loop-Means left (i + 1) s1 s2 m (extend before equal)))
  | inr differ ↦
      let unequal : m (s1 + i) ≢ m (s2 + i) = λ h. ground (arith, differ, h) in
      elim (Bool-cases (ltb (m (s1 + i)) (m (s2 + i)))) [
        | inl less ↦ simp (differ, less) (i, (omega arith, before, unequal), ground (arith, less))
        | inr more ↦
            simp (differ, more) (i, (omega arith, before, unequal), ground (arith, more, differ))
      ]
]
  where
    extend :
        ((j : ℕ) → j < i → m (s1 + j) ≡ m (s2 + j))
        → m (s1 + i) ≡ m (s2 + i)
        → (j : ℕ) → j < i + 1
        → m (s1 + j) ≡ m (s2 + j)
    extend before equal j lt = elim (Bool-cases (j == i)) [
      | inl at ↦
          let same : j ≡ i = (==_iff j i).0 at in
          ap (λ x. m (s1 + x)) same ∙ equal ∙ ap (λ x. m (s2 + x)) (sym same)
      | inr past ↦ before j (ground (arith, past))
    ]

-- `memcmp` gives the order of the first two bytes that differ, and 0 only if none of the `n` do.
pub memcmp-Means : (s1 s2 n : ℕ) (m : Memory) → Means s1 s2 n m (memcmp s1 s2 n m)
unfolding memcmp
memcmp-Means s1 s2 n m =
    subst (λ k. Means s1 s2 k m (memcmp_loop n 0 s1 s2 m)) (omega arith)
      (loop-Means n 0 s1 s2 m (λ j lt. absurd (omega arith)))
