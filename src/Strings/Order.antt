-- ===== src/Strings/Order.antt =====
-- The string functions on memory that holds strings.
use podumat_os.Prelude.{
  ℕ, zero, suc, ◌+◌, ◌<◌, ◌≡◌, refl, inl, inr, true, false, List, [], ◌∷◌, some, ◌==◌, length,
  ==_iff, Bool-cases, arith, ap, ap₂, subst, ◌∙◌,
}
use podumat_os.Memory.{Memory}
use podumat_os.Strings.{strlen_loop, strlen, strcmp}

-- From `a` on the memory holds the bytes of the string and a terminator.
abbrev pub Holds : Memory → ℕ → List ℕ → Type 0
Holds m a [] = m a ≡ 0
Holds m a (x ∷ xs) = (m a ≡ x) × (0 < x) × Holds m (a + 1) xs

strlen_loop_lem :
    (xs : List ℕ) (fuel len str : ℕ) (m : Memory)
    → Holds m (str + len) xs
    → length xs < fuel
    → strlen_loop fuel len str m ≡ some (len + length xs)
unfolding strlen_loop
strlen_loop_lem xs zero len str m h enough = absurd (omega (arith, enough))
strlen_loop_lem [] (suc fuel) len str m h enough =
    let last : (m (str + len) == 0) ≡ true = ground (arith, h) in simp last (ap some (omega arith))
strlen_loop_lem (x ∷ xs) (suc fuel) len str m (at, pos, rest) enough =
    let more : (m (str + len) == 0) ≡ false = ground (arith, at, pos) in
    let next : str + len + 1 ≡ str + (len + 1) = omega arith in
    simp more (
      strlen_loop_lem xs fuel (len + 1) str m (subst (λ p. Holds m p xs) next rest)
        (omega (arith, enough))
      ∙ ap some (omega arith))

-- With more fuel than the string has bytes, `strlen` returns their number.
pub strlen_lem :
    (xs : List ℕ) (fuel str : ℕ) (m : Memory)
    → Holds m str xs
    → length xs < fuel
    → strlen fuel str m ≡ some (length xs)
unfolding strlen
strlen_lem xs fuel str m h enough =
    let start : str ≡ str + 0 = omega arith in
    strlen_loop_lem xs fuel 0 str m (subst (λ p. Holds m p xs) start h) enough
    ∙ ap some (omega arith)

-- The two bytes are the same just for equal strings.
pub record Decides (xs ys : List ℕ) (r : ℕ × ℕ) : Type 0 where
  pub same : r.0 ≡ r.1 → xs ≡ ys
  pub differ : xs ≡ ys → r.0 ≡ r.1

abbrev head_of : List ℕ → ℕ
head_of [] = 0
head_of (x ∷ xs) = x

abbrev tail_of : List ℕ → List ℕ
tail_of [] = []
tail_of (x ∷ xs) = xs

-- For two strings in memory, with more fuel than the first has bytes, `strcmp` ends, and the two bytes
-- whose difference it returns are the same just if the strings are equal.
pub strcmp-Decides :
    (xs ys : List ℕ) (fuel s1 s2 : ℕ) (m : Memory)
    → Holds m s1 xs
    → Holds m s2 ys
    → length xs < fuel
    → (r : ℕ × ℕ) × (strcmp fuel s1 s2 m ≡ some r) × Decides xs ys r
unfolding strcmp
strcmp-Decides xs ys zero s1 s2 m h k enough = absurd (omega (arith, enough))
strcmp-Decides [] [] (suc fuel) s1 s2 m h k enough =
    let last : (m s1 == 0) ≡ true = ground (arith, h) in
    ((m s1, m s2), simp last refl, record { same = λ e. refl; differ = λ e. omega (arith, h, k) })
strcmp-Decides [] (y ∷ ys) (suc fuel) s1 s2 m h k enough =
    let last : (m s1 == 0) ≡ true = ground (arith, h) in
    (
      (m s1, m s2),
      simp last refl,
      record { same = λ e. absurd (omega (arith, e, h, k.0, k.1)); differ = λ e. absurd (cc e) },
    )
strcmp-Decides (x ∷ xs) [] (suc fuel) s1 s2 m h k enough =
    let more : (m s1 == 0) ≡ false = ground (arith, h.0, h.1) in
    let other : (m s1 == m s2) ≡ false = ground (arith, h.0, h.1, k) in
    (
      (m s1, m s2),
      simp (more, other) refl,
      record { same = λ e. absurd (omega (arith, e, h.0, h.1, k)); differ = λ e. absurd (cc e) },
    )
strcmp-Decides (x ∷ xs) (y ∷ ys) (suc fuel) s1 s2 m (at1, pos1, rest1) (at2, pos2, rest2) enough =
    let more : (m s1 == 0) ≡ false = ground (arith, at1, pos1) in
    elim (Bool-cases (m s1 == m s2)) [
      | inl equal ↦
          let (r, found, decides) =
            strcmp-Decides xs ys fuel (s1 + 1) (s2 + 1) m rest1 rest2 (omega (arith, enough)) in
          let one : x ≡ y = omega (arith, at1, at2, (==_iff (m s1) (m s2)).0 equal) in
          (
            r,
            simp (more, equal) found,
            record {
              same = λ e. ap₂ (λ a bs. a ∷ bs) one (decides.same e);
              differ = λ e. decides.differ (ap tail_of e);
            },
          )
      | inr other ↦ (
        (m s1, m s2),
        simp (more, other) refl,
        record {
          same = λ e. absurd (ground (arith, other, e));
          differ = λ e. omega (arith, at1, at2, ap head_of e);
        },
      )
    ]
