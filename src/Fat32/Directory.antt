-- ===== src/Fat32/Directory.antt =====
-- The entries of one sector of a directory: the loop of find_entry that looks for a name.
use podumat_os.Prelude.{
  ℕ, zero, suc, ◌+◌, ◌*◌, ◌≤◌, ◌<◌, ◌≡◌, ◌≢◌, inl, inr, Bool, true, false, not, ◌||◌, List, ◌==◌,
  if◌then◌else◌, get_or, ==_iff, Bool-cases, arith, ap, subst, ◌∙◌, sym,
}
use podumat_os.Prelude.Words.{byte_at}

-- Byte `j` of entry `i`.
abbrev pub entry_byte : List ℕ → ℕ → ℕ → ℕ
entry_byte b i j = byte_at b (i * 32 + j)

-- The comparison of the 8 bytes of `name` and the 3 of `ext`, from byte `k` on.
unfoldable pub same_name : (left k : ℕ) → List ℕ → ℕ → List ℕ → Bool
same_name zero k b i name83 = true
same_name (suc left) k b i name83 =
    let rest = same_name left (k + 1) b i name83 in
    if not (entry_byte b i k == get_or name83 k 0) then false else rest

-- No entry follows; the entry is deleted; it is a part of a long name.
abbrev pub is_end : List ℕ → ℕ → Bool
is_end b i = entry_byte b i 0 == 0x00

abbrev pub is_skipped : List ℕ → ℕ → Bool
is_skipped b i = entry_byte b i 0 == 0xE5 || entry_byte b i 11 == 0x0F

-- How the loop over the entries of a sector ends: at the end of the directory, at an entry, or with
-- none left.
pub data Search : Type 0 where
  ended passed : Search
  found : ℕ → Search

unfoldable pub scan_entries : (left i : ℕ) → List ℕ → List ℕ → Search
unfolding same_name
scan_entries zero i b name83 = passed
scan_entries (suc left) i b name83 =
    let rest = scan_entries left (i + 1) b name83 in
    if is_end b i
    then ended
    else if is_skipped b i
    then rest
    else if not (same_name 11 0 b i name83)
    then rest
    else found i

-- Entry `i` has the name.
abbrev pub HasName : List ℕ → ℕ → List ℕ → Type 0
HasName b i name83 = (k : ℕ) → k < 11 → entry_byte b i k ≡ get_or name83 k 0

-- The entry is not deleted, and it is no part of a long name.
abbrev pub IsLive : List ℕ → ℕ → Type 0
IsLive b i = (byte_at b (i * 32) ≢ 0xE5) × (byte_at b (i * 32 + 11) ≢ 0x0F)

-- The search goes past entry `i`: it is not the end, and it is not live or has another name.
abbrev pub Passes : List ℕ → List ℕ → ℕ → Type 0
Passes b name83 i = (byte_at b (i * 32) ≢ 0) × (IsLive b i → ¬ HasName b i name83)

abbrev pub Outcome : ℕ → List ℕ → List ℕ → Search → Type 0
Outcome n b name83 passed = (j : ℕ) → j < n → Passes b name83 j
Outcome n b name83 ended =
    (i : ℕ) × (i < n) × (byte_at b (i * 32) ≡ 0) × ((j : ℕ) → j < i → Passes b name83 j)
Outcome n b name83 (found i) =
    (i < n)
    × (byte_at b (i * 32) ≢ 0)
    × IsLive b i
    × HasName b i name83
    × ((j : ℕ) → j < i → Passes b name83 j)

first_byte : (b : List ℕ) (i : ℕ) → entry_byte b i 0 ≡ byte_at b (i * 32)
first_byte b i = ap (byte_at b) (omega arith)

is_end-true : (b : List ℕ) (i : ℕ) → is_end b i ≡ true → byte_at b (i * 32) ≡ 0
is_end-true b i e = sym (first_byte b i) ∙ (==_iff (entry_byte b i 0) 0).0 e

is_end-false : (b : List ℕ) (i : ℕ) → is_end b i ≡ false → byte_at b (i * 32) ≢ 0
is_end-false b i e zero_byte = ground (arith, e, first_byte b i, zero_byte)

is_skipped-true : (b : List ℕ) (i : ℕ) → is_skipped b i ≡ true → ¬ IsLive b i
is_skipped-true b i e live = ground (arith, e, first_byte b i, live.0, live.1)

is_skipped-false : (b : List ℕ) (i : ℕ) → is_skipped b i ≡ false → IsLive b i
is_skipped-false b i e =
    (λ deleted. ground (arith, e, first_byte b i, deleted), λ long. ground (arith, e, long))

same_name-true :
    (left k : ℕ) (b : List ℕ) (i : ℕ) (name83 : List ℕ)
    → same_name left k b i name83 ≡ true
    → (j : ℕ) → k ≤ j
    → j < k + left
    → entry_byte b i j ≡ get_or name83 j 0
unfolding same_name
same_name-true zero k b i name83 h j lo hi = absurd (omega arith)
same_name-true (suc left) k b i name83 h j lo hi =
    elim (Bool-cases (entry_byte b i k == get_or name83 k 0)) [
      | inr differ ↦ absurd (cc (simp differ at h))
      | inl same ↦ elim (Bool-cases (j == k)) [
        | inl at ↦
            let e : j ≡ k = (==_iff j k).0 at in
            subst (λ x. entry_byte b i x ≡ get_or name83 x 0) (sym e)
              ((==_iff (entry_byte b i k) (get_or name83 k 0)).0 same)
        | inr past ↦
            same_name-true left (k + 1) b i name83 (simp same at h) j (ground (arith, past))
              (omega arith)
      ]
    ]

same_name-false :
    (left k : ℕ) (b : List ℕ) (i : ℕ) (name83 : List ℕ)
    → same_name left k b i name83 ≡ false
    → ((j : ℕ) → k ≤ j → j < k + left → entry_byte b i j ≡ get_or name83 j 0)
    → ⊥
unfolding same_name
same_name-false zero k b i name83 h all = absurd (cc h)
same_name-false (suc left) k b i name83 h all =
    let same =
      (==_iff (entry_byte b i k) (get_or name83 k 0)).1 (all k (omega arith) (omega arith)) in
    same_name-false left (k + 1) b i name83 (simp same at h)
      (λ j lo hi. all j (omega arith) (omega arith))

scan_entries-from :
    (left i : ℕ) (b name83 : List ℕ)
    → ((j : ℕ) → j < i → Passes b name83 j)
    → Outcome (i + left) b name83 (scan_entries left i b name83)
unfolding scan_entries
scan_entries-from zero i b name83 before = λ j lt. before j (omega arith)
scan_entries-from (suc left) i b name83 before = elim (Bool-cases (is_end b i)) [
  | inl end ↦ simp end (i, omega arith, is_end-true b i end, before)
  | inr more ↦ elim (Bool-cases (is_skipped b i)) [
    | inl skip ↦
        simp (more, skip)
          (go_on (
            scan_entries-from left (i + 1) b name83
              (extend (is_end-false b i more, λ live. absurd (is_skipped-true b i skip live)))))
    | inr live ↦ elim (Bool-cases (same_name 11 0 b i name83)) [
      | inl same ↦
          simp (more, live, same)
            (
              omega arith,
              is_end-false b i more,
              is_skipped-false b i live,
              λ k lt. same_name-true 11 0 b i name83 same k (omega arith) (omega arith),
              before,
            )
      | inr other ↦
          simp (more, live, other)
            (go_on (
              scan_entries-from left (i + 1) b name83 (
                extend (
                  is_end-false b i more,
                  λ no has. same_name-false 11 0 b i name83 other (λ j lo hi. has j hi),
                ))))
    ]
  ]
]
  where
    extend : Passes b name83 i → (j : ℕ) → j < i + 1 → Passes b name83 j
    extend here j lt = elim (Bool-cases (j == i)) [
      | inl at ↦ subst (Passes b name83) (sym ((==_iff j i).0 at)) here
      | inr past ↦ before j (ground (arith, past))
    ]

    go_on :
        Outcome (i + 1 + left) b name83 (scan_entries left (i + 1) b name83)
        → Outcome (i + suc left) b name83 (scan_entries left (i + 1) b name83)
    go_on rest =
        subst (λ n. Outcome n b name83 (scan_entries left (i + 1) b name83)) (omega arith) rest

-- In a sector the search stops at the first entry whose first byte is 0, which ends the directory, or
-- that has the 11 bytes of the name, does not start with 0xE5, and does not have 0x0F for its
-- attributes; it passes on only if there is none among the 16.
pub scan_entries-Outcome : (b name83 : List ℕ) → Outcome 16 b name83 (scan_entries 16 0 b name83)
scan_entries-Outcome b name83 = scan_entries-from 16 0 b name83 (λ j lt. absurd (omega arith))
