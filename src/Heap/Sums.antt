-- ===== src/Heap/Sums.antt =====
-- The bytes that the blocks of a region take, and how a change of the list changes them.
use podumat_os.Prelude.{
  ℕ, ◌+◌, ◌≤◌, ◌<◌, ◌≡◌, ◌≢◌, refl, ◌⊎◌, inl, inr, true, false, ◌||◌, List, [], ◌∷◌, ◌==◌, ==_iff,
  Bool-cases, arith, ap, subst, sym,
}
use podumat_os.Prelude.Members.{is_in, insert_after, erase}
use podumat_os.Heap.Store.{Block, block_header}
use podumat_os.Heap.Blocks.{end_of, Blocks, is_in-le}

-- Headers and payloads.
unfoldable pub taken : (ℕ → Block) → List ℕ → ℕ
taken f [] = 0
taken f (a ∷ bs) = block_header + (f a).size + taken f bs

-- `g` keeps every size but that of `b`.
abbrev pub KeepsSizes : (f g : ℕ → Block) → ℕ → Type 0
KeepsSizes f g b = (x : ℕ) → x ≢ b → (g x).size ≡ (f x).size

pub taken_keeps :
    (f g : ℕ → Block) (b : ℕ) (bs : List ℕ)
    → KeepsSizes f g b
    → is_in b bs ≡ false
    → taken g bs ≡ taken f bs
unfolding taken is_in
taken_keeps f g b [] keeps out = refl
taken_keeps f g b (a ∷ bs) keeps out =
    let apart : a ≢ b = ground (arith, out) in
    omega (arith, keeps a apart, taken_keeps f g b bs keeps (ground (arith, out)))

pub taken-insert_after :
    (f g : ℕ → Block) (cur b : ℕ) (bs : List ℕ)
    → KeepsSizes f g b
    → is_in b bs ≡ false
    → is_in cur bs ≡ true
    → taken g (insert_after cur b bs) ≡ taken f bs + block_header + (g b).size
unfolding taken is_in insert_after
taken-insert_after f g cur b [] keeps out h = absurd (cc h)
taken-insert_after f g cur b (a ∷ bs) keeps out h =
    let apart : a ≢ b = ground (arith, out) in
    let off : is_in b bs ≡ false = ground (arith, out) in
    elim (Bool-cases (cur == a)) [
      | inl same ↦ simp same (omega (arith, keeps a apart, taken_keeps f g b bs keeps off))
      | inr other ↦ simp other (
          omega (
            arith,
            keeps a apart,
            taken-insert_after f g cur b bs keeps off (ground (arith, other, h)),
          ))
    ]

pub is_in-insert_after :
    (cur b x : ℕ) (bs : List ℕ)
    → is_in cur bs ≡ true
    → is_in x (insert_after cur b bs) ≡ (x == b || is_in x bs)
unfolding is_in insert_after
is_in-insert_after cur b x [] h = absurd (cc h)
is_in-insert_after cur b x (a ∷ bs) h = elim (Bool-cases (cur == a)) [
  | inl same ↦ simp same (ground arith)
  | inr other ↦
      simp other (ground (arith, is_in-insert_after cur b x bs (ground (arith, other, h))))
]

pub taken-erase :
    (f g : ℕ → Block) (b : ℕ) (bs : List ℕ)
    → ((x : ℕ) → (g x).size ≡ (f x).size)
    → is_in b bs ≡ true
    → taken g (erase b bs) + block_header + (f b).size ≡ taken f bs
unfolding taken is_in erase
taken-erase f g b [] keeps h = absurd (cc h)
taken-erase f g b (a ∷ bs) keeps h = elim (Bool-cases (b == a)) [
  | inl same ↦
      let b_is : b ≡ a = (==_iff b a).0 same in
      simp same (omega (arith, ap (λ x. (f x).size) b_is, same_taken bs))
  | inr other ↦
      simp other (omega (arith, keeps a, taken-erase f g b bs keeps (ground (arith, other, h))))
]
  where
    same_taken : (bs : List ℕ) → taken g bs ≡ taken f bs
    same_taken [] = refl
    same_taken (a ∷ bs) = omega (arith, keeps a, same_taken bs)

module _ (r hi : ℕ) where
  -- The region holds what its blocks take.
  pub taken-le :
      (f : ℕ → Block) (prev lo q : ℕ) (bs : List ℕ)
      → Blocks r hi f prev lo q bs
      → lo + taken f bs ≤ hi
  unfolding taken
  taken-le f prev lo q [] (e, room) = omega arith
  taken-le f prev lo q (a ∷ bs) (e, pos, le, header, rest) =
      omega (arith, taken-le f a (end_of f a) (f a).next bs rest)

  -- No block starts where another one ends, if there is a gap behind it.
  pub not_in :
      (f : ℕ → Block) (prev lo q cur : ℕ) (bs : List ℕ)
      → Blocks r hi f prev lo q bs
      → is_in cur bs ≡ true
      → ((f cur).next ≡ 0) ⊎ (end_of f cur < (f cur).next)
      → is_in (end_of f cur) bs ≡ false
  unfolding is_in
  not_in f prev lo q cur [] v h gap = refl
  not_in f prev lo q cur (a ∷ bs) (e, pos, le, header, rest) h gap = elim (Bool-cases (cur == a)) [
    | inl same ↦
        let is : cur ≡ a = (==_iff cur a).0 same in
        subst (λ x. (end_of f x == a || is_in (end_of f x) bs) ≡ false) (sym is)
          (ground (
            arith,
            behind a bs rest (subst (λ x. ((f x).next ≡ 0) ⊎ (end_of f x < (f x).next)) is gap),
          ))
    | inr other ↦
        let within : is_in cur bs ≡ true = ground (arith, other, h) in
        let above = is_in-le r hi f a (end_of f a) (f a).next cur bs rest within in
        ground (arith, above, not_in f a (end_of f a) (f a).next cur bs rest within gap)
  ]
    where
      behind :
          (a : ℕ) (bs : List ℕ)
          → Blocks r hi f a (end_of f a) (f a).next bs
          → ((f a).next ≡ 0) ⊎ (end_of f a < (f a).next)
          → is_in (end_of f a) bs ≡ false
      behind a [] v gap = refl
      behind a (m ∷ ms) v gap = elim (Bool-cases (is_in (end_of f a) ms)) [
        | inl bad ↦
            let far = is_in-le r hi f m (end_of f m) (f m).next (end_of f a) ms v.4 bad in
            absurd (omega (arith, far, v.2))
        | inr fine ↦ ground (arith, fine, gap, v.0, v.1)
      ]
