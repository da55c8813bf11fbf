-- ===== src/Heap/Unlink.antt =====
-- A block that leaves the list of its region.
use podumat_os.Prelude.{
  ℕ, ◌+◌, ◌≤◌, ◌<◌, ◌≡◌, ◌≢◌, ◌⊎◌, inl, inr, true, List, [], ◌∷◌, ◌==◌, ==_iff, Bool-cases, arith,
  ap, subst, ◌∙◌, sym,
}
use podumat_os.Prelude.Members.{is_in, erase}
use podumat_os.Heap.Store.{Block, block_header}
use podumat_os.Heap.Blocks.{end_of, IsHeader, Blocks, is_in-le, Blocks-frame}

module _ (r hi : ℕ) where
  -- How the links change where `b`, which stands between `p` and `n`, is taken out; 0 is no block.
  pub record Unlinked (f g : ℕ → Block) (b p n : ℕ) : Type 0 where
    pub at_prev : p ≢ 0 → g p ≡ record (f p) { next = n }
    pub at_next : n ≢ 0 → g n ≡ record (f n) { prev = p }
    pub elsewhere : (x : ℕ) → x ≢ b → x ≢ p → x ≢ n → g x ≡ f x

  -- The blocks behind `b`, now behind `p`.
  pub behind_gone :
      (f g : ℕ → Block) (p lo b : ℕ) (bs : List ℕ)
      → p < b
      → lo ≤ end_of f b
      → Blocks r hi f b (end_of f b) (f b).next bs
      → Unlinked f g b p (f b).next
      → Blocks r hi g p lo (f b).next bs
  behind_gone f g p lo b [] below le (e, room) gone = (e, omega arith)
  behind_gone f g p lo b (m ∷ ms) below le (e, pos, at, header, rest) gone =
      let there : g m ≡ record (f m) { prev = p } =
        subst (λ x. g x ≡ record (f x) { prev = p }) e (gone.at_next (omega (arith, e))) in
      (
        e,
        pos,
        omega arith,
        (
          ap (λ (x : Block). x.prev) there,
          ap (λ (x : Block). x.region) there ∙ header.1,
          ap (λ (x : Block). x.magic) there ∙ header.2,
        ),
        subst (λ (x : Block). Blocks r hi g m (m + block_header + x.size) x.next ms) (sym there)
            (Blocks-frame r hi f g m (end_of f m) (f m).next ms
              (λ x h. gone.elsewhere x (omega arith) (omega arith) (omega (arith, e))) rest),
      )

  pub prev_cases :
      (f : ℕ → Block) (prev lo q b : ℕ) (bs : List ℕ)
      → Blocks r hi f prev lo q bs
      → is_in b bs ≡ true
      → ((f b).prev ≡ prev) ⊎ (lo ≤ (f b).prev)
  unfolding is_in
  prev_cases f prev lo q b [] v h = absurd (cc h)
  prev_cases f prev lo q b (a ∷ bs) (e, pos, le, header, rest) h = elim (Bool-cases (b == a)) [
    | inl same ↦ inl (ap (λ x. (f x).prev) ((==_iff b a).0 same) ∙ header.0)
    | inr other ↦
        elim (prev_cases f a (end_of f a) (f a).next b bs rest (ground (arith, other, h))) [
          | inl first ↦ inr (omega (arith, first))
          | inr later ↦ inr (omega arith)
        ]
  ]

  pub next_cases :
      (f : ℕ → Block) (prev lo q b : ℕ) (bs : List ℕ)
      → Blocks r hi f prev lo q bs
      → is_in b bs ≡ true
      → ((f b).next ≡ 0) ⊎ (end_of f b ≤ (f b).next)
  unfolding is_in
  next_cases f prev lo q b [] v h = absurd (cc h)
  next_cases f prev lo q b (a ∷ bs) (e, pos, le, header, rest) h = elim (Bool-cases (b == a)) [
    | inl same ↦
        subst (λ x. ((f x).next ≡ 0) ⊎ (end_of f x ≤ (f x).next)) (sym ((==_iff b a).0 same))
          (next_of a bs rest)
    | inr other ↦ next_cases f a (end_of f a) (f a).next b bs rest (ground (arith, other, h))
  ]
    where
      next_of :
          (a : ℕ) (bs : List ℕ)
          → Blocks r hi f a (end_of f a) (f a).next bs
          → ((f a).next ≡ 0) ⊎ (end_of f a ≤ (f a).next)
      next_of a [] v = inl v.0
      next_of a (m ∷ ms) v = inr (omega (arith, v.0, v.2))

  -- The first block is taken out.
  pub Blocks-tail :
      (f g : ℕ → Block) (lo b : ℕ) (bs : List ℕ)
      → Blocks r hi f 0 lo b (b ∷ bs)
      → Unlinked f g b 0 (f b).next
      → Blocks r hi g 0 lo (f b).next bs
  Blocks-tail f g lo b bs (e, pos, le, header, rest) gone =
      behind_gone f g 0 lo b bs pos (omega arith) rest gone

  -- A later block is taken out.
  pub Blocks-erase :
      (f g : ℕ → Block) (prev lo q a b : ℕ) (bs : List ℕ)
      → Blocks r hi f prev lo q (a ∷ bs)
      → is_in b bs ≡ true
      → Unlinked f g b (f b).prev (f b).next
      → Blocks r hi g prev lo q (a ∷ erase b bs)
  unfolding is_in erase
  Blocks-erase f g prev lo q a b [] v h gone = absurd (cc h)
  Blocks-erase f g prev lo q a b (c ∷ cs) (e, pos, le, header, rest) h gone =
      elim (Bool-cases (b == c)) [
        | inl same ↦
            let b_is : b ≡ c = (==_iff b c).0 same in
            simp same (
              here cs
                (subst (λ x. Blocks r hi f a (end_of f a) (f a).next (x ∷ cs)) (sym b_is) rest))
        | inr other ↦
            let within : is_in b cs ≡ true = ground (arith, other, h) in
            let tail = rest.4 in
            let above = is_in-le r hi f c (end_of f c) (f c).next b cs tail within in
            let back = prev_cases f c (end_of f c) (f c).next b cs tail within in
            let on = next_cases f c (end_of f c) (f c).next b cs tail within in
            let kept : g a ≡ f a =
              gone.elsewhere a (omega (arith, above)) (ground (arith, back, rest.2))
                (ground (arith, on, above, pos, rest.2)) in
            let more = Blocks-erase f g a (end_of f a) (f a).next c b cs rest within gone in
            simp other (
              e,
              pos,
              le,
              subst (IsHeader r hi prev) (sym kept) header,
              subst
                  (λ (x : Block).
                    Blocks r hi g a (a + block_header + x.size) x.next (c ∷ erase b cs))
                  (sym kept) more,
            )
      ]
    where
      here :
          (cs : List ℕ)
          → Blocks r hi f a (end_of f a) (f a).next (b ∷ cs)
          → Blocks r hi g prev lo q (a ∷ cs)
      here cs (e', pos', le', header', rest') =
          let back : (f b).prev ≡ a = header'.0 in
          let gone' = subst (λ x. Unlinked f g b x (f b).next) back gone in
          let at : g a ≡ record (f a) { next = (f b).next } = gone'.at_prev (omega arith) in
          let tail = behind_gone f g a (end_of f a) b cs (omega arith) (omega arith) rest' gone' in
          subst
            (λ (x : Block).
              (q ≡ a)
              × (0 < a)
              × (lo ≤ a)
              × IsHeader r hi prev x
              × Blocks r hi g a (a + block_header + x.size) x.next cs)
            (sym at) (e, pos, le, header, tail)
