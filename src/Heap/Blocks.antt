-- ===== src/Heap/Blocks.antt =====
-- The blocks of a region: a doubly linked list in ascending order, without overlap.
use podumat_os.Prelude.{
  ℕ, ◌+◌, ◌≤◌, ◌<◌, ◌≡◌, ◌≢◌, refl, ◌⊎◌, inl, inr, true, ◌||◌, List, [], ◌∷◌, ◌==◌, if◌then◌else◌,
  ==_iff, Bool-cases, arith, ap, subst, ◌∙◌, sym,
}
use podumat_os.Prelude.Members.{is_in, insert_after}
use podumat_os.Heap.Store.{Block, block_magic, block_header}

-- The first byte behind the block at `a`.
abbrev pub end_of : (ℕ → Block) → ℕ → ℕ
end_of f a = a + block_header + (f a).size

module _ (r hi : ℕ) where
  -- A live header, with its link backwards.
  abbrev pub IsHeader : ℕ → Block → Type 0
  IsHeader prev b = (b.prev ≡ prev) × (b.region ≡ r) × (b.magic ≡ block_magic)

  -- From `p` the links lead through the blocks `bs`, which lie between `lo` and `hi`; `prev` is the
  -- block before them.
  abbrev pub Blocks : (ℕ → Block) → (prev lo p : ℕ) → List ℕ → Type 0
  Blocks f prev lo p [] = (p ≡ 0) × (lo ≤ hi)
  Blocks f prev lo p (a ∷ bs) =
      (p ≡ a) × (0 < a) × (lo ≤ a) × IsHeader prev (f a) × Blocks f a (end_of f a) (f a).next bs

  pub Blocks-le : (f : ℕ → Block) (prev lo p : ℕ) (bs : List ℕ) → Blocks f prev lo p bs → lo ≤ hi
  Blocks-le f prev lo p [] (e, le) = le
  Blocks-le f prev lo p (a ∷ bs) (e, pos, le, header, rest) =
      omega (arith, Blocks-le f a (end_of f a) (f a).next bs rest)

  pub is_in-le :
      (f : ℕ → Block) (prev lo p c : ℕ) (bs : List ℕ)
      → Blocks f prev lo p bs
      → is_in c bs ≡ true
      → lo ≤ c
  unfolding is_in
  is_in-le f prev lo p c [] v h = absurd (cc h)
  is_in-le f prev lo p c (a ∷ bs) (e, pos, le, header, rest) h =
      ground (arith, is_in-le f a (end_of f a) (f a).next c bs rest)

  pub is_in-end_of :
      (f : ℕ → Block) (prev lo p c : ℕ) (bs : List ℕ)
      → Blocks f prev lo p bs
      → is_in c bs ≡ true
      → end_of f c ≤ hi
  unfolding is_in
  is_in-end_of f prev lo p c [] v h = absurd (cc h)
  is_in-end_of f prev lo p c (a ∷ bs) (e, pos, le, header, rest) h = elim (Bool-cases (c == a)) [
    | inl same ↦
        subst (λ x. end_of f x ≤ hi) (sym ((==_iff c a).0 same))
          (Blocks-le f a (end_of f a) (f a).next bs rest)
    | inr other ↦ is_in-end_of f a (end_of f a) (f a).next c bs rest (ground (arith, other, h))
  ]

  -- The block behind a block is in the list.
  pub next-is_in :
      (f : ℕ → Block) (prev lo p c : ℕ) (bs : List ℕ)
      → Blocks f prev lo p bs
      → is_in c bs ≡ true
      → (f c).next ≢ 0
      → is_in (f c).next bs ≡ true
  unfolding is_in
  next-is_in f prev lo p c [] v h more = absurd (cc h)
  next-is_in f prev lo p c (a ∷ bs) (e, pos, le, header, rest) h more = elim (Bool-cases (c == a)) [
    | inl same ↦
        let is : c ≡ a = (==_iff c a).0 same in
        subst (λ x. ((f x).next == a || is_in (f x).next bs) ≡ true) (sym is)
          (of_head bs rest (subst (λ x. (f x).next ≢ 0) is more))
    | inr other ↦
        ground
          (arith, next-is_in f a (end_of f a) (f a).next c bs rest (ground (arith, other, h)) more)
  ]
    where
      of_head :
          (bs : List ℕ)
          → Blocks f a (end_of f a) (f a).next bs
          → (f a).next ≢ 0
          → ((f a).next == a || is_in (f a).next bs) ≡ true
      of_head [] w more = absurd (more w.0)
      of_head (m ∷ ms) w more = ground (arith, w.0)

  -- Only the headers at `lo` and above matter.
  pub Blocks-frame :
      (f g : ℕ → Block) (prev lo p : ℕ) (bs : List ℕ)
      → ((x : ℕ) → lo ≤ x → g x ≡ f x)
      → Blocks f prev lo p bs
      → Blocks g prev lo p bs
  Blocks-frame f g prev lo p [] same v = v
  Blocks-frame f g prev lo p (a ∷ bs) same (e, pos, le, header, rest) =
      let at = same a le in
      let tail = Blocks-frame f g a (end_of f a) (f a).next bs (λ x h. same x (omega arith)) rest in
      (
        e,
        pos,
        le,
        subst (IsHeader prev) (sym at) header,
        subst (λ (b : Block). Blocks g a (a + block_header + b.size) b.next bs) (sym at) tail,
      )

  pub Blocks-weaken :
      (f : ℕ → Block) (prev lo low p : ℕ) (bs : List ℕ)
      → low ≤ lo
      → Blocks f prev lo p bs
      → Blocks f prev low p bs
  Blocks-weaken f prev lo low p [] h (e, le) = (e, omega arith)
  Blocks-weaken f prev lo low p (a ∷ bs) h (e, pos, le, header, rest) =
      (e, pos, omega arith, header, rest)

  -- How the links change where `b` is put behind `cur`, before `n`, or before nothing if `n` is 0.
  pub record Linked (f g : ℕ → Block) (cur b n : ℕ) : Type 0 where
    pub at_cur : g cur ≡ record (f cur) { next = b }
    pub at_new : IsHeader cur (g b) × ((g b).next ≡ n)
    pub at_next : n ≢ 0 → g n ≡ record (f n) { prev = b }
    pub elsewhere : (x : ℕ) → x ≢ cur → x ≢ b → (x ≢ n) ⊎ (n ≡ 0) → g x ≡ f x

  -- The blocks behind the new one.
  behind_new :
      (f g : ℕ → Block) (a b : ℕ) (bs : List ℕ)
      → 0 < a
      → Blocks f a (end_of f a) (f a).next bs
      → b ≡ end_of f a
      → end_of g b ≤ (if (f a).next == 0 then hi else (f a).next)
      → Linked f g a b (f a).next
      → Blocks g b (end_of g b) (g b).next bs
  behind_new f g a b [] pos (e, le) at fits link = (link.at_new.1 ∙ e, ground (arith, e))
  behind_new f g a b (m ∷ ms) pos (e, mpos, le, header, rest) at fits link =
      let there : g m ≡ record (f m) { prev = b } =
        subst (λ x. g x ≡ record (f x) { prev = b }) e (link.at_next (omega (arith, e))) in
      let keeps : (g m).size ≡ (f m).size = ap (λ (x : Block). x.size) there in
      let goes : (g m).next ≡ (f m).next = ap (λ (x : Block). x.next) there in
      let above : end_of g b ≤ m = ground (arith, e, mpos) in
      (
        link.at_new.1 ∙ e,
        mpos,
        above,
        (
          ap (λ (x : Block). x.prev) there,
          ap (λ (x : Block). x.region) there ∙ header.1,
          ap (λ (x : Block). x.magic) there ∙ header.2,
        ),
        subst (λ (x : Block). Blocks g m (m + block_header + x.size) x.next ms) (sym there)
            (Blocks-frame f g m (end_of f m) (f m).next ms
              (λ x h.
                link.elsewhere x (omega arith) (omega (arith, above)) (inl (omega (arith, e))))
              rest),
      )

  pub insert_here :
      (f g : ℕ → Block) (prev lo p a b : ℕ) (bs : List ℕ)
      → Blocks f prev lo p (a ∷ bs)
      → b ≡ end_of f a
      → end_of g b ≤ (if (f a).next == 0 then hi else (f a).next)
      → Linked f g a b (f a).next
      → Blocks g prev lo p (a ∷ b ∷ bs)
  insert_here f g prev lo p a b bs (e, pos, le, header, rest) at fits link =
      let tail = behind_new f g a b bs pos rest at fits link in
      subst
        (λ (x : Block).
          (p ≡ a)
          × (0 < a)
          × (lo ≤ a)
          × IsHeader prev x
          × Blocks g a (a + block_header + x.size) x.next (b ∷ bs))
        (sym link.at_cur)
        (e, pos, le, header, (refl, omega (arith, at), omega (arith, at), link.at_new.0, tail))

  -- A block that fits behind `cur` leaves the region well-formed.
  pub Blocks-insert_after :
      (f g : ℕ → Block) (prev lo p cur b : ℕ) (bs : List ℕ)
      → Blocks f prev lo p bs
      → is_in cur bs ≡ true
      → b ≡ end_of f cur
      → end_of g b ≤ (if (f cur).next == 0 then hi else (f cur).next)
      → Linked f g cur b (f cur).next
      → Blocks g prev lo p (insert_after cur b bs)
  unfolding is_in insert_after
  Blocks-insert_after f g prev lo p cur b [] v h at fits link = absurd (cc h)
  Blocks-insert_after f g prev lo p cur b (a ∷ bs) (e, pos, le, header, rest) h at fits link =
      elim (Bool-cases (cur == a)) [
        | inl same ↦
            let cur_is : cur ≡ a = (==_iff cur a).0 same in
            simp same (
              insert_here f g prev lo p a b bs (e, pos, le, header, rest)
                (at ∙ ap (end_of f) cur_is)
                (subst (λ x. end_of g b ≤ (if (f x).next == 0 then hi else (f x).next)) cur_is fits)
                (subst (λ x. Linked f g x b (f x).next) cur_is link))
        | inr other ↦
            let within : is_in cur bs ≡ true = ground (arith, other, h) in
            let above = is_in-le f a (end_of f a) (f a).next cur bs rest within in
            let same : g a ≡ f a =
              link.elsewhere a (omega (arith, above)) (omega (arith, above, at))
                (inl (ground (arith, above, at, fits, pos))) in
            let tail =
              Blocks-insert_after f g a (end_of f a) (f a).next cur b bs rest within at fits link in
            simp other (
              e,
              pos,
              le,
              subst (IsHeader prev) (sym same) header,
              subst
                  (λ (x : Block).
                    Blocks g a (a + block_header + x.size) x.next (insert_after cur b bs))
                  (sym same) tail,
            )
      ]
