-- ===== src/Heap/Cut.antt =====
-- A region leaves the list of the regions.
use podumat_os.Prelude.{
  ℕ, ◌≡◌, ◌≢◌, refl, ◌⊎◌, inl, inr, true, false, List, [], ◌∷◌, ◌==◌, if◌then◌else◌, ==_iff,
  Bool-cases, arith, subst, ◌∙◌, sym,
}
use podumat_os.Prelude.Members.{is_in, erase}
use podumat_os.Heap.Store.{Region}
use podumat_os.Heap.Regions.{Regions, SameLinks, Regions-frame, is_in-positive, neighbours}

-- How the links change where the region `b`, which stands between `p` and `n`, is taken out.
pub record Cut (f g : ℕ → Region) (p n : ℕ) : Type 0 where
  pub at_prev : p ≢ 0 → ((g p).prev ≡ (f p).prev) × ((g p).next ≡ n)
  pub at_next : n ≢ 0 → ((g n).prev ≡ p) × ((g n).next ≡ (f n).next)
  pub elsewhere : (x : ℕ) → x ≢ p → x ≢ n → SameLinks f g x

pub differ : (x y : ℕ) (xs : List ℕ) → is_in x xs ≡ true → is_in y xs ≡ false → x ≢ y
differ x y xs h k e = absurd (cc (h, k, e))

pub is_in-erase : (x b : ℕ) (xs : List ℕ) → is_in x xs ≡ false → is_in x (erase b xs) ≡ false
unfolding is_in erase
is_in-erase x b [] off = refl
is_in-erase x b (a ∷ xs) off = elim (Bool-cases (b == a)) [
  | inl same ↦ simp same (ground (arith, off))
  | inr other ↦ simp other (ground (arith, off, is_in-erase x b xs (ground (arith, off))))
]

behind-Cut :
    (f g : ℕ → Region) (b p q : ℕ) (bs : List ℕ)
    → is_in p bs ≡ false
    → Regions f b q bs
    → Cut f g p q
    → Regions g p q bs
unfolding is_in
behind-Cut f g b p q [] off v cut = v
behind-Cut f g b p q (m ∷ ms) off (e, pos, back, once, rest) cut =
    let (bk, nx) = cut.at_next (omega (arith, e, pos)) in
    (
      e,
      pos,
      subst (λ x. (g x).prev ≡ p) e bk,
      once,
      subst (λ x. Regions g m x ms) (sym (subst (λ x. (g x).next ≡ (f x).next) e nx))
          (Regions-frame f g m (f m).next ms
            (λ x h.
              cut.elsewhere x (differ x p ms h (ground (arith, off)))
                (λ z. differ x m ms h once (z ∙ e)))
            rest),
    )

-- The region `b` is the first one, or it stands behind `a`.
Regions-tail :
    (f g : ℕ → Region) (b : ℕ) (bs : List ℕ)
    → Regions f 0 b (b ∷ bs)
    → Cut f g 0 (f b).next
    → Regions g 0 (f b).next bs
Regions-tail f g b bs (e, pos, back, once, rest) cut =
    behind-Cut f g b 0 (f b).next bs (not_zero bs rest) rest cut
  where
    not_zero : (bs : List ℕ) → Regions f b (f b).next bs → is_in 0 bs ≡ false
    not_zero bs rest = elim (Bool-cases (is_in 0 bs)) [
      | inl bad ↦ absurd (omega (arith, is_in-positive f b (f b).next 0 bs rest bad))
      | inr fine ↦ fine
    ]

Regions-later :
    (f g : ℕ → Region) (prev p a b : ℕ) (bs : List ℕ)
    → Regions f prev p (a ∷ bs)
    → is_in b bs ≡ true
    → Cut f g (f b).prev (f b).next
    → Regions g prev p (a ∷ erase b bs)
unfolding is_in erase
Regions-later f g prev p a b [] v h cut = absurd (cc h)
Regions-later f g prev p a b (c ∷ cs) (e, pos, back, once, rest) h cut =
    elim (Bool-cases (b == c)) [
      | inl same ↦
          let is : b ≡ c = (==_iff b c).0 same in
          simp same (
            here cs (subst (λ x. Regions f a (f a).next (x ∷ cs)) (sym is) rest)
              (ground (arith, once)))
      | inr other ↦
          let within : is_in b cs ≡ true = ground (arith, other, h) in
          let (before, after) = neighbours f c (f c).next b cs rest.4 within in
          let (kp, kn) = cut.elsewhere a (off_prev before) (off_next after) in
          let more = Regions-later f g a (f a).next c b cs rest within cut in
          let once' : is_in a (c ∷ erase b cs) ≡ false =
            ground (arith, once, is_in-erase a b cs (ground (arith, once))) in
          simp other
            (e, pos, kp ∙ back, once', subst (λ x. Regions g a x (c ∷ erase b cs)) (sym kn) more)
    ]
  where
    off_cs : is_in a cs ≡ false
    off_cs = ground (arith, once)

    here :
        (cs : List ℕ)
        → Regions f a (f a).next (b ∷ cs)
        → is_in a cs ≡ false
        → Regions g prev p (a ∷ cs)
    here cs (e', pos', back', once', rest') off =
        let cut' = subst (λ x. Cut f g x (f b).next) back' cut in
        let (kp, kn) = cut'.at_prev (omega (arith, pos)) in
        (
          e,
          pos,
          kp ∙ back,
          off,
          subst (λ x. Regions g a x cs) (sym kn) (behind-Cut f g b a (f b).next cs off rest' cut'),
        )

    off_prev : ((f b).prev ≡ c) ⊎ (is_in (f b).prev cs ≡ true) → a ≢ (f b).prev
    off_prev (inl i) z = ground (arith, once, z, i)
    off_prev (inr i) z = differ (f b).prev a cs i off_cs (sym z)

    off_next : ((f b).next ≡ 0) ⊎ (is_in (f b).next cs ≡ true) → a ≢ (f b).next
    off_next (inl i) z = omega (arith, pos, z, i)
    off_next (inr i) z = differ (f b).next a cs i off_cs (sym z)

-- A region is taken out of the list.
pub Regions-release :
    (f g : ℕ → Region) (first start b : ℕ) (rs : List ℕ)
    → Regions f 0 first rs
    → is_in b rs ≡ true
    → Cut f g (f b).prev (f b).next
    → start ≡ (if first == b then (f b).next else first)
    → Regions g 0 start (erase b rs)
unfolding is_in erase
Regions-release f g first start b [] v h cut now = absurd (cc h)
Regions-release f g first start b (a ∷ bs) v h cut now = elim (Bool-cases (b == a)) [
  | inl same ↦
      let is : b ≡ a = (==_iff b a).0 same in
      let whole : Regions f 0 b (b ∷ bs) =
        subst (λ x. Regions f 0 x (x ∷ bs)) (sym is) (refl, v.1, v.2, v.3, v.4) in
      let now' : start ≡ (f b).next = ground (arith, now, v.0, is) in
      simp same (
        subst (λ x. Regions g 0 x bs) (sym now')
          (Regions-tail f g b bs whole (subst (λ x. Cut f g x (f b).next) whole.2 cut)))
  | inr other ↦
      let now' : start ≡ first = ground (arith, now, v.0, other) in
      simp other (
        subst (λ x. Regions g 0 x (a ∷ erase b bs)) (sym now')
          (Regions-later f g 0 first a b bs v (ground (arith, other, h)) cut))
]

-- A list has each region once.
pub erased :
    (f : ℕ → Region) (prev p x : ℕ) (b : ℕ) (rs : List ℕ)
    → Regions f prev p rs
    → is_in x (erase b rs) ≡ true
    → (is_in x rs ≡ true) × (x ≢ b)
unfolding is_in erase
erased f prev p x b [] v h = absurd (cc h)
erased f prev p x b (a ∷ bs) (e, pos, back, once, rest) h = elim (Bool-cases (b == a)) [
  | inl same ↦
      let is : b ≡ a = (==_iff b a).0 same in
      let left : is_in x bs ≡ true =
        subst (λ t. is_in x (if t then bs else a ∷ erase b bs) ≡ true) same h in
      (ground (arith, left), λ z. differ x a bs left once (z ∙ is))
  | inr other ↦
      let left : is_in x (a ∷ erase b bs) ≡ true =
        subst (λ t. is_in x (if t then bs else a ∷ erase b bs) ≡ true) other h in
      elim (Bool-cases (x == a)) [
        | inl top ↦ (ground (arith, top), λ z. ground (arith, top, other, z))
        | inr deep ↦
            let (within, apart) = erased f a (f a).next x b bs rest (ground (arith, left, deep)) in
            (ground (arith, within), apart)
      ]
]

-- A region is not its own neighbour, and its neighbours are different.
pub proper :
    (f : ℕ → Region) (prev p x : ℕ) (rs : List ℕ)
    → Regions f prev p rs
    → is_in x rs ≡ true
    → is_in prev rs ≡ false
    → ((f x).prev ≢ x) × ((f x).next ≢ x) × (((f x).prev ≢ (f x).next) ⊎ ((f x).next ≡ 0))
unfolding is_in
proper f prev p x [] v h off = absurd (cc h)
proper f prev p x (a ∷ bs) (e, pos, back, once, rest) h off = elim (Bool-cases (x == a)) [
  | inl same ↦
      let is : x ≡ a = (==_iff x a).0 same in
      subst
        (λ y. ((f y).prev ≢ y) × ((f y).next ≢ y) × (((f y).prev ≢ (f y).next) ⊎ ((f y).next ≡ 0)))
        (sym is)
        (
          λ z. ground (arith, back, off, z),
          head_next bs rest once,
          head_both bs rest (ground (arith, off)),
        )
  | inr other ↦ proper f a (f a).next x bs rest (ground (arith, other, h)) once
]
  where
    head_next : (bs : List ℕ) → Regions f a (f a).next bs → is_in a bs ≡ false → (f a).next ≢ a
    head_next [] v once z = omega (arith, v, z, pos)
    head_next (m ∷ ms) v once z = ground (arith, v.0, once, z)

    head_both :
        (bs : List ℕ)
        → Regions f a (f a).next bs
        → is_in prev bs ≡ false
        → ((f a).prev ≢ (f a).next) ⊎ ((f a).next ≡ 0)
    head_both [] v off = inr v
    head_both (m ∷ ms) v off = inl (λ z. ground (arith, v.0, off, z, back))
