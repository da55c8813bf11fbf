-- ===== src/Heap/Regions.antt =====
-- The regions of the heap: a doubly linked list, in no order, and how a region leaves it.
use podumat_os.Prelude.{
  ℕ, zero, suc, ◌<◌, ◌≡◌, refl, ◌⊎◌, inl, inr, true, false, ◌||◌, List, [], ◌∷◌, some, ◌==◌,
  if◌then◌else◌, length, ltb, ==_iff, Bool-cases, arith, ap, subst, ◌∙◌, sym,
}
use podumat_os.Prelude.Members.{is_in}
use podumat_os.Heap.Store.{Region, Heap}
use podumat_os.Heap.{best_loop, free_bytes}

-- From `p` the links lead through the regions `rs`, each once; `prev` is the region before them.
abbrev pub Regions : (ℕ → Region) → (prev p : ℕ) → List ℕ → Type 0
Regions f prev p [] = p ≡ 0
Regions f prev p (a ∷ bs) =
    (p ≡ a) × (0 < a) × ((f a).prev ≡ prev) × (is_in a bs ≡ false) × Regions f a (f a).next bs

-- `g` links the region `x` as `f` does.
abbrev pub SameLinks : (f g : ℕ → Region) → ℕ → Type 0
SameLinks f g x = ((g x).prev ≡ (f x).prev) × ((g x).next ≡ (f x).next)

pub Regions-frame :
    (f g : ℕ → Region) (prev p : ℕ) (rs : List ℕ)
    → ((x : ℕ) → is_in x rs ≡ true → SameLinks f g x)
    → Regions f prev p rs
    → Regions g prev p rs
unfolding is_in
Regions-frame f g prev p [] same v = v
Regions-frame f g prev p (a ∷ bs) same (e, pos, back, once, rest) =
    let (sp, sn) = same a (ground arith) in
    (
      e,
      pos,
      sp ∙ back,
      once,
      subst (λ q. Regions g a q bs) (sym sn)
          (Regions-frame f g a (f a).next bs (λ x h. same x (ground (arith, h))) rest),
    )

pub is_in-positive :
    (f : ℕ → Region) (prev p x : ℕ) (rs : List ℕ) → Regions f prev p rs → is_in x rs ≡ true → 0 < x
unfolding is_in
is_in-positive f prev p x [] v h = absurd (cc h)
is_in-positive f prev p x (a ∷ bs) (e, pos, back, once, rest) h = elim (Bool-cases (x == a)) [
  | inl same ↦ ground (arith, same, pos)
  | inr other ↦ is_in-positive f a (f a).next x bs rest (ground (arith, other, h))
]

-- The region before and the region behind a region of the list.
pub neighbours :
    (f : ℕ → Region) (prev p x : ℕ) (rs : List ℕ)
    → Regions f prev p rs
    → is_in x rs ≡ true
    → (((f x).prev ≡ prev) ⊎ (is_in (f x).prev rs ≡ true))
      × (((f x).next ≡ 0) ⊎ (is_in (f x).next rs ≡ true))
unfolding is_in
neighbours f prev p x [] v h = absurd (cc h)
neighbours f prev p x (a ∷ bs) (e, pos, back, once, rest) h = elim (Bool-cases (x == a)) [
  | inl same ↦
      let is : x ≡ a = (==_iff x a).0 same in
      (inl (ap (λ y. (f y).prev) is ∙ back), behind bs rest is)
  | inr other ↦
      let (before, after) = neighbours f a (f a).next x bs rest (ground (arith, other, h)) in
      (ground (arith, before), ground (arith, after))
]
  where
    behind :
        (bs : List ℕ)
        → Regions f a (f a).next bs
        → x ≡ a
        → ((f x).next ≡ 0) ⊎ (((f x).next == a || is_in (f x).next bs) ≡ true)
    behind [] w is = inl (ap (λ y. (f y).next) is ∙ w)
    behind (m ∷ ms) w is = inr (ground (arith, ap (λ y. (f y).next) is, w.0))

-- A scan of the list ends within `length rs` rounds, and what it finds is `best` or a region.
pub best_loop_ends :
    (h : Heap) (rs : List ℕ) (fuel prev p best_free best : ℕ)
    → Regions h.regions prev p rs
    → length rs < fuel
    → (b : ℕ) × (best_loop fuel h p best_free best ≡ some b) × ((b ≡ best) ⊎ (is_in b rs ≡ true))
unfolding best_loop is_in
best_loop_ends h rs zero prev p best_free best v enough = absurd (omega (arith, enough))
best_loop_ends h [] (suc fuel) prev p best_free best v enough = (best, simp v refl, inl refl)
best_loop_ends h (a ∷ bs) (suc fuel) prev p best_free best (e, pos, back, once, rest) enough =
    let more : (p == 0) ≡ false = ground (arith, e, pos) in
    let links = subst (λ x. Regions h.regions a (h.regions x).next bs) (sym e) rest in
    let free =
      (if ltb best_free (free_bytes (h.regions p)) then free_bytes (h.regions p) else best_free) in
    let hint = (if ltb best_free (free_bytes (h.regions p)) then p else best) in
    let (b, found, what) =
      best_loop_ends h bs fuel a (h.regions p).next free hint links (omega (arith, enough)) in
    let which : (hint ≡ best) ⊎ (hint ≡ a) = ground (arith, e) in
    (b, simp (more, found) refl, ground (arith, what, which))
