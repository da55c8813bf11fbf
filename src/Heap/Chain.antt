-- ===== src/Heap/Chain.antt =====
-- A region that is put at the end of the list of the regions.
use podumat_os.Prelude.{
  ℕ, zero, suc, ◌<◌, ◌≡◌, ◌≢◌, refl, true, false, ◌||◌, List, [], ◌∷◌, ◌++◌, some, ◌==◌, length,
  arith, ap, subst, ◌∙◌, sym,
}
use podumat_os.Prelude.Members.{is_in}
use podumat_os.Heap.Store.{Region, Heap}
use podumat_os.Heap.{tail_loop}
use podumat_os.Heap.Gaps.{last_of}
use podumat_os.Heap.Regions.{Regions, SameLinks}

pub is_in-append_one : (x m : ℕ) (xs : List ℕ) → is_in x (xs ++ (m ∷ [])) ≡ (is_in x xs || x == m)
unfolding is_in
is_in-append_one x m [] = ground arith
is_in-append_one x m (a ∷ xs) = ground (arith, is_in-append_one x m xs)

pub last_of-is_in : (a : ℕ) (bs : List ℕ) → is_in (last_of a bs) (a ∷ bs) ≡ true
unfolding last_of is_in
last_of-is_in a [] = ground arith
last_of-is_in a (b ∷ bs) = ground (arith, last_of-is_in b bs)

-- How the links change where the region `m` is put behind `last`.
pub record Appended (f g : ℕ → Region) (last m : ℕ) : Type 0 where
  pub at_last : ((g last).prev ≡ (f last).prev) × ((g last).next ≡ m)
  pub at_new : ((g m).prev ≡ last) × ((g m).next ≡ 0)
  pub elsewhere : (x : ℕ) → x ≢ last → x ≢ m → SameLinks f g x

pub Regions-append :
    (f g : ℕ → Region) (prev p a m : ℕ) (bs : List ℕ)
    → Regions f prev p (a ∷ bs)
    → is_in m (a ∷ bs) ≡ false
    → 0 < m
    → Appended f g (last_of a bs) m
    → Regions g prev p ((a ∷ bs) ++ (m ∷ []))
unfolding last_of is_in
Regions-append f g prev p a m [] (e, pos, back, once, rest) off mpos k = (
  e,
  pos,
  k.at_last.0 ∙ back,
  ground (arith, off),
  (k.at_last.1, mpos, k.at_new.0, refl, k.at_new.1),
)
Regions-append f g prev p a m (b ∷ bs) (e, pos, back, once, rest) off mpos k =
    let off_rest : is_in m (b ∷ bs) ≡ false = ground (arith, off) in
    let not_last : a ≢ last_of b bs = λ z. distinct (last_of-is_in b bs) z in
    let (sp, sn) = k.elsewhere a not_last (λ z. ground (arith, off, z)) in
    (
      e,
      pos,
      sp ∙ back,
      is_in-append_one a m (b ∷ bs) ∙ ground (arith, once, off),
      subst (λ q. Regions g a q ((b ∷ bs) ++ (m ∷ []))) (sym sn)
          (Regions-append f g a (f a).next b m bs rest off_rest mpos k),
    )
  where
    distinct : is_in (last_of b bs) (b ∷ bs) ≡ true → a ≡ last_of b bs → ⊥
    distinct h z = absurd (cc (once, z, h))

-- The walk to the last region ends there.
pub tail_loop_lem :
    (h : Heap) (a : ℕ) (bs : List ℕ) (fuel prev p : ℕ)
    → Regions h.regions prev p (a ∷ bs)
    → length bs < fuel
    → tail_loop fuel h p ≡ some (last_of a bs)
unfolding tail_loop last_of
tail_loop_lem h a bs zero prev p v enough = absurd (omega (arith, enough))
tail_loop_lem h a [] (suc fuel) prev p (e, pos, back, once, rest) enough =
    let last : ((h.regions p).next == 0) ≡ true =
      ground (arith, rest, ap (λ x. (h.regions x).next) e) in
    simp last (ap some e)
tail_loop_lem h a (b ∷ bs) (suc fuel) prev p (e, pos, back, once, rest) enough =
    let more : ((h.regions p).next == 0) ≡ false =
      ground (arith, rest.0, rest.1, ap (λ x. (h.regions x).next) e) in
    simp more (
      tail_loop_lem h b bs fuel a (h.regions p).next
        (subst (λ x. Regions h.regions a (h.regions x).next (b ∷ bs)) (sym e) rest)
        (omega (arith, enough)))
