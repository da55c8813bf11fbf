-- ===== src/Registry.antt =====
-- kernel/src/lib/driver_registry.cpp: the table of the drivers that start-up reports. A name is the
-- address of its text.
use podumat_os.Prelude.{
  ℕ, suc, zero, ◌+◌, ◌≤◌, ◌<◌, ◌≡◌, refl, inl, inr, Bool, true, false, Option, none, some, List, [],
  ◌∷◌, ◌++◌, length, length-set, set, get_or, take, ltb, if◌then◌else◌, Bool-cases, arith, ap, ◌∙◌,
}

pub record Entry : Type 0 where
  pub name : ℕ
  pub description : ℕ
  pub ok : Bool

pub record Registry : Type 0 where
  pub entries : List Entry
  pub count : ℕ

abbrev pub max_drivers : ℕ
max_drivers = 32

pub clear : Registry → Registry
clear r = record r { count = 0 }

pub add : Entry → Registry → Registry
add e r =
    if ltb r.count max_drivers
    then record { entries = set r.entries r.count e; count = r.count + 1 }
    else r

-- An index below 0 is not modelled; the pointer that the source returns is the entry.
pub get : ℕ → Registry → Option Entry
get index r =
    if ltb index r.count
    then some (get_or r.entries index (record { name = 0; description = 0; ok = false }))
    else none

-- The array has its 32 entries, and the count is at most that.
pub record IsRegistry (r : Registry) : Type 0 where
  pub long : length r.entries ≡ max_drivers
  pub bound : r.count ≤ max_drivers

-- The drivers that were added, oldest first.
abbrev pub listed : Registry → List Entry
listed r = take r.count r.entries

take-set :
    (xs : List Entry) (n : ℕ) (e : Entry)
    → n < length xs
    → take (n + 1) (set xs n e) ≡ take n xs ++ (e ∷ [])
take-set [] n e h = absurd (omega (arith, h))
take-set (x ∷ xs) zero e h = refl
take-set (x ∷ xs) (suc n) e h =
    let one_more : suc n + 1 ≡ suc (n + 1) = omega arith in
    ap (λ k. take k (x ∷ set xs n e)) one_more
    ∙ ap (λ ys. x ∷ ys) (take-set xs n e (omega (arith, h)))

length_listed : (n : ℕ) (xs : List Entry) → n ≤ length xs → length (take n xs) ≡ n
length_listed zero xs h = refl
length_listed (suc n) [] h = absurd (omega (arith, h))
length_listed (suc n) (x ∷ xs) h = ap suc (length_listed n xs (omega (arith, h)))

-- On a registry within its bounds `add` appends a driver to the list of those that it has while they
-- are fewer than 32, and drops it after that; the bounds are kept.
pub add_lem :
    (e : Entry) (r : Registry)
    → IsRegistry r
    → IsRegistry (add e r)
      × (listed (add e r)
          ≡ (if ltb (length (listed r)) max_drivers then listed r ++ (e ∷ []) else listed r))
unfolding add
add_lem e r v =
    let len = length_listed r.count r.entries (omega (arith, v.bound, v.long)) in
    elim (Bool-cases (ltb r.count max_drivers)) [
      | inl room ↦
          let room' : ltb (length (listed r)) max_drivers ≡ true = ground (arith, room, len) in
          let below : r.count < length r.entries = ground (arith, room, v.long) in
          simp (room, room')
            (
              record {
                long = length-set r.entries r.count e ∙ v.long;
                bound = ground (arith, room);
              },
              take-set r.entries r.count e below,
            )
      | inr full ↦
          let full' : ltb (length (listed r)) max_drivers ≡ false = ground (arith, full, len) in
          simp (full, full') (v, refl)
    ]
