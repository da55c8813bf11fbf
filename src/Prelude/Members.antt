-- ===== src/Prelude/Members.antt =====
-- Whether a number is in a list, and the list without it.
use Prim.Native.Nat.{ℕ}
use mathlib.Core.Bool.{Bool, false, ◌||◌}
use mathlib.Core.List.{List, [], ◌∷◌}
use podumat_os.Prelude.Tests.{◌==◌, if◌then◌else◌}

unfoldable pub is_in : ℕ → List ℕ → Bool
is_in c [] = false
is_in c (d ∷ ds) = c == d || is_in c ds

-- The list without the first occurrence of `c`.
unfoldable pub erase : ℕ → List ℕ → List ℕ
erase c [] = []
erase c (d ∷ ds) = if c == d then ds else d ∷ erase c ds

-- The list with `b` behind the first occurrence of `c`.
unfoldable pub insert_after : ℕ → ℕ → List ℕ → List ℕ
insert_after c b [] = []
insert_after c b (d ∷ ds) = if c == d then d ∷ b ∷ ds else d ∷ insert_after c b ds
