-- ===== src/Strings.antt =====
-- kernel/src/lib/string.cpp: strlen, strcmp and strncmp over a memory of bytes. The result of a
-- comparison is the pair of the bytes whose difference the source returns. The loops that look for a
-- terminator have fuel, and `none` means that it ran out.
pub mod Order
mod Tests
use podumat_os.Prelude.{ℕ, zero, suc, ◌+◌, Bool, not, ◌&&◌, Option, none, some, ◌==◌, if◌then◌else◌}
use podumat_os.Memory.{Memory}

pub strlen_loop : (fuel len str : ℕ) → Memory → Option ℕ
strlen_loop zero len str m = none
strlen_loop (suc fuel) len str m =
    let rest = strlen_loop fuel (len + 1) str m in if m (str + len) == 0 then some len else rest

pub strlen : (fuel str : ℕ) → Memory → Option ℕ
unfolding strlen_loop
strlen fuel str m = strlen_loop fuel 0 str m

pub strcmp : (fuel s1 s2 : ℕ) → Memory → Option (ℕ × ℕ)
strcmp zero s1 s2 m = none
strcmp (suc fuel) s1 s2 m =
    let rest = strcmp fuel (s1 + 1) (s2 + 1) m in
    if not (m s1 == 0) && m s1 == m s2 then rest else some (m s1, m s2)

-- With `n` used up the result is 0.
pub strncmp : (n s1 s2 : ℕ) → Memory → ℕ × ℕ
strncmp zero s1 s2 m = (0, 0)
strncmp (suc n) s1 s2 m =
    let rest = strncmp n (s1 + 1) (s2 + 1) m in
    if not (m s1 == 0) && m s1 == m s2 then rest else (m s1, m s2)
