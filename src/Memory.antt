-- ===== src/Memory.antt =====
-- kernel/src/lib/memory.cpp: memcpy, memset, memmove and memcmp over a memory of bytes.
pub mod Copy
pub mod Compare
mod Tests
use podumat_os.Prelude.{ℕ, zero, suc, ◌+◌, Bool, ltb, ◌==◌, if◌then◌else◌, u8}

-- What each address holds.
abbrev pub Memory : Type 0
Memory = ℕ → ℕ

abbrev pub poke : Memory → ℕ → ℕ → Memory
poke m a v x = if x == a then v else m x

-- `pdest[i] = psrc[i]` for `left` values of `i`, upwards.
pub copy_up : (left i dest src : ℕ) → Memory → Memory
copy_up zero i dest src m = m
copy_up (suc left) i dest src m = copy_up left (i + 1) dest src (poke m (dest + i) (m (src + i)))

-- The same downwards, from `i - 1` to 0.
pub copy_down : (i dest src : ℕ) → Memory → Memory
copy_down zero dest src m = m
copy_down (suc i) dest src m = copy_down i dest src (poke m (dest + i) (m (src + i)))

pub memcpy : (dest src n : ℕ) → Memory → Memory
unfolding copy_up
memcpy dest src n m = copy_up n 0 dest src m

pub memmove : (dest src n : ℕ) → Memory → Memory
unfolding copy_up copy_down
memmove dest src n m =
    if ltb dest src
    then copy_up n 0 dest src m
    else if ltb src dest
    then copy_down n dest src m
    else m

pub memset_loop : (left i s c : ℕ) → Memory → Memory
memset_loop zero i s c m = m
memset_loop (suc left) i s c m = memset_loop left (i + 1) s c (poke m (s + i) (u8 c))

pub memset : (s c n : ℕ) → Memory → Memory
unfolding memset_loop
memset s c n m = memset_loop n 0 s c m

-- The results of `memcmp`: -1, 0 and 1.
pub data Sign : Type 0 where
  minus nil plus : Sign

pub memcmp_loop : (left i s1 s2 : ℕ) → Memory → Sign
memcmp_loop zero i s1 s2 m = nil
memcmp_loop (suc left) i s1 s2 m =
    let rest = memcmp_loop left (i + 1) s1 s2 m in
    if m (s1 + i) == m (s2 + i) then rest else if ltb (m (s1 + i)) (m (s2 + i)) then minus else plus

pub memcmp : (s1 s2 n : ℕ) → Memory → Sign
unfolding memcmp_loop
memcmp s1 s2 n m = memcmp_loop n 0 s1 s2 m
