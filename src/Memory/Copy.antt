-- ===== src/Memory/Copy.antt =====
-- The copies against their specification: the destination comes to hold the old bytes of the source.
use podumat_os.Prelude.{
  ℕ, zero, suc, ◌+◌, ◌-◌, ◌≤◌, ◌≡◌, ◌⊎◌, inl, inr, ltb, leb, ◌&&◌, if◌then◌else◌, Bool-cases, arith,
  ◌∙◌, u8,
}
use podumat_os.Memory.{Memory, poke, copy_up, copy_down, memcpy, memmove, memset_loop, memset}

-- Byte `a` after `n` bytes from `src` are copied to `dest` at once.
abbrev pub copied : (dest src n : ℕ) → Memory → Memory
copied dest src n m a = if leb dest a && ltb a (dest + n) then m (src + (a - dest)) else m a

copy_up_lem :
    (left i dest src : ℕ) (m : Memory) (a : ℕ)
    → (dest ≤ src) ⊎ (src + (i + left) ≤ dest)
    → copy_up left i dest src m a
      ≡ (if leb (dest + i) a && ltb a (dest + (i + left)) then m (src + (a - dest)) else m a)
unfolding copy_up
copy_up_lem zero i dest src m a apart = ground arith
copy_up_lem (suc left) i dest src m a apart =
    copy_up_lem left (i + 1) dest src (poke m (dest + i) (m (src + i))) a (omega arith)
    ∙ grind arith

copy_down_lem :
    (i dest src : ℕ) (m : Memory) (a : ℕ)
    → src ≤ dest
    → copy_down i dest src m a ≡ copied dest src i m a
unfolding copy_down
copy_down_lem zero dest src m a order = ground arith
copy_down_lem (suc i) dest src m a order =
    copy_down_lem i dest src (poke m (dest + i) (m (src + i))) a order ∙ grind arith

-- `memmove` copies as if all bytes were read before the first is written, also where the two areas
-- overlap.
pub memmove_lem :
    (dest src n : ℕ) (m : Memory) (a : ℕ) → memmove dest src n m a ≡ copied dest src n m a
unfolding memmove
memmove_lem dest src n m a = elim (Bool-cases (ltb dest src)) [
  | inl up ↦ simp up (copy_up_lem n 0 dest src m a (ground (arith, up)) ∙ ground arith)
  | inr not_up ↦ simp not_up (elim (Bool-cases (ltb src dest)) [
    | inl down ↦ simp down (copy_down_lem n dest src m a (ground (arith, down)))
    | inr same ↦ simp same (ground (arith, not_up, same))
  ])
]

-- Where the destination does not begin inside the source behind its start, `memcpy` copies as if
-- all bytes were read before the first is written.
pub memcpy_lem :
    (dest src n : ℕ) (m : Memory) (a : ℕ)
    → (dest ≤ src) ⊎ (src + n ≤ dest)
    → memcpy dest src n m a ≡ copied dest src n m a
unfolding memcpy
memcpy_lem dest src n m a apart = copy_up_lem n 0 dest src m a (omega arith) ∙ ground arith

memset_loop_lem :
    (left i s c : ℕ) (m : Memory) (a : ℕ)
    → memset_loop left i s c m a ≡ (if leb (s + i) a && ltb a (s + (i + left)) then u8 c else m a)
unfolding memset_loop
memset_loop_lem zero i s c m a = ground arith
memset_loop_lem (suc left) i s c m a =
    memset_loop_lem left (i + 1) s c (poke m (s + i) (u8 c)) a ∙ ground arith

-- `memset` fills its area with the low byte of the value, and leaves the rest.
pub memset_lem :
    (s c n : ℕ) (m : Memory) (a : ℕ)
    → memset s c n m a ≡ (if leb s a && ltb a (s + n) then u8 c else m a)
unfolding memset
memset_lem s c n m a = memset_loop_lem n 0 s c m a ∙ ground arith
