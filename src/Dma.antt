-- ===== src/Dma.antt =====
-- kernel/src/drivers/dma.cpp: buffers for devices, on top of the page allocator.
pub mod Buffers
mod Tests
use podumat_os.Prelude.{
  ℕ, ◌+◌, ◌-◌, ◌/◌, Bool, true, false, not, ◌&&◌, ◌||◌, Option, none, some, List, [], ◌∷◌, ltb, leb,
  ◌==◌, if◌then◌else◌, u64,
}
use podumat_os.Phys.{Phys, page_size, add64, alloc_pages}
use podumat_os.Phys.Init.{MemmapEntry, Memmap}
use podumat_os.Phys.Init as Pages

pub record Dma : Type 0 where
  pub hhdm_offset : ℕ
  pub phys_base : ℕ
  pub size : ℕ
  pub ready : Bool

abbrev pub min_base : ℕ
min_base = 0x100000

module _ (usable : ℕ) where
  abbrev pub is_buffer_area : MemmapEntry → Bool
  is_buffer_area e = e.kind == usable && leb min_base e.base

  -- The loop of `init`: the largest usable area above the first megabyte.
  pub largest : Dma → Memmap → Dma
  largest d [] = d
  largest d (none ∷ rest) = largest d rest
  largest d (some e ∷ rest) =
      largest
        (if is_buffer_area e && ltb d.size e.length
          then record d { phys_base = e.base; size = e.length }
          else d)
        rest

  cleared : ℕ → Dma
  cleared hhdm = record { hhdm_offset = hhdm; phys_base = 0; size = 0; ready = false }

  pub init : Option Memmap → ℕ → Phys → Dma × Phys
  unfolding largest cleared
  init none hhdm s = (cleared hhdm, s)
  init (some memmap) hhdm s =
      let t = Pages.init usable (some memmap) hhdm s in
      (
        if t.initialized
            then record (largest (cleared hhdm) memmap) { ready = true }
            else cleared hhdm,
        t,
      )

-- The address that `alloc` returns for what `alloc_pages` gave.
pub in_hhdm : Dma → ℕ × Phys → ℕ × Phys
in_hhdm d (phys, s) = (if phys == 0 then 0 else add64 phys d.hhdm_offset, s)

pub alloc : (size alignment : ℕ) → Dma → Phys → ℕ × Phys
unfolding in_hhdm
alloc size alignment d s =
    if not d.ready || size == 0
    then (0, s)
    else if ltb page_size (if alignment == 0 then 1 else alignment)
    then (0, s)
    else in_hhdm d (alloc_pages (u64 (size + page_size - 1) / page_size) s)

pub map : Dma → ℕ → ℕ
map d v =
    if v == 0
    then 0
    else if not (d.hhdm_offset == 0) && leb d.hhdm_offset v
    then v - d.hhdm_offset
    else v

pub stop : Dma → Dma
stop d = record d { ready = false }
