-- ===== src/Phys/Init.antt =====
-- phys::init and reserve_bitmap_storage. `usable` is LIMINE_MEMMAP_USABLE of the boot protocol.
use podumat_os.Prelude.{
  ℕ, zero, suc, ◌+◌, ◌-◌, ◌*◌, ◌/◌, ◌%◌, ◌^◌, ◌≤◌, ◌<◌, ◌≡◌, ◌≢◌, refl, ◌⊎◌, inl, inr, Bool, true,
  false, not, List, [], ◌∷◌, ◌++◌, Option, none, some, ltb, leb, ◌==◌, if◌then◌else◌, length,
  get_or, set, ==_iff, Bool-cases, Option-cases, arith, ◌&&◌, ◌||◌, ap, ◌∙◌, sym, u64, ltb→lt,
  ltb→le, leb→le, leb→lt, lt→ltb, replicate, map,
}
pub mod Marks
pub mod Offered
pub mod Top
pub mod Ready
use podumat_os.Phys.{Phys, page_size, add64, sub64, bit_set, bit_clear, bit_test}

-- `limine_memmap_entry`; a null pointer in the array of entries is `none`.
pub record MemmapEntry : Type 0 where
  pub base : ℕ
  pub length : ℕ
  pub kind : ℕ

abbrev pub Memmap : Type 0
Memmap = List (Option MemmapEntry)

abbrev pub low_reserved : ℕ
low_reserved = 0x100000

pub init_state : Phys
init_state = record {
  bitmap = [];
  bitmap_size = 0;
  total_pages = 0;
  free_pages = 0;
  used_pages = 0;
  hhdm_offset = 0;
  initialized = false;
  last_alloc_page = 0;
}

-- `(x + PAGE_SIZE - 1) / PAGE_SIZE`
abbrev pub pages_up : ℕ → ℕ
pages_up x = sub64 (add64 x page_size) 1 / page_size

module _ (usable : ℕ) where
  unfoldable pub max_addr : ℕ → Memmap → ℕ
  max_addr top [] = top
  max_addr top (none ∷ rest) = max_addr top rest
  max_addr top (some e ∷ rest) =
      max_addr
        (if not (e.kind == usable)
          then top
          else if ltb top (add64 e.base e.length)
          then add64 e.base e.length
          else top)
        rest

  -- Where in entry `e` the bitmap fits, above the first megabyte.
  unfoldable pub candidate : ℕ → MemmapEntry → Option ℕ
  candidate size e =
      let skip = low_reserved - e.base in
      if not (e.kind == usable)
      then none
      else if ltb e.length size
      then none
      else if ltb e.base low_reserved
      then if leb e.length skip
        then none
        else if ltb (e.length - skip) size
        then none
        else some (e.base + skip)
      else some e.base

  first_of_two : Option ℕ → ℕ → ℕ
  first_of_two none later = later
  first_of_two (some a) later = a

  unfoldable pub reserve_bitmap_storage : Memmap → ℕ → ℕ
  unfolding first_of_two
  reserve_bitmap_storage [] size = 0
  reserve_bitmap_storage (none ∷ rest) size = reserve_bitmap_storage rest size
  reserve_bitmap_storage (some e ∷ rest) size =
      first_of_two (candidate size e) (reserve_bitmap_storage rest size)

pub first_page : MemmapEntry → ℕ
first_page e = if ltb (pages_up e.base) 256 then 256 else pages_up e.base

pub end_page : MemmapEntry → ℕ → ℕ
end_page e total =
    if ltb total (add64 e.base e.length / page_size)
    then total
    else add64 e.base e.length / page_size

-- The loop that frees the pages of one entry, from page `p`.
pub clear_run : Phys → ℕ → ℕ → Phys
clear_run s p zero = s
clear_run s p (suc left) =
    clear_run
      (record s {
        bitmap = bit_clear s.bitmap p;
        free_pages = add64 s.free_pages 1;
        used_pages = sub64 s.used_pages 1;
      })
      (p + 1) left

pub keep_one : Phys → ℕ → Phys
keep_one s p = if bit_test s.bitmap p then s else record s {
  bitmap = bit_set s.bitmap p;
  free_pages = sub64 s.free_pages 1;
  used_pages = add64 s.used_pages 1;
}

-- The loop that keeps the bitmap's own pages, from page `p`.
pub keep_run : Phys → ℕ → ℕ → Phys
keep_run s p zero = s
keep_run s p (suc left) =
    let rest = keep_run (keep_one s p) (p + 1) left in if leb s.total_pages p then s else rest

module _ (usable : ℕ) where
  -- `end - start` is 0 where the source's `start_page >= end_page` skips the entry.
  pub mark_usable : Phys → Memmap → Phys
  mark_usable s [] = s
  mark_usable s (none ∷ rest) = mark_usable s rest
  mark_usable s (some e ∷ rest) =
      mark_usable
        (if not (e.kind == usable)
          then s
          else clear_run s (first_page e) (end_page e s.total_pages - first_page e))
        rest

  -- The part of `init` after the bitmap's storage is found at `at`.
  pub fill : Phys → Memmap → ℕ → Phys
  fill s memmap at =
      let blank = record s {
        bitmap = replicate s.bitmap_size 0xff;
        free_pages = 0;
        used_pages = s.total_pages;
      } in
      let start = at / page_size in
      let end = pages_up (add64 at s.bitmap_size) in
      record (keep_run (mark_usable blank memmap) start (end - start)) {
        last_alloc_page = 0;
        initialized = true;
      }

  pub place : Phys → Memmap → ℕ → Phys
  place s memmap top =
      let total = pages_up top in
      let size = add64 total 7 / 8 in
      let at = reserve_bitmap_storage usable memmap size in
      if top == 0
      then s
      else if total == 0
      then record s { total_pages = total }
      else if at == 0
      then record s { total_pages = total; bitmap_size = size }
      else fill (record s { total_pages = total; bitmap_size = size }) memmap at

  -- `none` is a null response. Each early return keeps what has been written before it.
  pub init : Option Memmap → ℕ → Phys → Phys
  init none hhdm s = s
  init (some memmap) hhdm s =
      if s.initialized
      then s
      else if length memmap == 0
      then s
      else place (record s { hhdm_offset = hhdm }) memmap (max_addr usable 0 memmap)
