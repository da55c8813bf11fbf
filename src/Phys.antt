-- ===== src/Phys.antt =====
-- kernel/src/mm/phys.cpp: the physical page allocator. The globals `g_*` are the fields of `Phys`,
-- and a function that changes them returns the new state. `INVALID_INDEX` is `none`.
pub mod Bitmap
pub mod Search
pub mod Count
pub mod Alloc
pub mod Free
pub mod Allocated
pub mod Clients
pub mod Wrap
mod Tests
pub mod Init
use podumat_os.Prelude.{
  ℕ, zero, suc, ◌+◌, ◌-◌, ◌*◌, ◌/◌, ◌%◌, ◌^◌, Bool, true, false, not, ◌||◌, Option, none, some,
  List, ltb, leb, ◌==◌, if◌then◌else◌, u64, length, get_or, set,
}
use podumat_os.Prelude.Bytes.{bit_of, with_bit, without_bit}

abbrev pub page_size : ℕ
page_size = 4096

pub record Phys : Type 0 where
  pub bitmap : List ℕ
  pub bitmap_size : ℕ
  pub total_pages : ℕ
  pub free_pages : ℕ
  pub used_pages : ℕ
  pub hhdm_offset : ℕ
  pub initialized : Bool
  pub last_alloc_page : ℕ

-- `uint64_t` addition and subtraction.
abbrev pub add64 : ℕ → ℕ → ℕ
add64 a b = u64 (a + b)

abbrev pub sub64 : ℕ → ℕ → ℕ
sub64 a b = u64 (a + 2 ^ 64 - b)

-- `page >> 3` is the byte and `page & 7` the bit in it.
unfoldable pub bit_set : List ℕ → ℕ → List ℕ
unfolding with_bit
bit_set bitmap page = set bitmap (page / 8) (with_bit (get_or bitmap (page / 8) 0) (page % 8))

pub bit_clear : List ℕ → ℕ → List ℕ
unfolding without_bit
bit_clear bitmap page = set bitmap (page / 8) (without_bit (get_or bitmap (page / 8) 0) (page % 8))

unfoldable pub bit_test : List ℕ → ℕ → Bool
unfolding bit_of
bit_test bitmap page = bit_of (get_or bitmap (page / 8) 0) (page % 8)

-- How a scan loop ends: by `return`, or with the values of `run` and `run_start`.
pub data Scan : Type 0 where
  found : ℕ → Scan
  more : ℕ → ℕ → Scan

unfoldable pub finish : Scan → Option ℕ
finish (found p) = some p
finish (more run run_start) = none

module _ (bitmap : List ℕ) (count : ℕ) where
  -- One of the two loops, from page `p` and with `left` pages to go.
  unfoldable pub scan : (left p run run_start : ℕ) → Scan
  scan zero p run run_start = more run run_start
  scan (suc left) p run run_start =
      let start = if run == 0 then p else run_start in
      let reset = scan left (p + 1) 0 run_start in
      let longer = scan left (p + 1) (run + 1) start in
      if bit_test bitmap p then reset else if leb count (run + 1) then found start else longer

  -- The second loop goes on with the `run` that the first one leaves.
  unfoldable pub resume : ℕ → Scan → Option ℕ
  unfolding finish
  resume start (found p) = some p
  resume start (more run run_start) = finish (scan start 0 run run_start)

unfoldable pub scan_start : Phys → ℕ → ℕ
scan_start s hint = if leb s.total_pages hint then 0 else hint

unfoldable pub find_free_run : Phys → ℕ → ℕ → Option ℕ
find_free_run s count hint =
    let start = scan_start s hint in
    if count == 0 || ltb s.total_pages count
    then none
    else resume s.bitmap count start (scan s.bitmap count (s.total_pages - start) start 0 0)

-- `for (i = 0; i < count; i++) bit_set(p + i)`.
unfoldable pub set_run : List ℕ → ℕ → ℕ → List ℕ
set_run bitmap p zero = bitmap
set_run bitmap p (suc left) = set_run (bit_set bitmap p) (p + 1) left

-- What `alloc_pages` does at the page that the search found.
unfoldable pub take_run : Phys → ℕ → Option ℕ → ℕ × Phys
take_run s count none = (0, s)
take_run s count (some p) = (
  u64 (p * page_size),
  record s {
    bitmap = set_run s.bitmap p count;
    free_pages = sub64 s.free_pages count;
    used_pages = add64 s.used_pages count;
    last_alloc_page = add64 p count;
  },
)

unfoldable pub alloc_pages : ℕ → Phys → ℕ × Phys
unfolding take_run
alloc_pages count s =
    if not s.initialized || count == 0
    then (0, s)
    else if ltb s.free_pages count
    then (0, s)
    else take_run s count (find_free_run s count s.last_alloc_page)

pub alloc_page : Phys → ℕ × Phys
alloc_page = alloc_pages 1

pub free_one : Phys → ℕ → Phys
free_one s p =
    if bit_test s.bitmap p
    then record s {
      bitmap = bit_clear s.bitmap p;
      free_pages = add64 s.free_pages 1;
      used_pages = sub64 s.used_pages 1;
    }
    else s

-- The loop of `free_pages`, at page `p`; it breaks at the first page out of range.
pub free_run : Phys → ℕ → ℕ → Phys
free_run s p zero = s
free_run s p (suc left) =
    let rest = free_run (free_one s p) (p + 1) left in if leb s.total_pages p then s else rest

pub free_pages : ℕ → ℕ → Phys → Phys
free_pages phys count s =
    if not s.initialized || count == 0
    then s
    else if not (phys % page_size == 0)
    then s
    else free_run s (phys / page_size) count

pub free_page : ℕ → Phys → Phys
free_page phys = free_pages phys 1

pub is_allocated : ℕ → Phys → Bool
is_allocated phys s =
    if not s.initialized
    then true
    else if leb s.total_pages (phys / page_size)
    then true
    else bit_test s.bitmap (phys / page_size)
