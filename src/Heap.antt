-- ===== src/Heap.antt =====
-- kernel/src/mm/heap.cpp: kmalloc and kfree. A pointer is an address, 0 is `nullptr`. The headers that
-- stand at an address are kept apart from the bytes of the allocations: `regions` and `blocks` give
-- the header that memory holds there, `bytes` gives the rest. A loop over linked headers has fuel, and
-- `none` means that it ran out.
pub mod Store
pub mod Calls
pub mod Blocks
pub mod Unlink
pub mod Gaps
pub mod Sums
pub mod Place
pub mod Placed
pub mod Search
pub mod Release
pub mod Regions
pub mod Cut
pub mod Owned
pub mod Returned
pub mod Layout
pub mod Chain
pub mod Grown
pub mod Create
pub mod Creation
pub mod Whole
pub mod Free
pub mod Rounds
pub mod Alloc
pub mod Malloc
pub mod Opened
mod Tests
use mathlib.Core.Option
use podumat_os.Prelude.{
  ℕ, zero, suc, ◌+◌, ◌-◌, ◌*◌, ◌/◌, ◌%◌, ◌^◌, Bool, true, false, not, ◌&&◌, ◌||◌, Option, none,
  some, ◌>>=◌, ltb, leb, ◌==◌, if◌then◌else◌, u32, u64,
}
use podumat_os.Memory.{Memory, memcpy, memset}
use podumat_os.Phys.{Phys, page_size, add64, sub64, alloc_pages, free_pages}
use Store.{
  Region, Block, Heap, put_region, put_block, block_magic, block_dead, region_header, block_header,
}

abbrev pub alignment : ℕ
alignment = 16

abbrev pub min_region_pages : ℕ
min_region_pages = 16

-- `(value + 15) & ~15`
unfoldable pub align_up : ℕ → ℕ
align_up value = u64 (value + 15) / 16 * 16

pub region_alloc : ℕ → Heap → ℕ × Heap
region_alloc pages h =
    let (phys, s) = alloc_pages pages h.pages in
    (if phys == 0 then 0 else add64 phys s.hhdm_offset, record h { pages = s })

pub region_free : ℕ → ℕ → Heap → Heap
region_free virt pages h =
    if virt == 0
    then h
    else if h.pages.hhdm_offset == 0 || ltb virt h.pages.hhdm_offset
    then h
    else record h { pages = free_pages (virt - h.pages.hhdm_offset) pages h.pages }

-- Bytes that no block of the region takes.
abbrev pub free_bytes : Region → ℕ
free_bytes r = sub64 r.size r.usage

unfoldable pub best_loop : (fuel : ℕ) → Heap → (r best_free best : ℕ) → Option ℕ
best_loop zero h r best_free best = none
best_loop (suc fuel) h r best_free best =
    let bytes = free_bytes (h.regions r) in
    let rest =
      best_loop fuel h (h.regions r).next (if ltb best_free bytes then bytes else best_free)
        (if ltb best_free bytes then r else best) in
    if r == 0 then some best else rest

pub refresh_best_hint : ℕ → Heap → Option Heap
unfolding best_loop
refresh_best_hint fuel h = best_loop fuel h h.root 0 0 >>= λ b. some (record h { best = b })

-- `while (tail->next) tail = tail->next;`
unfoldable pub tail_loop : (fuel : ℕ) → Heap → ℕ → Option ℕ
tail_loop zero h tail = none
tail_loop (suc fuel) h tail =
    let rest = tail_loop fuel h (h.regions tail).next in
    if (h.regions tail).next == 0 then some tail else rest

-- The pages of a region for a payload.
pub pages_for : ℕ → ℕ
pages_for payload =
    let pages = u64 (add64 payload (region_header + block_header) + page_size - 1) / page_size in
    if ltb pages min_region_pages then min_region_pages else pages

abbrev pub new_region : ℕ → Region
new_region pages = record {
  prev = 0;
  next = 0;
  first = 0;
  pages = u32 pages;
  size = u32 (pages * page_size);
  usage = region_header;
}

abbrev pub append_region : Heap → (tail mem : ℕ) → Heap
append_region h tail mem =
    let linked = put_region h tail (record (h.regions tail) { next = mem }) in
    put_region linked mem (record (linked.regions mem) { prev = tail })

abbrev pub count_region : ℕ → Heap → Heap
count_region size h = record h {
  total_region_bytes = add64 h.total_region_bytes size;
  region_count = add64 h.region_count 1;
}

-- What `create_region` does with the memory that it got.
pub link_region : ℕ → ℕ → ℕ × Heap → Option (ℕ × Heap)
link_region fuel pages (mem, h) =
    let g = put_region h mem (new_region pages) in
    let appended = tail_loop fuel g g.root >>= λ tail.
    some (mem, count_region (new_region pages).size (append_region g tail mem)) in
    if mem == 0
    then some (0, h)
    else if g.root == 0
    then some (mem, count_region (new_region pages).size (record g { root = mem }))
    else appended

pub create_region : (fuel payload : ℕ) → Heap → Option (ℕ × Heap)
create_region fuel payload h =
    let pages = pages_for payload in
    if ltb (0xFFFFFFFF / page_size) pages
    then some (0, h)
    else link_region fuel pages (region_alloc (u32 pages) h)

abbrev pub unlink_prev : ℕ → Heap → Heap
unlink_prev r h =
    let p = (h.regions r).prev in
    if p == 0 then h else put_region h p (record (h.regions p) { next = (h.regions r).next })

abbrev pub unlink_next : ℕ → Heap → Heap
unlink_next r h =
    let n = (h.regions r).next in
    if n == 0 then h else put_region h n (record (h.regions n) { prev = (h.regions r).prev })

pub destroy_region : ℕ → Heap → Heap
unfolding region_free
destroy_region r h =
    let g = unlink_next r (unlink_prev r h) in
    let head = g.regions r in
    if r == 0
    then h
    else region_free r head.pages (record g {
      root = if g.root == r then head.next else g.root;
      best = if g.best == r then 0 else g.best;
      total_region_bytes = sub64 g.total_region_bytes head.size;
      region_count = sub64 g.region_count 1;
    })

-- The counters after a block for `req` bytes is placed.
abbrev pub count_block : ℕ → Heap → Heap
count_block req h =
    let used = add64 h.in_use_bytes req in
    record h {
      in_use_bytes = used;
      peak_in_use_bytes = if ltb h.peak_in_use_bytes used then used else h.peak_in_use_bytes;
      live_allocations = add64 h.live_allocations 1;
    }

module _ (r payload req : ℕ) where
  -- `sizeof(BlockHeader) + payload`
  abbrev pub needed : ℕ
  needed = add64 block_header payload

  abbrev pub new_block : (prev next : ℕ) → Block
  new_block prev next = record {
    prev = prev;
    next = next;
    region = r;
    magic = block_magic;
    size = u32 payload;
    req_size = u32 req;
  }

  abbrev pub use_bytes : Heap → Heap
  use_bytes h =
      put_region h r (record (h.regions r) { usage = u32 ((h.regions r).usage + u32 needed) })

  abbrev pub put_first : ℕ → Heap → Heap
  put_first b h = put_region h r (record (h.regions r) { first = b })

  -- The three ways in which a block is linked, and its address.
  pub place_only : Heap → ℕ × Heap
  place_only h =
      let b = r + region_header in
      (b + block_header, count_block req (use_bytes (put_first b (put_block h b (new_block 0 0)))))

  pub place_first : Heap → ℕ × Heap
  place_first h =
      let b = r + region_header in
      let old = (h.regions r).first in
      let g = put_block h b (new_block 0 old) in
      (
        b + block_header,
        count_block req
            (use_bytes (put_first b (put_block g old (record (g.blocks old) { prev = b })))),
      )

  pub place_between : ℕ → Heap → ℕ × Heap
  place_between cur h =
      let b = cur + block_header + (h.blocks cur).size in
      let g = put_block h b (new_block cur (h.blocks cur).next) in
      let n = (g.blocks cur).next in
      let k = put_block g n (record (g.blocks n) { prev = b }) in
      (
        b + block_header,
        count_block req (use_bytes (put_block k cur (record (k.blocks cur) { next = b }))),
      )

  pub place_last : ℕ → Heap → ℕ × Heap
  place_last last h =
      let b = last + block_header + (h.blocks last).size in
      let g = put_block h b (new_block last 0) in
      (
        b + block_header,
        count_block req (use_bytes (put_block g last (record (g.blocks last) { next = b }))),
      )

  -- The loop over the gaps between blocks: the block before the first gap that is large enough, and 0
  -- if there is none.
  pub gap_loop : (fuel : ℕ) → Heap → ℕ → Option ℕ
  gap_loop zero h cur = none
  gap_loop (suc fuel) h cur =
      let next = (h.blocks cur).next in
      let rest = gap_loop fuel h next in
      if cur == 0
      then some 0
      else if next == 0
      then some 0
      else if leb needed (sub64 next (cur + block_header + (h.blocks cur).size))
      then some cur
      else rest

  -- `while (last && last->next) last = last->next;`
  pub last_loop : (fuel : ℕ) → Heap → ℕ → Option ℕ
  last_loop zero h last = none
  last_loop (suc fuel) h last =
      let rest = last_loop fuel h (h.blocks last).next in
      if last == 0 || (h.blocks last).next == 0 then some last else rest

  pub place_after : Heap → ℕ → Option (ℕ × Heap)
  place_after h last =
      let gap = sub64 (r + (h.regions r).size) (last + block_header + (h.blocks last).size) in
      if last == 0
      then some (0, h)
      else if leb needed gap
      then some (place_last last h)
      else some (0, h)

  unfoldable pub place_block : (fuel : ℕ) → Heap → Option (ℕ × Heap)
  unfolding place_only place_first place_between place_after gap_loop last_loop
  place_block fuel h =
      let first = (h.regions r).first in
      let after = last_loop fuel h first >>= place_after h in
      let between =
        gap_loop fuel h first >>= λ cur. if cur == 0 then after else some (place_between cur h) in
      if first == 0
      then some (place_only h)
      else if leb needed (sub64 first (r + region_header))
      then some (place_first h)
      else between
