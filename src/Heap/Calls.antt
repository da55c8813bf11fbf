-- ===== src/Heap/Calls.antt =====
-- init, kmalloc, kcalloc, krealloc and kfree.
use podumat_os.Prelude.{
  ℕ, zero, suc, ◌+◌, ◌-◌, ◌*◌, ◌/◌, ◌^◌, true, not, ◌||◌, Option, none, some, ◌>>=◌, ltb, leb, ◌==◌,
  if◌then◌else◌, u32,
}
use podumat_os.Memory.{memcpy, memset}
use podumat_os.Phys.{add64, sub64}
use podumat_os.Heap.Store.{Heap, put_region, put_block, block_magic, block_dead, block_header}
use podumat_os.Heap.{align_up, refresh_best_hint, create_region, destroy_region, place_block}

-- `init`
pub init : Heap → Heap
init h = if h.initialized then h else record h {
  root = 0;
  best = 0;
  total_region_bytes = 0;
  in_use_bytes = 0;
  peak_in_use_bytes = 0;
  region_count = 0;
  live_allocations = 0;
  initialized = true;
}

module _ (fuel : ℕ) where
  -- A block that was placed outside the best region: the hint is computed again.
  unfoldable pub refreshed : ℕ × Heap → Option (ℕ × Heap)
  refreshed (p, h) = refresh_best_hint fuel h >>= λ g. some (p, g)

  module _ (payload size : ℕ) where
    -- The block is placed in the new region `r`.
    unfoldable pub place_new : ℕ × Heap → Option (ℕ × Heap)
    place_new (r, h) =
        let placed = place_block r payload size fuel h >>= λ (p, g).
        if p == 0 then some (0, destroy_region r g) else refreshed (p, g) in
        if r == 0 then some (0, h) else placed

    unfoldable pub from_new : Heap → Option (ℕ × Heap)
    from_new h = create_region fuel payload h >>= place_new

    -- The loop over the regions other than the best one.
    unfoldable pub region_loop : (rounds : ℕ) → Heap → ℕ → Option (ℕ × Heap)
    region_loop zero h r = none
    region_loop (suc rounds) h r =
        let rest = λ (g : Heap). region_loop rounds g (g.regions r).next in
        let skipped = rest h in
        let tried = place_block r payload size fuel h >>= λ (p, g).
        if p == 0 then rest g else refreshed (p, g) in
        if r == 0 then from_new h else if r == h.best then skipped else tried

    unfoldable pub from_best : Heap → Option (ℕ × Heap)
    from_best h =
        let others = λ (g : Heap). region_loop fuel g g.root in
        let tried = place_block h.best payload size fuel h >>= λ (p, g).
        if p == 0 then others g else some (p, g) in
        if h.best == 0 then others h else tried

  unfoldable pub kmalloc : ℕ → Heap → Option (ℕ × Heap)
  kmalloc size h =
      let payload = align_up size in
      if not h.initialized || size == 0
      then some (0, h)
      else if ltb 0xFFFFFFFF payload
      then some (0, h)
      else from_best payload size h

  unfoldable pub kcalloc : ℕ → ℕ → Heap → Option (ℕ × Heap)
  kcalloc count size h =
      let cleared = kmalloc (count * size) h >>= λ (p, g).
      some (p, if p == 0 then g else record g { bytes = memset p 0 (count * size) g.bytes }) in
      if count == 0 || size == 0
      then some (0, h)
      else if ltb ((2 ^ 64 - 1) / size) count
      then some (0, h)
      else cleared

  -- `b->prev->next = b->next`, or `r->first = b->next` for the first block.
  abbrev pub forward : ℕ → Heap → Heap
  forward b h =
      let p = (h.blocks b).prev in
      let r = (h.blocks b).region in
      if p == 0
      then put_region h r (record (h.regions r) { first = (h.blocks b).next })
      else put_block h p (record (h.blocks p) { next = (h.blocks b).next })

  abbrev pub backward : ℕ → Heap → Heap
  backward b h =
      let n = (h.blocks b).next in
      if n == 0 then h else put_block h n (record (h.blocks n) { prev = (h.blocks b).prev })

  abbrev pub uncount : ℕ → Heap → Heap
  uncount b h = record h {
    in_use_bytes = sub64 h.in_use_bytes (h.blocks b).req_size;
    live_allocations = sub64 h.live_allocations 1;
  }

  -- The header dies, and the region's usage shrinks.
  abbrev pub bury : ℕ → Heap → Heap
  bury b h =
      let r = (h.blocks b).region in
      let g = put_block h b (record (h.blocks b) { magic = block_dead }) in
      put_region g r (record (g.regions r) {
        usage = u32 ((g.regions r).usage + 2 ^ 32 - u32 (block_header + (g.blocks b).size));
      })

  unfoldable pub free_block : ℕ → Heap → Heap
  free_block b h = bury b (backward b (forward b (uncount b h)))

  -- The header of the block whose bytes start at `ptr`.
  abbrev pub header_of : ℕ → ℕ
  header_of ptr = sub64 ptr block_header

  -- kfree from its test of the header at `b` on.
  unfoldable pub free_header : ℕ → Heap → Option Heap
  free_header b h =
      let r = (h.blocks b).region in
      let g = free_block b h in
      let done = if (g.regions r).first == 0 then destroy_region r g else g in
      if not ((h.blocks b).magic == block_magic) then some h else refresh_best_hint fuel done

  unfoldable pub kfree : ℕ → Heap → Option Heap
  kfree ptr h = if ptr == 0 then some h else free_header (header_of ptr) h

  unfoldable pub krealloc : ℕ → ℕ → Heap → Option (ℕ × Heap)
  krealloc ptr newsize h =
      let b = header_of ptr in
      let old = (h.blocks b).req_size in
      let shrunk = record h { in_use_bytes = sub64 h.in_use_bytes old } in
      let moved = kmalloc newsize h >>= λ (np, g).
      if np == 0
      then some (0, g)
      else kfree ptr (record g { bytes = memcpy np ptr (g.blocks b).req_size g.bytes }) >>= λ k.
          some (np, k) in
      let freed = kfree ptr h >>= λ k. some (0, k) in
      if ptr == 0
      then kmalloc newsize h
      else if newsize == 0
      then freed
      else if not ((h.blocks b).magic == block_magic)
      then some (0, h)
      else if leb newsize old
      then some (
        ptr,
        record (put_block shrunk b (record (shrunk.blocks b) { req_size = u32 newsize })) {
          in_use_bytes = add64 shrunk.in_use_bytes newsize;
        },
      )
      else moved
