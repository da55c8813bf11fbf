-- ===== src/Heap/Store.antt =====
-- The headers of the heap, and its state.
use podumat_os.Prelude.{ℕ, Bool, ◌==◌, if◌then◌else◌}
use podumat_os.Memory.{Memory}
use podumat_os.Phys.{Phys}

-- `RegionHeader`
pub record Region : Type 0 where
  pub prev : ℕ
  pub next : ℕ
  pub first : ℕ
  pub pages : ℕ
  pub size : ℕ
  pub usage : ℕ

-- `BlockHeader`
pub record Block : Type 0 where
  pub prev : ℕ
  pub next : ℕ
  pub region : ℕ
  pub magic : ℕ
  pub size : ℕ
  pub req_size : ℕ

-- `sizeof(RegionHeader)` and `sizeof(BlockHeader)`
abbrev pub region_header : ℕ
region_header = 48

abbrev pub block_header : ℕ
block_header = 48

abbrev pub block_magic : ℕ
block_magic = 0xC0DEC0DE

abbrev pub block_dead : ℕ
block_dead = 0xDEADDEAD

-- The static variables, the memory, and the page allocator.
pub record Heap : Type 0 where
  pub root : ℕ
  pub best : ℕ
  pub initialized : Bool
  pub total_region_bytes : ℕ
  pub in_use_bytes : ℕ
  pub peak_in_use_bytes : ℕ
  pub region_count : ℕ
  pub live_allocations : ℕ
  pub regions : ℕ → Region
  pub blocks : ℕ → Block
  pub bytes : Memory
  pub pages : Phys

abbrev pub put_region : Heap → ℕ → Region → Heap
put_region h a r = record h { regions = λ x. if x == a then r else h.regions x }

abbrev pub put_block : Heap → ℕ → Block → Heap
put_block h a b = record h { blocks = λ x. if x == a then b else h.blocks x }
