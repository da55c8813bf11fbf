-- ===== src/Phys/Allocated.antt =====
-- is_allocated against the bitmap.
use podumat_os.Prelude.{ℕ, ◌/◌, ◌<◌, ◌≡◌, ◌↔◌, false, arith}
use podumat_os.Phys.{Phys, bit_test, page_size, is_allocated}
use podumat_os.Phys.Alloc.{IsReady}

-- `is_allocated` holds just outside memory and on the pages that are not free.
pub is_allocated_lem :
    (phys : ℕ) (s : Phys)
    → IsReady s
    → (is_allocated phys s ≡ false)
      ↔ ((phys / page_size < s.total_pages) × (bit_test s.bitmap (phys / page_size) ≡ false))
unfolding is_allocated
is_allocated_lem phys s v = (λ e. ground (arith, e, v.ready), λ h. ground (arith, h, v.ready))
