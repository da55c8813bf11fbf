-- ===== src/Heap/Create.antt =====
-- create_region: the pages are taken from the allocator, and the new region goes to the end of the list.
use podumat_os.Prelude.{
  ℕ, ◌+◌, ◌*◌, ◌/◌, ◌^◌, ◌≤◌, ◌<◌, ◌≡◌, ◌≢◌, refl, ◌⊎◌, false, List, [], ◌∷◌, ◌++◌, some, length,
  arith, subst, sym,
}
use podumat_os.Prelude.Members.{is_in}
use podumat_os.Phys.{Phys, page_size, alloc_pages}
use podumat_os.Phys.Alloc.{Allocates}
use podumat_os.Heap.Store.{Heap, put_region, region_header, block_header}
use podumat_os.Heap.{pages_for, new_region, append_region, count_region, tail_loop}
use podumat_os.Heap.Gaps.{last_of}
use podumat_os.Heap.Regions.{Regions, Regions-frame}
use podumat_os.Heap.Cut.{differ}
use podumat_os.Heap.Chain.{Appended, Regions-append, tail_loop_lem, last_of-is_in}
use podumat_os.Heap.Layout.{Layout, put_list}
use podumat_os.Heap.Grown.{Grows}

-- The largest number of pages of a region.
abbrev pub max_pages : ℕ
max_pages = 0xFFFFFFFF / page_size

pub pages_for_lem :
    (payload : ℕ)
    → payload < 2 ^ 32
    → (0 < pages_for payload)
      × (region_header + block_header + payload ≤ pages_for payload * page_size)
unfolding pages_for
pages_for_lem payload small = ground arith

-- The region `r` stands on `n` pages that the allocator of `h` had free and that of `g` has in use, and
-- no other page has changed.
pub record OnFreePages (h g : Heap) (r n : ℕ) : Type 0 where
  pub page : ℕ
  pub address : r ≡ page * page_size + h.pages.hhdm_offset
  pub allocated : Allocates h.pages g.pages n page

-- Later calls that leave the allocator alone change nothing of that.
pub OnFreePages-later :
    (h g l : Heap) (r n : ℕ) → l.pages ≡ g.pages → OnFreePages h g r n → OnFreePages h l r n
OnFreePages-later h g l r n same o = record {
  page = o.page;
  address = o.address;
  allocated = subst (λ s. Allocates h.pages s n o.page) (sym same) o.allocated;
}

-- What a call that succeeds leaves: the well-formed heap with an empty region that holds the payload.
pub record Creates (h g : Heap) (rs : List ℕ) (bs : ℕ → List ℕ) (r payload : ℕ) : Type 0 where
  pub fresh_region : is_in r rs ≡ false
  pub positive : 0 < r
  pub layout : Layout g (rs ++ (r ∷ [])) (put_list r [] bs)
  pub room : region_header + block_header + payload ≤ (g.regions r).size
  pub pages : OnFreePages h g r (pages_for payload)

-- Why a call fails: the region would be too large, or the pages are not there.
abbrev pub NoPages : Heap → ℕ → Type 0
NoPages h payload =
    (max_pages < pages_for payload) ⊎ (alloc_pages (pages_for payload) h.pages ≡ (0, h.pages))

module _ (h : Heap) (s : Phys) (m n : ℕ) where
  -- The heap with the pages of the region, and with its header.
  abbrev pub base : Heap
  base = put_region (record h { pages = s }) m (new_region n)

  -- The list was empty, or it ends at `tail`.
  abbrev pub alone : Heap
  alone = count_region (new_region n).size (record base { root = m })

  abbrev pub behind : ℕ → Heap
  behind tail = count_region (new_region n).size (append_region base tail m)

  module _ (page : ℕ) (small : n * page_size < 2 ^ 32) (pos : 0 < m) where
    pub alone-Grows : h.root ≡ 0 → Grows h alone [] m page n
    unfolding is_in
    alone-Grows e = record {
      chain = (refl, pos, ground arith, refl, ground arith);
      headers = λ x ne. ground arith;
      new_first = ground arith;
      new_usage = ground arith;
      new_pages = ground (arith, small);
      new_size = ground (arith, small);
      blocks_kept = refl;
      count_now = refl;
    }

    module _ (bs : ℕ → List ℕ) (a : ℕ) (as' : List ℕ) (v : Layout h (a ∷ as') bs)
        (off : is_in m (a ∷ as') ≡ false) where
      abbrev pub tail : ℕ
      tail = last_of a as'

      tail_apart : tail ≢ m
      tail_apart z = absurd (cc (last_of-is_in a as', off, z))

      base_chain : Regions base.regions 0 h.root (a ∷ as')
      base_chain =
          Regions-frame h.regions base.regions 0 h.root (a ∷ as')
            (λ x within. ground (arith, differ x m (a ∷ as') within off)) v.chain

      -- The walk finds the last region.
      pub tail_found : (fuel : ℕ) → length as' < fuel → tail_loop fuel base base.root ≡ some tail
      tail_found fuel enough = tail_loop_lem base a as' fuel 0 h.root base_chain enough

      linked : Appended base.regions (behind tail).regions tail m
      linked = record {
        at_last = ground (arith, tail_apart);
        at_new = ground (arith, tail_apart);
        elsewhere = λ x xl xm. ground arith;
      }

      pub behind-Grows : Grows h (behind tail) (a ∷ as') m page n
      behind-Grows = record {
        chain =
            Regions-append base.regions (behind tail).regions 0 h.root a m as' base_chain off pos
              linked;
        headers = λ x ne. ground arith;
        new_first = ground (arith, tail_apart);
        new_usage = ground (arith, tail_apart);
        new_pages = ground (arith, small, tail_apart);
        new_size = ground (arith, small, tail_apart);
        blocks_kept = refl;
        count_now = refl;
      }
