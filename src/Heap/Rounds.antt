-- ===== src/Heap/Rounds.antt =====
-- One round of kmalloc's loop over the regions, and its start, by what place_block returns.
use podumat_os.Prelude.{ℕ, suc, ◌≡◌, refl, true, false, some, ◌==◌}
use podumat_os.Heap.Store.{Heap}
use podumat_os.Heap.{place_block, refresh_best_hint}
use podumat_os.Heap.Calls.{refreshed, from_new, region_loop, from_best}

-- The steps of the loop over the regions.
module _ (fuel payload req rounds : ℕ) (h : Heap) (r : ℕ) where
  pub loop_end : r ≡ 0 → region_loop fuel payload req (suc rounds) h r ≡ from_new fuel payload req h
  unfolding region_loop
  loop_end e = simp e refl

  pub loop_best :
      (r == 0) ≡ false
      → (r == h.best) ≡ true
      → region_loop fuel payload req (suc rounds) h r
        ≡ region_loop fuel payload req rounds h (h.regions r).next
  unfolding region_loop
  loop_best more same = simp (more, same) refl

  pub loop_full :
      (r == 0) ≡ false
      → (r == h.best) ≡ false
      → place_block r payload req fuel h ≡ some (0, h)
      → region_loop fuel payload req (suc rounds) h r
        ≡ region_loop fuel payload req rounds h (h.regions r).next
  unfolding region_loop
  loop_full more other e = simp (more, other, e) refl

  pub loop_serves :
      (p : ℕ) (g : Heap)
      → (r == 0) ≡ false
      → (r == h.best) ≡ false
      → (p == 0) ≡ false
      → place_block r payload req fuel h ≡ some (p, g)
      → region_loop fuel payload req (suc rounds) h r ≡ refreshed fuel (p, g)
  unfolding region_loop
  loop_serves p g more other got e = simp (more, other, e, got) refl

-- The ways from the best region.
module _ (fuel payload req : ℕ) (h : Heap) where
  pub best_none :
      (h.best == 0) ≡ true
      → from_best fuel payload req h ≡ region_loop fuel payload req fuel h h.root
  unfolding from_best
  best_none e = simp e refl

  pub best_full :
      (h.best == 0) ≡ false
      → place_block h.best payload req fuel h ≡ some (0, h)
      → from_best fuel payload req h ≡ region_loop fuel payload req fuel h h.root
  unfolding from_best
  best_full more e = simp (more, e) refl

  pub best_serves :
      (p : ℕ) (g : Heap)
      → (h.best == 0) ≡ false
      → (p == 0) ≡ false
      → place_block h.best payload req fuel h ≡ some (p, g)
      → from_best fuel payload req h ≡ some (p, g)
  unfolding from_best
  best_serves p g more got e = simp (more, e, got) refl

pub refreshed_at :
    (fuel p : ℕ) (g k : Heap)
    → refresh_best_hint fuel g ≡ some k
    → refreshed fuel (p, g) ≡ some (p, k)
unfolding refreshed
refreshed_at fuel p g k e = simp e refl
