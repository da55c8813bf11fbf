-- ===== src/Phys/Wrap.antt =====
-- What the search of phys.cpp does when page 0 is free.
use podumat_os.Prelude.{ℕ, zero, suc, ◌+◌, ◌-◌, ◌<◌, ◌≡◌, refl, false, List, some, ltb, leb, arith}
use podumat_os.Phys.{Phys, more, bit_test, find_free_run, scan, scan_start, resume, finish}

one_round :
    (bm : List ℕ) (last left : ℕ)
    → left ≡ 1
    → bit_test bm last ≡ false
    → scan bm 2 left last 0 0 ≡ more 1 last
unfolding scan
one_round bm last left e free = rw e (simp free refl)

joined :
    (bm : List ℕ) (last : ℕ)
    → 0 < last
    → bit_test bm 0 ≡ false
    → resume bm 2 last (more 1 last) ≡ some last
unfolding scan resume finish
joined bm zero pos free = absurd (omega arith)
joined bm (suc k) pos free = simp free refl

-- If page 0 and the last page are free, the search for two pages that starts at the last page joins
-- them, and returns a run that goes past the end of memory.
pub find_free_run_wraps :
    (s : Phys) (last : ℕ)
    → s.total_pages ≡ suc last
    → 0 < last
    → bit_test s.bitmap 0 ≡ false
    → bit_test s.bitmap last ≡ false
    → (find_free_run s 2 last ≡ some last) × (s.total_pages < last + 2)
unfolding find_free_run scan_start
find_free_run_wraps s last total pos first free = (
  simp (the_start, the_test, one_round s.bitmap last (s.total_pages - last) (omega arith) free)
      (joined s.bitmap last pos first),
  omega arith,
)
  where
    the_start : leb s.total_pages last ≡ false
    the_start = ground arith

    the_test : ltb s.total_pages 2 ≡ false
    the_test = ground arith
