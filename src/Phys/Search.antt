-- ===== src/Phys/Search.antt =====
-- The search of find_free_run: what it returns is free, and what it misses.
use podumat_os.Prelude.{
  ℕ, zero, suc, ◌+◌, ◌-◌, ◌≤◌, ◌<◌, ◌≡◌, refl, ◌⊎◌, inl, inr, true, false, List, none, some, ltb,
  leb, ◌==◌, if◌then◌else◌, Bool-cases, arith, ◌||◌, ◌∙◌, sym,
}
use podumat_os.Phys.{
  Phys, Scan, found, more, bit_test, scan, finish, resume, scan_start, find_free_run,
}

-- The `n` pages from `p` are free.
abbrev pub FreeRun : List ℕ → ℕ → ℕ → Type 0
FreeRun bm p n = (q : ℕ) → p ≤ q → q < p + n → bit_test bm q ≡ false

-- `run` free pages end just before page `p`.
record IsRun (bm : List ℕ) (p run run_start : ℕ) : Type 0 where
  clear : FreeRun bm run_start run
  ends : (run ≡ 0) ⊎ (run_start + run ≡ p)

module _ (bm : List ℕ) (p run start : ℕ) where
  grow :
      IsRun bm p run start
      → bit_test bm p ≡ false
      → IsRun bm (p + 1) (run + 1) (if run == 0 then p else start)
  grow h e = record { clear = covers; ends = ground (arith, h.ends) }
    where
      covers : FreeRun bm (if run == 0 then p else start) (run + 1)
      covers q lo hi = elim (Bool-cases (q == p)) [
        | inl same ↦ ground (arith, e)
        | inr other ↦ h.clear q (ground (arith, h.ends)) (ground (arith, h.ends))
      ]

  restart : IsRun bm (p + 1) 0 start
  restart = record { clear = λ q lo hi. absurd (omega arith); ends = inl refl }

-- A page that the scan returns starts a free run of `count` pages inside what was scanned.
scan-found :
    (bm : List ℕ) (count left p run start : ℕ) {q : ℕ}
    → IsRun bm p run start
    → run < count
    → scan bm count left p run start ≡ found q
    → FreeRun bm q count × (q + count ≤ p + left)
unfolding scan
scan-found bm count zero p run start h lt e = cc
scan-found bm count (suc left) p run start {q} h lt e = elim (Bool-cases (bit_test bm p)) [
  | inl used ↦
      let ih =
        scan-found bm count left (p + 1) 0 start (restart bm p run start) (omega arith)
          (rw used at e) in
      (ih.0, omega arith)
  | inr free ↦ elim (Bool-cases (leb count (run + 1))) [
    | inl enough ↦
        let run' = grow bm p run start h free in
        let same : (if run == 0 then p else start) ≡ q = ground (arith, free, enough, e) in
        let full : run + 1 ≡ count = ground (arith, enough) in
        rw (← same, ← full) (run'.clear, ground (arith, run'.ends, same))
    | inr short ↦
        let ih =
          scan-found bm count left (p + 1) (run + 1) (if run == 0 then p else start)
            (grow bm p run start h free) (ground arith) (rw (free, short) at e) in
        (ih.0, omega arith)
  ]
]

finish-found : (r : Scan) {q : ℕ} → finish r ≡ some q → r ≡ found q
unfolding finish
finish-found (found p) e = cc
finish-found (more run start) e = cc

-- The second loop starts afresh, since page 0 is in use.
second-found :
    (bm : List ℕ) (count start run run_start : ℕ) {q : ℕ}
    → bit_test bm 0 ≡ true
    → 0 < count
    → finish (scan bm count start 0 run run_start) ≡ some q
    → FreeRun bm q count × (q + count ≤ start)
unfolding scan
second-found bm count zero run run_start used pos e = absurd (cc (finish-found _ e))
second-found bm count (suc k) run run_start used pos e =
    let done : scan bm count k 1 0 run_start ≡ found _ = rw used at (finish-found _ e) in
    let ih = scan-found bm count k 1 0 run_start (restart bm 0 run run_start) pos done in
    (ih.0, omega arith)

resume-found :
    (bm : List ℕ) (count start total : ℕ) (r : Scan) {q : ℕ}
    → bit_test bm 0 ≡ true
    → 0 < count
    → start ≤ total
    → scan bm count (total - start) start 0 0 ≡ r
    → resume bm count start r ≡ some q
    → FreeRun bm q count × (q + count ≤ total)
unfolding resume finish
resume-found bm count start total (found p) {q} used pos le h e =
    let first : IsRun bm start 0 0 = record {
      clear = λ r lo hi. absurd (omega arith);
      ends = inl refl;
    } in
    let ih =
      scan-found bm count (total - start) start 0 0 {q = q} first pos (ground (arith, h, e)) in
    (ih.0, omega arith)
resume-found bm count start total (more run run_start) used pos le h e =
    let ih = second-found bm count start run run_start used pos e in (ih.0, omega arith)

-- A run that `find_free_run` returns is free and lies in memory, if page 0 is in use.
pub find_free_run-FreeRun :
    (s : Phys) (count hint : ℕ) {q : ℕ}
    → bit_test s.bitmap 0 ≡ true
    → find_free_run s count hint ≡ some q
    → FreeRun s.bitmap q count × (q + count ≤ s.total_pages)
unfolding find_free_run scan_start
find_free_run-FreeRun s count hint used e =
    elim (Bool-cases (count == 0 || ltb s.total_pages count)) [
      | inl bad ↦ absurd (cc (rw bad at e))
      | inr good ↦
          resume-found s.bitmap count (if leb s.total_pages hint then 0 else hint) s.total_pages
            (scan s.bitmap count _ _ 0 0) used (ground (arith, good)) (ground arith) refl
            (rw good at e)
    ]

-- Nothing is missed inside the part that one loop scans.
scan-misses :
    (bm : List ℕ) (count left p run start q : ℕ) {run' start' : ℕ}
    → scan bm count left p run start ≡ more run' start'
    → run < count
    → p ≤ q + run
    → q + count ≤ p + left
    → ¬ FreeRun bm q count
unfolding scan
scan-misses bm count zero p run start q e lt lo hi free = omega arith
scan-misses bm count (suc left) p run start q e lt lo hi free = elim (Bool-cases (bit_test bm p)) [
  | inl used ↦ elim (Bool-cases (leb q p)) [
    | inl before ↦ absurd (cc (sym used ∙ free p (ground arith) (ground arith)))
    | inr after ↦
        scan-misses bm count left (p + 1) 0 start q (rw used at e) (omega arith) (ground arith)
          (omega arith) free
  ]
  | inr clear ↦ elim (Bool-cases (leb count (run + 1))) [
    | inl enough ↦ absurd (cc (rw (clear, enough) at e))
    | inr short ↦
        scan-misses bm count left (p + 1) (run + 1) (if run == 0 then p else start) q
          (rw (clear, short) at e) (ground arith) (omega arith) (omega arith) free
  ]
]

-- Where the search fails, no free run of `count` pages lies in memory on one side of its start.
finish-none : (r : Scan) → finish r ≡ none → (run : ℕ) × (start : ℕ) × (r ≡ more run start)
unfolding finish
finish-none (found p) e = absurd (cc e)
finish-none (more run start) e = (run, start, refl)

scan-short :
    (bm : List ℕ) (count left p run start : ℕ) {run' start' : ℕ}
    → run < count
    → scan bm count left p run start ≡ more run' start'
    → run' < count
unfolding scan
scan-short bm count zero p run start lt e = ground (arith, e)
scan-short bm count (suc left) p run start lt e = elim (Bool-cases (bit_test bm p)) [
  | inl used ↦ scan-short bm count left (p + 1) 0 start (omega arith) (rw used at e)
  | inr clear ↦ elim (Bool-cases (leb count (run + 1))) [
    | inl enough ↦ absurd (cc (rw (clear, enough) at e))
    | inr short ↦
        scan-short bm count left (p + 1) (run + 1) (if run == 0 then p else start) (ground arith)
          (rw (clear, short) at e)
  ]
]

resume-misses :
    (bm : List ℕ) (count start total q : ℕ) (r : Scan)
    → 0 < count
    → start ≤ total
    → scan bm count (total - start) start 0 0 ≡ r
    → resume bm count start r ≡ none
    → q + count ≤ total
    → (start ≤ q) ⊎ (q + count ≤ start)
    → ¬ FreeRun bm q count
unfolding resume
resume-misses bm count start total q (found p) pos le h e hi side free = ground (arith, e)
resume-misses bm count start total q (more run run_start) pos le h e hi (inl right) free =
    scan-misses bm count (total - start) start 0 0 q h pos (omega arith) (omega arith) free
resume-misses bm count start total q (more run run_start) pos le h e hi (inr left) free =
    let (run', start', e') = finish-none _ e in
    scan-misses bm count start 0 run run_start q e' (scan-short bm count _ start 0 0 pos h)
      (omega arith) (omega arith) free

pub find_free_run-misses :
    (s : Phys) (count hint q : ℕ)
    → 0 < count
    → find_free_run s count hint ≡ none
    → q + count ≤ s.total_pages
    → (scan_start s hint ≤ q) ⊎ (q + count ≤ scan_start s hint)
    → ¬ FreeRun s.bitmap q count
unfolding find_free_run scan_start
find_free_run-misses s count hint q pos e hi side =
    elim (Bool-cases (count == 0 || ltb s.total_pages count)) [
      | inl bad ↦ absurd (ground (arith, bad))
      | inr good ↦
          resume-misses s.bitmap count (if leb s.total_pages hint then 0 else hint) s.total_pages q
            (scan s.bitmap count _ _ 0 0) pos (ground arith) refl (rw good at e) hi side
    ]
