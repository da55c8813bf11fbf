-- ===== src/Phys/Init/Marks.antt =====
-- The marking loops of phys::init keep the counters in step with the bitmap.
use podumat_os.Prelude.{
  ℕ, zero, suc, ◌+◌, ◌*◌, ◌/◌, ◌^◌, ◌≤◌, ◌<◌, ◌≡◌, refl, inl, inr, Bool, true, false, ltb, leb,
  ◌==◌, if◌then◌else◌, length, ==_iff, Bool-cases, arith, ◌&&◌, ap, ◌∙◌,
}
use podumat_os.Phys.{Phys, add64, sub64, bit_set, bit_clear, bit_test}
use podumat_os.Phys.Bitmap.{
  IsBytes, bit_set-IsBytes, bit_clear-IsBytes, length-bit_set, length-bit_clear, bit_test-bit_set,
  bit_test-bit_clear, in_run,
}
use podumat_os.Phys.Count.{count_free, count_free-le, count_free-bit_set, count_free-bit_clear}
use podumat_os.Phys.Init.{clear_run, keep_one, keep_run}

-- The invariant while the pages are being marked.
pub record IsSound (s : Phys) : Type 0 where
  pub bytes : IsBytes s.bitmap
  pub covers : s.total_pages ≤ 8 * length s.bitmap
  pub small : s.total_pages ≤ 2 ^ 52
  pub counted : s.free_pages ≡ count_free s.bitmap s.total_pages
  pub balanced : s.used_pages + s.free_pages ≡ s.total_pages

-- `t` is `s` with the pages that `now` names cleared (or set).
pub record Marks (s t : Phys) (now : ℕ → Bool) (bit : Bool) : Type 0 where
  pub pages : (q : ℕ) → bit_test t.bitmap q ≡ (if now q then bit else bit_test s.bitmap q)
  pub same_total : t.total_pages ≡ s.total_pages
  pub sound : IsSound t

abbrev cleared : Phys → ℕ → Phys
cleared s p = record s {
  bitmap = bit_clear s.bitmap p;
  free_pages = add64 s.free_pages 1;
  used_pages = sub64 s.used_pages 1;
}

abbrev kept : Phys → ℕ → Phys
kept s p = record s {
  bitmap = bit_set s.bitmap p;
  free_pages = sub64 s.free_pages 1;
  used_pages = add64 s.used_pages 1;
}

module _ (s : Phys) (p : ℕ) (v : IsSound s) (inside : p < s.total_pages) where
  byte : p / 8 < length s.bitmap
  byte = omega (arith, v.covers)

  cleared-IsSound : bit_test s.bitmap p ≡ true → IsSound (cleared s p)
  cleared-IsSound e = record {
    bytes = bit_clear-IsBytes s.bitmap p v.bytes;
    covers = omega (arith, length-bit_clear s.bitmap p, v.covers);
    small = v.small;
    counted = omega (arith, v.counted, v.small, risen, room);
    balanced = omega (arith, v.balanced, v.small, v.counted, risen, room);
  }
    where
      risen :
          count_free (bit_clear s.bitmap p) s.total_pages ≡ count_free s.bitmap s.total_pages + 1
      risen = count_free-bit_clear s.bitmap p v.bytes byte s.total_pages inside e

      room : count_free (bit_clear s.bitmap p) s.total_pages ≤ s.total_pages
      room = count_free-le (bit_clear s.bitmap p) s.total_pages

  kept-IsSound : bit_test s.bitmap p ≡ false → IsSound (kept s p)
  kept-IsSound e = record {
    bytes = bit_set-IsBytes s.bitmap p v.bytes;
    covers = omega (arith, length-bit_set s.bitmap p, v.covers);
    small = v.small;
    counted = omega (arith, v.counted, v.small, fallen, v.balanced);
    balanced = omega (arith, v.balanced, v.small, v.counted, fallen);
  }
    where
      fallen : count_free s.bitmap s.total_pages ≡ count_free (bit_set s.bitmap p) s.total_pages + 1
      fallen = count_free-bit_set s.bitmap p v.bytes byte s.total_pages inside e

  keep_one-Marks : Marks s (keep_one s p) (λ q. p == q) true
  unfolding keep_one
  keep_one-Marks = elim (Bool-cases (bit_test s.bitmap p)) [
    | inl used ↦ simp used (record {
      pages = λ q. elim (Bool-cases (p == q)) [
        | inl e ↦ ground (arith, used, ap (bit_test s.bitmap) ((==_iff p q).0 e))
        | inr e ↦ ground arith
      ];
      same_total = refl;
      sound = v;
    })
    | inr free ↦ simp free (record {
      pages = λ q. bit_test-bit_set s.bitmap p v.bytes q byte;
      same_total = refl;
      sound = kept-IsSound free;
    })
  ]

pub clear_run-Marks :
    (s : Phys) (p n : ℕ)
    → IsSound s
    → ((q : ℕ) → p ≤ q → q < p + n → (bit_test s.bitmap q ≡ true) × (q < s.total_pages))
    → Marks s (clear_run s p n) (in_run p n) false
unfolding clear_run
clear_run-Marks s p zero v used = record { pages = λ q. ground arith; same_total = refl; sound = v }
clear_run-Marks s p (suc n) v used =
    let here = used p (omega arith) (omega arith) in
    let rest =
      clear_run-Marks (cleared s p) (p + 1) n (cleared-IsSound s p v here.1 here.0)
        (λ q lo hi. still q (used q (omega arith) (omega arith)) here.1 (omega arith)) in
    record {
      pages = λ q. ground (arith, rest.pages q, now q here.1);
      same_total = rest.same_total;
      sound = rest.sound;
    }
  where
    now :
        (q : ℕ)
        → p < s.total_pages
        → bit_test (bit_clear s.bitmap p) q ≡ (if p == q then false else bit_test s.bitmap q)
    now q h = bit_test-bit_clear s.bitmap p v.bytes q (omega (arith, v.covers))

    still :
        (q : ℕ)
        → (bit_test s.bitmap q ≡ true) × (q < s.total_pages)
        → p < s.total_pages
        → p < q
        → (bit_test (bit_clear s.bitmap p) q ≡ true) × (q < s.total_pages)
    still q u h lt = (ground (arith, now q h, u.0), u.1)

pub keep_run-Marks :
    (s : Phys) (p n : ℕ)
    → IsSound s
    → Marks s (keep_run s p n) (λ q. in_run p n q && ltb q s.total_pages) true
unfolding keep_run
keep_run-Marks s p zero v = record { pages = λ q. ground arith; same_total = refl; sound = v }
keep_run-Marks s p (suc n) v = elim (Bool-cases (leb s.total_pages p)) [
  | inl out ↦ simp out (record { pages = λ q. ground (arith, out); same_total = refl; sound = v })
  | inr inside ↦
      let one = keep_one-Marks s p v (ground arith) in
      let rest = keep_run-Marks (keep_one s p) (p + 1) n one.sound in
      simp inside (record {
        pages = λ q. ground (arith, one.pages q, rest.pages q, one.same_total, inside);
        same_total = rest.same_total ∙ one.same_total;
        sound = rest.sound;
      })
]
