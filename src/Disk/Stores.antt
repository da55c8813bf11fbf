-- ===== src/Disk/Stores.antt =====
-- What a device without faults holds after a write.
use podumat_os.Prelude.{ℕ, ◌<◌, ◌≡◌, inl, inr, List, ◌==◌, ==_iff, Bool-cases, arith, ap, ◌∙◌}
use podumat_os.Disk.{Device, IsReliable, put}

module _ (D : Device) (R : IsReliable D) where
  pub write_content :
      (l : ℕ) (bytes : List ℕ) (s : D.State) (m : ℕ)
      → l < D.sectors s
      → D.content (D.write_sector l bytes s).1 m ≡ put (D.content s) l bytes m
  write_content l bytes s m h = elim (Bool-cases (m == l)) [
    | inl e ↦
        let same : m ≡ l = (==_iff m l).0 e in
        simp e (
          ap (D.content (D.write_sector l bytes s).1) same
          ∙ D.write_true l bytes s (R.writes l bytes s h))
    | inr e ↦ simp e (D.write_other l bytes s m (λ same. ground (arith, e, same)))
  ]
