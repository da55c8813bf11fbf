-- ===== src/Ext2/BlockMap.antt =====
-- The block map of an inode on the disk, and what one level of a tree answers.
use podumat_os.Prelude.{
  ℕ, zero, suc, ◌+◌, ◌-◌, ◌*◌, ◌/◌, ◌%◌, ◌^◌, ◌≤◌, ◌<◌, ◌≡◌, ◌≢◌, refl, ap, ap₂, sym, ◌∙◌, subst,
  Bool, true, false, List, ltb, leb, ◌==◌, not, length, arith, Bool-cases, if◌then◌else◌, inl, inr,
}
use native.Mathlib.Nat.{mod-lt, div-lt_iff_lt-mul}
use podumat_os.Disk.{Device, IsReliable}
use podumat_os.Ext2.Actions.{Outcome, failed, Fs, Volume, Act, after}
use podumat_os.Ext2.Tree.{i_block, per_block, pointer_in, double_in, triple_in}
use podumat_os.Ext2.Blocks.{SameDisk, SameDisk-refl, SameDisk-trans}
use podumat_os.Ext2.Loaded.{
  entry_on, IsOnDisk, IsReady, Answers, number, nothing, IsReady-kept, pointer_in-Answers,
}

-- How many blocks a tree of `depth` levels maps, with `ppb` entries in an index block.
abbrev pub span : (ppb depth : ℕ) → ℕ
span ppb zero = 1
span ppb (suc zero) = ppb
span ppb (suc (suc d)) = span ppb (suc d) * ppb

-- The first index that the tree of `depth` levels maps.
abbrev pub first_of : (ppb depth : ℕ) → ℕ
first_of ppb zero = 0
first_of ppb (suc zero) = 12
first_of ppb (suc (suc d)) = first_of ppb (suc d) + span ppb (suc d)

module _ (D : Device) (fs : Fs) (s : D.State) where
  -- The tree of `depth` levels with the block `root` maps the index `i` to `blk`, which is 0 where a
  -- block on the way is missing.
  pub data Maps : (depth root i blk : ℕ) → Type 0 where
    leaf : (blk i : ℕ) → Maps 0 blk i blk
    hole : (d i : ℕ) → Maps (suc d) 0 i 0
    node :
        (d root i blk : ℕ)
        → root ≢ 0
        → IsOnDisk D fs s root
        → Maps d (entry_on D fs s root (i / span (per_block fs) d)) (i % span (per_block fs) d) blk
        → Maps (suc d) root i blk

  -- Block `i` of an inode is `blk`: one of the twelve, or in one of the three trees, or behind them.
  pub data IsBlockOf (inode : List ℕ) (i : ℕ) : ℕ → Type 0 where
    direct : i < 12 → IsBlockOf inode i (i_block inode i)
    in_tree :
        (d blk : ℕ)
        → d < 3
        → first_of (per_block fs) (suc d) ≤ i
        → i < first_of (per_block fs) (suc (suc d))
        → Maps (suc d) (i_block inode (12 + d)) (i - first_of (per_block fs) (suc d)) blk
        → IsBlockOf inode i blk
    behind : first_of (per_block fs) 4 ≤ i → IsBlockOf inode i 0

module _ (D : Device) where
  Maps-SameDisk :
      (fs : Fs) (s t : D.State) (d root i blk : ℕ)
      → SameDisk D s t
      → Maps D fs s d root i blk
      → Maps D fs t d root i blk
  Maps-SameDisk fs s t _ _ _ _ same (leaf blk i) = leaf blk i
  Maps-SameDisk fs s t _ _ _ _ same (hole d i) = hole d i
  Maps-SameDisk fs s t _ _ _ _ same (node d root i blk there on m) =
      node d root i blk there (record { ends = omega (arith, on.ends, same.sectors) })
        (subst (λ e. Maps D fs t d e (i % span (per_block fs) d) blk)
          (sym (entry_same (i / span (per_block fs) d))) (Maps-SameDisk fs s t d _ _ blk same m))
    where
      entry_same : (k : ℕ) → entry_on D fs t root k ≡ entry_on D fs s root k
      entry_same k = ap (λ b. podumat_os.Prelude.Words.word_at b (k % 128 * 4)) (same.content _)

  -- A later call on what a first one leaves.
  Answers-trans :
      (v : Volume D) (buf : List ℕ) (t : D.State) (o : Outcome ℕ × Volume D) (n : ℕ)
      → length buf ≡ length v.g_buf
      → SameDisk D v.disk t
      → Answers D (record v { g_buf = buf; disk = t }) o n
      → Answers D v o n
  Answers-trans v buf t _ _ long same (number n c u l k) =
      number n c u (l ∙ long) (SameDisk-trans D v.disk t u same k)
  Answers-trans v buf t _ _ long same (nothing c u l k) =
      nothing c u (l ∙ long) (SameDisk-trans D v.disk t u same k)

  -- A call at the index `i` of a tree of `d` levels on the volume `fs` answers as the tree maps.
  abbrev pub Follows : Fs → (d i : ℕ) → (ℕ → Act D ℕ) → Type 0
  Follows fs d i f =
      (w : Volume D) (root blk : ℕ)
      → w.fs ≡ fs
      → IsReady D w
      → Maps D w.fs w.disk d root i blk
      → Answers D w (f root w) blk

  -- Below an entry 0 there is no block.
  Maps-zero :
      (fs : Fs) (s : D.State) (d root i blk : ℕ) → root ≡ 0 → Maps D fs s d root i blk → blk ≡ 0
  Maps-zero fs s _ _ _ _ e (leaf blk i) = e
  Maps-zero fs s _ _ _ _ e (hole d i) = refl
  Maps-zero fs s _ _ _ _ e (node d root i blk there on m) = absurd (there e)

  next-Answers :
      (d i : ℕ) (f : ℕ → Act D ℕ) (v : Volume D) (blk root : ℕ) (o : Outcome ℕ × Volume D)
      → Follows v.fs d i f
      → IsReady D v
      → Answers D v o root
      → Maps D v.fs v.disk d root i blk
      → Answers D v (after o f) blk
  next-Answers d i f v blk _ _ follows r (number n buf t long same) m =
      Answers-trans v buf t _ blk long same (
        follows (record v { g_buf = buf; disk = t }) n blk refl (IsReady-kept D v buf t long same r)
          (Maps-SameDisk v.fs v.disk t d n i blk same m))
  next-Answers d i f v blk _ _ follows r (nothing buf t long same) m =
      subst (Answers D v (failed, record v { g_buf = buf; disk = t }))
        (sym (Maps-zero v.fs v.disk d 0 i blk refl m)) (nothing buf t long same)

  module _ (R : IsReliable D) where
    pub pointer_in-Follows :
        (fs : Fs) (i : ℕ) → i < per_block fs → Follows fs 1 i (λ p. pointer_in D p i)
    unfolding pointer_in
    pointer_in-Follows fs i short w _ _ e r (hole d _) = nothing _ _ refl (SameDisk-refl D w.disk)
    pointer_in-Follows fs i short w _ _ e r (node _ root _ _ there on (leaf _ _)) =
        subst (λ k. Answers D w (pointer_in D root i w) (entry_on D w.fs w.disk root k))
          (omega arith)
          (pointer_in-Answers D R root i w r there on (subst (λ g. i < per_block g) (sym e) short))

    -- One level: the entry of the root, and what follows it.
    level-Follows :
        (fs : Fs) (d i : ℕ) (f : ℕ → Act D ℕ)
        → i / span (per_block fs) d < per_block fs
        → Follows fs d (i % span (per_block fs) d) f
        → Follows fs (suc d) i (λ p v. after (pointer_in D p (i / span (per_block fs) d) v) f)
    unfolding pointer_in
    level-Follows fs d i f short follows w _ _ e r (hole _ _) =
        nothing _ _ refl (SameDisk-refl D w.disk)
    level-Follows fs d i f short follows w _ _ e r (node _ root _ blk there on m) =
        let short_w : i / span (per_block w.fs) d < per_block w.fs =
          subst (λ g. i / span (per_block g) d < per_block g) (sym e) short in
        let follows_w : Follows w.fs d (i % span (per_block w.fs) d) f =
          subst (λ g. Follows g d (i % span (per_block g) d) f) (sym e) follows in
        subst (λ g. Answers D w (after (pointer_in D root (i / span (per_block g) d) w) f) blk) e
          (next-Answers d (i % span (per_block w.fs) d) f w blk _ _ follows_w r
            (pointer_in-Answers D R root (i / span (per_block w.fs) d) w r there on short_w) m)

    module _ (fs : Fs) (pos : 0 < per_block fs) where
      pub double_in-Follows :
          (i : ℕ)
          → i < per_block fs * per_block fs
          → Follows fs 2 i (λ p. double_in D (per_block fs) p i)
      unfolding double_in
      double_in-Follows i short =
          level-Follows fs 1 i (λ p. pointer_in D p (i % per_block fs))
            ((div-lt_iff_lt-mul pos).1 short)
            (pointer_in-Follows fs (i % per_block fs) (mod-lt i pos))

      pub triple_in-Follows :
          (i : ℕ)
          → i < per_block fs * per_block fs * per_block fs
          → Follows fs 3 i (λ p. triple_in D (per_block fs) p i)
      unfolding triple_in
      triple_in-Follows i short =
          level-Follows fs 2 i
            (λ p. double_in D (per_block fs) p (i % (per_block fs * per_block fs)))
            ((div-lt_iff_lt-mul square).1 (omega (arith, short)))
            (double_in-Follows (i % (per_block fs * per_block fs)) (mod-lt i square))
        where
          square : 0 < per_block fs * per_block fs
          square = grind (arith, pos)
