-- ===== src/Ext2/Mapped.antt =====
-- get_inode_block finds the block that the inode and its trees on the disk give.
use podumat_os.Prelude.{
  ℕ, zero, suc, ◌+◌, ◌-◌, ◌*◌, ◌≤◌, ◌<◌, ◌≡◌, refl, subst, true, false, List, ltb, arith,
}
use podumat_os.Disk.{Device, IsReliable}
use podumat_os.Ext2.Actions.{Outcome, done, Volume, or_zero}
use podumat_os.Ext2.Tree.{i_block, per_block, tree_block, get_inode_block}
use podumat_os.Ext2.Blocks.{SameDisk-refl}
use podumat_os.Ext2.Loaded.{IsReady, Answers, number, nothing}
use podumat_os.Ext2.BlockMap.{
  first_of, Maps, IsBlockOf, direct, in_tree, behind, pointer_in-Follows, double_in-Follows,
  triple_in-Follows,
}

module _ (D : Device) (R : IsReliable D) where
  per_block-pos : {v : Volume D} → IsReady D v → 0 < per_block v.fs
  per_block-pos r = omega (arith, r.sized.sectors, r.sized.positive)

  -- Every tree lies behind the twelve blocks.
  beyond_direct : (ppb i d : ℕ) → first_of ppb (suc d) ≤ i → 12 ≤ i
  beyond_direct ppb i zero h = h
  beyond_direct ppb i (suc d) h = beyond_direct ppb i d (omega (arith, h))

  -- The range of each tree, and the tests of the code that lead to it.
  tree_block-Answers :
      (inode : List ℕ) (i blk : ℕ) (v : Volume D) (d : ℕ)
      → IsReady D v
      → d < 3
      → first_of (per_block v.fs) (suc d) ≤ i
      → i < first_of (per_block v.fs) (suc (suc d))
      → Maps D v.fs v.disk
          (suc d)
          (i_block inode (12 + d))
          (i - first_of (per_block v.fs) (suc d))
          blk
      → Answers D v (tree_block D v.fs inode (i - 12) v) blk
  unfolding tree_block
  tree_block-Answers inode i blk v zero r few lo hi m =
      let small : ltb (i - 12) (per_block v.fs) ≡ true = ground (arith, lo, hi) in
      simp small (pointer_in-Follows D R v.fs (i - 12) (omega (arith, lo, hi)) v _ blk refl r m)
  tree_block-Answers inode i blk v (suc zero) r few lo hi m =
      let ppb : ℕ = per_block v.fs in
      let place : i - (12 + ppb) ≡ i - 12 - ppb = omega arith in
      let past : ltb (i - 12) ppb ≡ false = ground (arith, lo) in
      let small : ltb (i - 12 - ppb) (ppb * ppb) ≡ true = ground (arith, lo, hi) in
      simp (past, small)
        (double_in-Follows D R v.fs (per_block-pos r) (i - 12 - ppb) (omega (arith, lo, hi)) v _ blk
          refl r (subst (λ k. Maps D v.fs v.disk 2 (i_block inode 13) k blk) place m))
  tree_block-Answers inode i blk v (suc (suc zero)) r few lo hi m =
      let ppb : ℕ = per_block v.fs in
      let place : i - (12 + ppb + ppb * ppb) ≡ i - 12 - ppb - ppb * ppb = omega arith in
      let past : ltb (i - 12) ppb ≡ false = ground (arith, lo) in
      let past2 : ltb (i - 12 - ppb) (ppb * ppb) ≡ false = ground (arith, lo) in
      let small : ltb (i - 12 - ppb - ppb * ppb) (ppb * ppb * ppb) ≡ true =
        ground (arith, lo, hi) in
      simp (past, past2, small)
        (triple_in-Follows D R v.fs (per_block-pos r) (i - 12 - ppb - ppb * ppb)
          (omega (arith, lo, hi)) v _ blk refl r
          (subst (λ k. Maps D v.fs v.disk 3 (i_block inode 14) k blk) place m))
  tree_block-Answers inode i blk v (suc (suc (suc d))) r few lo hi m = absurd (omega (arith, few))

  beyond-Answers :
      (inode : List ℕ) (i : ℕ) (v : Volume D)
      → first_of (per_block v.fs) 4 ≤ i
      → Answers D v (tree_block D v.fs inode (i - 12) v) 0
  unfolding tree_block
  beyond-Answers inode i v lo =
      let ppb : ℕ = per_block v.fs in
      let past : ltb (i - 12) ppb ≡ false = ground (arith, lo) in
      let past2 : ltb (i - 12 - ppb) (ppb * ppb) ≡ false = ground (arith, lo) in
      let past3 : ltb (i - 12 - ppb - ppb * ppb) (ppb * ppb * ppb) ≡ false = ground (arith, lo) in
      simp (past, past2, past3) (number 0 _ _ refl (SameDisk-refl D v.disk))

  -- The call gives a number also where the search failed.
  caught :
      (v : Volume D) (o : Outcome ℕ × Volume D) (n : ℕ)
      → Answers D v o n
      → Answers D v (done (or_zero o.0), o.1) n
  caught v _ _ (number n buf t long same) = number n buf t long same
  caught v _ _ (nothing buf t long same) = number 0 buf t long same

  from_tree :
      (inode : List ℕ) (i blk : ℕ) (v : Volume D)
      → 12 ≤ i
      → Answers D v (tree_block D v.fs inode (i - 12) v) blk
      → Answers D v (get_inode_block D inode i v) blk
  unfolding get_inode_block
  from_tree inode i blk v far a =
      let past : ltb i 12 ≡ false = ground (arith, far) in
      simp past (caught v (tree_block D v.fs inode (i - 12) v) blk a)

  -- On a disk without faults with sectors of 512 bytes, for blocks of at most 4096 bytes in whole
  -- sectors, get_inode_block gives the block that the entries of the inode and the index blocks on
  -- the disk map the index to, through up to three levels, and 0 where a block is missing or the
  -- index lies behind the trees; it changes g_buf only, and not the medium. The index blocks on the
  -- way lie on the disk.
  pub get_inode_block-Answers :
      (inode : List ℕ) (i blk : ℕ) (v : Volume D)
      → IsReady D v
      → IsBlockOf D v.fs v.disk inode i blk
      → Answers D v (get_inode_block D inode i v) blk
  unfolding get_inode_block
  get_inode_block-Answers inode i _ v r (direct h) =
      let near : ltb i 12 ≡ true = ground (arith, h) in
      simp near (number (i_block inode i) _ _ refl (SameDisk-refl D v.disk))
  get_inode_block-Answers inode i _ v r (in_tree d blk few lo hi m) =
      from_tree inode i blk v (beyond_direct (per_block v.fs) i d lo)
        (tree_block-Answers inode i blk v d r few lo hi m)
  get_inode_block-Answers inode i _ v r (behind lo) =
      from_tree inode i 0 v (omega (arith, lo)) (beyond-Answers inode i v lo)
