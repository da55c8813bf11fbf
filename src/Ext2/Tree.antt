-- ===== src/Ext2/Tree.antt =====
-- The block map of an inode in ext2.cpp: twelve blocks, and trees of one, two and three levels.
use Prim.{Unit, tt}
use podumat_os.Prelude.{
  ℕ, zero, suc, ◌+◌, ◌-◌, ◌*◌, ◌/◌, ◌%◌, not, List, ltb, ◌==◌, if◌then◌else◌, replicate, ◌++◌, drop,
}
use podumat_os.Prelude.Words.{word_at, put_word}
use podumat_os.Disk.{Device}
use podumat_os.Ext2.{load_g, load_g2, write_block, require, the_fs, the_g, put_g}
use podumat_os.Ext2.Actions.{done, Fs, Act, give, fail, or_zero, ◌>>=◌, ◌>>◌, ignoring}
use podumat_os.Ext2.Bitmaps.{alloc_block_internal, free_block}

abbrev pub i_block : List ℕ → ℕ → ℕ
i_block inode k = word_at inode (40 + 4 * k)

abbrev pub put_i_block : List ℕ → ℕ → ℕ → List ℕ
put_i_block inode k v = put_word inode (40 + 4 * k) v

-- `((uint32_t*)g_buf)[i]`
abbrev pub pointer : List ℕ → ℕ → ℕ
pointer b i = word_at b (4 * i)

abbrev pub per_block : Fs → ℕ
per_block fs = fs.block_size / 4

module _ (D : Device) where
  -- Entry `i` of the index block `p`.
  unfoldable pub pointer_in : (p i : ℕ) → Act D ℕ
  pointer_in p i = do require D (not (p == 0)); load_g D p; b ← the_g D; give (pointer b i)

  unfoldable pub double_in : (ppb p i : ℕ) → Act D ℕ
  double_in ppb p i = do ind ← pointer_in p (i / ppb); pointer_in ind (i % ppb)

  unfoldable pub triple_in : (ppb p i : ℕ) → Act D ℕ
  triple_in ppb p i = do ind ← pointer_in p (i / (ppb * ppb)); double_in ppb ind (i % (ppb * ppb))

  -- The three trees, for an index behind the twelve blocks.
  unfoldable pub tree_block : Fs → List ℕ → ℕ → Act D ℕ
  tree_block fs inode i =
      let ppb = per_block fs in
      if ltb i ppb
      then pointer_in (i_block inode 12) i
      else if ltb (i - ppb) (ppb * ppb)
      then double_in ppb (i_block inode 13) (i - ppb)
      else if ltb (i - ppb - ppb * ppb) (ppb * ppb * ppb)
      then triple_in ppb (i_block inode 14) (i - ppb - ppb * ppb)
      else give 0

  -- A failure is the block number 0.
  unfoldable pub get_inode_block : List ℕ → ℕ → Act D ℕ
  get_inode_block inode i v =
      let (got, w) =
        (if ltb i 12 then give (i_block inode i) else tree_block v.fs inode (i - 12)) v in
      (done (or_zero got), w)

  -- `memset(g_buf, 0, fs.block_size)`
  abbrev pub blank_g : Act D Unit
  blank_g v =
      (done tt, record v { g_buf = replicate v.fs.block_size 0 ++ drop v.fs.block_size v.g_buf })

  -- A new index block without entries.
  unfoldable pub fresh_index : Act D ℕ
  fresh_index = do ind ← alloc_block_internal D; blank_g; b ← the_g D; write_block D ind b; give ind

  abbrev pub index_or_fresh : ℕ → Act D ℕ
  index_or_fresh p = if p == 0 then fresh_index else give p

  -- Entry `i` of the index block `p` becomes `num`.
  unfoldable pub store_pointer : (p i num : ℕ) → Act D Unit
  store_pointer p i num = do
    load_g D p
    b ← the_g D
    put_g D (put_word b (4 * i) num)
    write_block D p (put_word b (4 * i) num)

  abbrev pub the_g2 : Act D (List ℕ)
  the_g2 v = (done v.g_buf2, v)

  abbrev pub put_g2 : List ℕ → Act D Unit
  put_g2 b v = (done tt, record v { g_buf2 = b })

  -- The index block at entry `i` of `p`, made and entered if there is none.
  unfoldable pub child_index : (p i : ℕ) → Act D ℕ
  child_index p i = do
    load_g2 D p
    b ← the_g2
    if not (pointer b i == 0) then give (pointer b i) else do
      ind ← fresh_index
      put_g2 (put_word b (4 * i) ind)
      write_block D p (put_word b (4 * i) ind)
      give ind

  unfoldable pub set_single : List ℕ → (i num : ℕ) → Act D (List ℕ)
  set_single inode i num = do
    p ← index_or_fresh (i_block inode 12)
    store_pointer p i num
    give (put_i_block inode 12 p)

  unfoldable pub set_double : (ppb : ℕ) → List ℕ → (i num : ℕ) → Act D (List ℕ)
  set_double ppb inode i num = do
    p ← index_or_fresh (i_block inode 13)
    ind ← child_index p (i / ppb)
    store_pointer ind (i % ppb) num
    give (put_i_block inode 13 p)

  unfoldable pub set_triple : (ppb : ℕ) → List ℕ → (i num : ℕ) → Act D (List ℕ)
  set_triple ppb inode i num = do
    p ← index_or_fresh (i_block inode 14)
    dind ← child_index p (i / (ppb * ppb))
    ind ← child_index dind (i % (ppb * ppb) / ppb)
    store_pointer ind (i % (ppb * ppb) % ppb) num
    give (put_i_block inode 14 p)

  unfoldable pub set_tree : Fs → List ℕ → (i num : ℕ) → Act D (List ℕ)
  set_tree fs inode i num =
      let ppb = per_block fs in
      if ltb i ppb
      then set_single inode i num
      else if ltb (i - ppb) (ppb * ppb)
      then set_double ppb inode (i - ppb) num
      else if ltb (i - ppb - ppb * ppb) (ppb * ppb * ppb)
      then set_triple ppb inode (i - ppb - ppb * ppb) num
      else fail

  -- The inode with its new entry; no caller uses it after a failure.
  unfoldable pub set_inode_block : List ℕ → (i num : ℕ) → Act D (List ℕ)
  set_inode_block inode i num v =
      (if ltb i 12 then give (put_i_block inode i num) else set_tree v.fs inode (i - 12) num) v

  -- `if (read_block(...)) body`
  abbrev pub if_loaded : Act D Unit → Act D Unit → Act D Unit
  if_loaded load body = ignoring (load >> body)

  -- The loop over the entries of the index block in g_buf. Each round takes its entry from g_buf as
  -- the calls of free_block before have left it.
  unfoldable pub free_listed : (left j : ℕ) → Act D Unit
  free_listed zero j = give tt
  free_listed (suc left) j = do
    b ← the_g D
    if pointer b j == 0 then give tt else free_block D (pointer b j)
    free_listed left (j + 1)

  -- The block `ind` with the blocks that it lists.
  unfoldable pub free_index : (ppb ind : ℕ) → Act D Unit
  free_index ppb ind = do if_loaded (load_g D ind) (free_listed ppb 0); free_block D ind

  -- The loops over the index blocks in g_buf2, and over those in g_buf.
  unfoldable pub free_indices2 : (ppb left j : ℕ) → Act D Unit
  free_indices2 ppb zero j = give tt
  free_indices2 ppb (suc left) j = do
    b ← the_g2
    if pointer b j == 0 then give tt else free_index ppb (pointer b j)
    free_indices2 ppb left (j + 1)

  unfoldable pub free_indices : (ppb left j : ℕ) → Act D Unit
  free_indices ppb zero j = give tt
  free_indices ppb (suc left) j = do
    b ← the_g D
    if pointer b j == 0 then give tt else free_index ppb (pointer b j)
    free_indices ppb left (j + 1)

  unfoldable pub free_doubles : (ppb left j : ℕ) → Act D Unit
  free_doubles ppb zero j = give tt
  free_doubles ppb (suc left) j = do
    b ← the_g2
    if pointer b j == 0 then give tt else do
      if_loaded (load_g D (pointer b j)) (free_indices ppb ppb 0)
      free_block D (pointer b j)
    free_doubles ppb left (j + 1)

  unfoldable pub free_direct : List ℕ → (left k : ℕ) → Act D Unit
  free_direct inode zero k = give tt
  free_direct inode (suc left) k = do
    if i_block inode k == 0 then give tt else free_block D (i_block inode k)
    free_direct inode left (k + 1)

  -- The root of a tree is freed after the tree, if there is one.
  abbrev pub free_root : ℕ → Act D Unit → Act D Unit
  free_root p tree = if p == 0 then give tt else do tree; free_block D p

  unfoldable pub free_trees : Fs → List ℕ → Act D Unit
  free_trees fs inode = do
    free_root (i_block inode 12)
        (if_loaded (load_g D (i_block inode 12)) (free_listed (per_block fs) 0))
    free_root (i_block inode 13)
        (if_loaded (load_g2 D (i_block inode 13)) (free_indices2 (per_block fs) (per_block fs) 0))
    free_root (i_block inode 14)
        (if_loaded (load_g2 D (i_block inode 14)) (free_doubles (per_block fs) (per_block fs) 0))

  -- Every block is freed; the caller's inode then has no blocks (`no_blocks`).
  unfoldable pub free_inode_blocks : List ℕ → Act D Unit
  free_inode_blocks inode = do fs ← the_fs D; free_direct inode 12 0; free_trees fs inode

-- The inode with the fifteen entries and `i_blocks` zero.
abbrev pub no_blocks : List ℕ → List ℕ
no_blocks inode = clear_from 15 (put_word inode 28 0)
  where
    clear_from : ℕ → List ℕ → List ℕ
    clear_from zero inode = inode
    clear_from (suc k) inode = clear_from k (put_i_block inode k 0)
