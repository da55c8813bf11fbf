-- ===== src/Fat32/Chain.antt =====
-- alloc_cluster and free_chain: the first free cluster is taken, and a chain is freed whole.
use podumat_os.Prelude.{
  ℕ, zero, suc, ◌+◌, ◌-◌, ◌*◌, ◌≤◌, ◌<◌, ◌≡◌, ◌≢◌, refl, ◌⊎◌, inl, inr, true, false, List, [], ◌∷◌,
  Option, some, ◌==◌, ◌||◌, if◌then◌else◌, length, ==_iff, Bool-cases, ne→==, arith, ap, subst, ◌∙◌,
  sym, u32,
}
use podumat_os.Prelude.Members.{is_in}
use podumat_os.Disk.{Device, IsReliable}
use podumat_os.Fat32.{
  Fs, end_mark, follows, next_cluster, set_cluster, alloc_loop, alloc_cluster, free_chain,
}
use podumat_os.Fat32.Table.{fat_entry, IsVolume, IsCluster, next_cluster_lem}
use podumat_os.Fat32.Entries.{set_cluster_lem}

-- `c` is none of the clusters of the list.
abbrev pub NotIn : ℕ → List ℕ → Type 0
NotIn c [] = Unit {0}
NotIn c (d ∷ ds) = (c ≢ d) × NotIn c ds

NotIn-is_in : (c : ℕ) (ds : List ℕ) → NotIn c ds → is_in c ds ≡ false
unfolding is_in
NotIn-is_in c [] h = refl
NotIn-is_in c (d ∷ ds) h = simp (ne→== c d h.0) (NotIn-is_in c ds h.1)

module _ (D : Device) (R : IsReliable D) (fs : Fs) where
  -- No cluster of those from `c` on is free, and the call has changed no entry.
  abbrev pub NoneFree : ℕ → ℕ → D.State → ℕ × D.State → Type 0
  NoneFree left c s r =
      (r.0 ≡ 0)
      × ((e : ℕ) → c ≤ e → e < c + left → fat_entry D fs s e ≢ 0)
      × IsVolume D fs r.1
      × ((e : ℕ) → IsCluster D fs e → fat_entry D fs r.1 e ≡ fat_entry D fs s e)

  -- The result is the first free cluster from `c` on; it is now the end of a chain.
  abbrev pub TakesFirst : ℕ → ℕ → D.State → ℕ × D.State → Type 0
  TakesFirst left c s r =
      (c ≤ r.0)
      × (r.0 < c + left)
      × (fat_entry D fs s r.0 ≡ 0)
      × ((e : ℕ) → c ≤ e → e < r.0 → fat_entry D fs s e ≢ 0)
      × IsVolume D fs r.1
      × ((e : ℕ)
          → IsCluster D fs e
          → fat_entry D fs r.1 e ≡ (if e == r.0 then end_mark else fat_entry D fs s e))

  same_entries :
      (s t : D.State)
      → ((m : ℕ) → D.content t m ≡ D.content s m)
      → (e : ℕ) → fat_entry D fs t e ≡ fat_entry D fs s e
  same_entries s t same e = simp same refl

  none_before :
      (n c : ℕ) (s t : D.State)
      → ((e : ℕ) → fat_entry D fs t e ≡ fat_entry D fs s e)
      → fat_entry D fs s c ≢ 0
      → ((e : ℕ) → c + 1 ≤ e → e < n → fat_entry D fs t e ≢ 0)
      → (e : ℕ) → c ≤ e
      → e < n
      → fat_entry D fs s e ≢ 0
  none_before n c s t same here after e lo hi = elim (Bool-cases (e == c)) [
    | inl at ↦ λ z. here (ap (fat_entry D fs s) (sym ((==_iff e c).0 at)) ∙ z)
    | inr past ↦ λ z. after e (ground (arith, past)) hi (same e ∙ z)
  ]

  alloc_loop_lem :
      (left c : ℕ) (s : D.State)
      → IsVolume D fs s
      → c + left ≤ 128 * fs.bpb.fat_size_32
      → NoneFree left c s (alloc_loop D fs left c s)
        ⊎ TakesFirst left c s (alloc_loop D fs left c s)
  unfolding alloc_loop
  alloc_loop_lem zero c s v fit = inl (refl, λ e lo hi. absurd (omega arith), v, λ e k. refl)
  alloc_loop_lem (suc left) c s v fit =
      let (read, v', same) = next_cluster_lem D fs R c s v (omega arith) in
      let s' = (next_cluster D fs c s).1 in
      let entries = same_entries s s' same in
      let used_here : (next_cluster D fs c s).0 == 0 ≡ false → fat_entry D fs s c ≢ 0 =
        λ used z. ground (arith, used, read, z) in
      elim (Bool-cases ((next_cluster D fs c s).0 == 0)) [
        | inl free ↦
            let (done, kept, set) = set_cluster_lem D R fs c end_mark s' v' (omega arith) in
            simp free (
              inr (
                omega arith,
                omega arith,
                sym read ∙ (==_iff (next_cluster D fs c s).0 0).0 free,
                λ e lo hi. absurd (omega arith),
                kept,
                λ e k. set e k ∙ ap (λ x. if e == c then end_mark else x) (entries e),
              ))
        | inr used ↦ simp used (elim (alloc_loop_lem left (c + 1) s' v' (omega arith)) [
          | inl (zero_result, all_used, kept, others) ↦ inl (
            zero_result,
            none_before (c + suc left) c s s' entries (used_here used)
                (λ e lo hi. all_used e lo (omega arith)),
            kept,
            λ e k. others e k ∙ entries e,
          )
          | inr (low, high, free, before, kept, others) ↦ inr (
            omega (arith, low),
            omega (arith, high),
            sym (entries (alloc_loop D fs left (c + 1) s').0) ∙ free,
            none_before (alloc_loop D fs left (c + 1) s').0 c s s' entries (used_here used) before,
            kept,
            λ e k.
                others e k
                ∙ ap (λ x. if e == (alloc_loop D fs left (c + 1) s').0 then end_mark else x)
                    (entries e),
          )
        ])
      ]

  -- On a disk without faults and a volume whose tables lie on it, `alloc_cluster` either takes the
  -- first free cluster, ends a chain with it and changes no other entry, or finds no free cluster,
  -- returns 0 and changes no entry.
  pub alloc_cluster_lem :
      (s : D.State)
      → IsVolume D fs s
      → NoneFree fs.total_clusters 2 s (alloc_cluster D fs s)
        ⊎ TakesFirst fs.total_clusters 2 s (alloc_cluster D fs s)
  unfolding alloc_cluster
  alloc_cluster_lem s v =
      let rounds : u32 (fs.total_clusters + 2) - 2 ≡ fs.total_clusters =
        omega (arith, v.fits, v.small) in
      subst
        (λ n.
          NoneFree fs.total_clusters 2 s (alloc_loop D fs n 2 s)
          ⊎ TakesFirst fs.total_clusters 2 s (alloc_loop D fs n 2 s))
        (sym rounds) (alloc_loop_lem fs.total_clusters 2 s v (omega (arith, v.fits)))

  -- The table `f` holds a chain of the clusters `cs`, each of them once, from `start` on.
  abbrev pub IsChain : (ℕ → ℕ) → ℕ → List ℕ → Type 0
  IsChain f start [] = follows start ≡ false
  IsChain f start (c ∷ cs) =
      (start ≡ c) × (follows c ≡ true) × IsCluster D fs c × NotIn c cs × IsChain f (f c) cs

  IsChain-update :
      (f g : ℕ → ℕ) (c start : ℕ) (cs : List ℕ)
      → ((e : ℕ) → IsCluster D fs e → c ≢ e → g e ≡ f e)
      → NotIn c cs
      → IsChain f start cs
      → IsChain g start cs
  IsChain-update f g c start [] same out h = h
  IsChain-update f g c start (d ∷ ds) same out (at, on, inside, alone, rest) = (
    at,
    on,
    inside,
    alone,
    subst (λ x. IsChain g x ds) (sym (same d inside out.0))
        (IsChain-update f g c (f d) ds same out.1 rest),
  )

  abbrev pub Frees : List ℕ → D.State → Option D.State → Type 0
  Frees cs s r =
      (t : D.State) × (r ≡ some t)
      × IsVolume D fs t
      × ((e : ℕ)
          → IsCluster D fs e
          → fat_entry D fs t e ≡ (if is_in e cs then 0 else fat_entry D fs s e))

  Frees-more :
      (c : ℕ) (cs : List ℕ) (s u : D.State) (r : Option D.State)
      → ((e : ℕ)
          → IsCluster D fs e
          → fat_entry D fs u e ≡ (if e == c then 0 else fat_entry D fs s e))
      → Frees cs u r
      → Frees (c ∷ cs) s r
  unfolding is_in
  Frees-more c cs s u r set (t, ends, kept, others) =
      (t, ends, kept, λ e k. others e k ∙ merge e (set e k))
    where
      merge :
          (e : ℕ)
          → fat_entry D fs u e ≡ (if e == c then 0 else fat_entry D fs s e)
          → (if is_in e cs then 0 else fat_entry D fs u e)
            ≡ (if e == c || is_in e cs then 0 else fat_entry D fs s e)
      merge e one = elim (Bool-cases (e == c)) [
        | inl here ↦
            simp (one, here)
              (elim (Bool-cases (is_in e cs)) [ inl y ↦ simp y refl | inr n ↦ simp n refl ])
        | inr there ↦ simp (one, there) refl
      ]

  -- On a disk without faults and a volume whose tables lie on it, for a chain of distinct clusters
  -- of the table and more rounds than it has clusters, `free_chain` ends; every entry of the chain
  -- is then 0, every other entry is as it was, and the volume keeps its shape.
  pub free_chain_lem :
      (cs : List ℕ) (fuel start : ℕ) (s : D.State)
      → IsVolume D fs s
      → IsChain (fat_entry D fs s) start cs
      → length cs < fuel
      → Frees cs s (free_chain D fs fuel start s)
  unfolding free_chain is_in
  free_chain_lem cs zero start s v chain enough = absurd (omega arith)
  free_chain_lem [] (suc fuel) start s v ended enough = simp ended (s, refl, v, λ e k. refl)
  free_chain_lem (c ∷ cs) (suc fuel) start s v (at, on, inside, alone, rest) enough =
      let (read, v', same) = next_cluster_lem D fs R c s v inside in
      let (done, kept, set) = set_cluster_lem D R fs c 0 (next_cluster D fs c s).1 v' inside in
      let zeroed = λ (e : ℕ) (k : IsCluster D fs e).
        set e k
        ∙ ap (λ x. if e == c then 0 else x) (same_entries s (next_cluster D fs c s).1 same e) in
      subst (λ x. Frees (c ∷ cs) s (free_chain D fs (suc fuel) x s)) (sym at)
        (simp on (
          Frees-more c cs s (set_cluster D fs c 0 (next_cluster D fs c s).1).1 _ zeroed (
            free_chain_lem cs fuel (next_cluster D fs c s).0
              (set_cluster D fs c 0 (next_cluster D fs c s).1).1 kept
              (subst
                (λ n.
                  IsChain (fat_entry D fs (set_cluster D fs c 0 (next_cluster D fs c s).1).1) n cs)
                (sym read)
                (IsChain-update (fat_entry D fs s)
                  (fat_entry D fs (set_cluster D fs c 0 (next_cluster D fs c s).1).1) c
                  (fat_entry D fs s c) cs
                  (λ e k ne. zeroed e k ∙ simp (ne→== e c (λ same. ne (sym same))) refl) alone
                  rest))
              (omega arith))))
