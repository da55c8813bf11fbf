-- ===== src/Fat32/Find.antt =====
-- find_entry on the chain of a directory: the search of its sectors one after the other.
use podumat_os.Prelude.{
  ℕ, zero, suc, ◌+◌, ◌≤◌, ◌<◌, ◌≡◌, refl, true, Option, none, some, List, [], ◌∷◌, ◌++◌, length,
  arith, ap, subst, ◌∙◌, sym, u32, ◌^◌,
}
use podumat_os.Prelude.Words.{word_at}
use podumat_os.Disk.{Device, IsReliable}
use podumat_os.Fat32.{Fs, cluster_to_lba, follows, fat_sector, ent_offset, low28, next_cluster}
use podumat_os.Fat32.Names.{name_to_83}
use podumat_os.Fat32.Directory.{Search, ended, passed, found, scan_entries}
use podumat_os.Fat32.Files.{
  Ending, finished, Place, Looked, missing, onward, here, look_in, looked_at, looked_got, looked_on,
  find_chain, find_entry,
}
use podumat_os.Fat32.Table.{fat_entry, IsVolume, next_cluster_lem, read-IsVolume}
use podumat_os.Fat32.Chain.{IsChain}

-- The search of a list of sectors, which hold what `f` says: the directory ends at the first end mark.
unfoldable pub resolve : (f : ℕ → List ℕ) → List ℕ → List ℕ → Option Place
resolve f name83 [] = none
resolve f name83 (l ∷ ls) =
    let rest = resolve f name83 ls in
    elim (scan_entries 16 0 (f l) name83) [
      | ended ↦ none
      | passed ↦ rest
      | found i ↦ some (record { bytes = f l; sector = l; index = i })
    ]

-- `n` sectors from `l` on.
abbrev pub run : (l n : ℕ) → List ℕ
run l zero = []
run l (suc n) = l ∷ run (l + 1) n

abbrev pub dir_sectors : Fs → List ℕ → List ℕ
dir_sectors fs [] = []
dir_sectors fs (c ∷ cs) = run (cluster_to_lba fs c) fs.bpb.sectors_per_cluster ++ dir_sectors fs cs

-- The sectors of the clusters lie below `n`.
abbrev pub AllInside : Fs → (n : ℕ) → List ℕ → Type 0
AllInside fs n [] = Unit {0}
AllInside fs n (c ∷ cs) = (cluster_to_lba fs c + fs.bpb.sectors_per_cluster ≤ n) × AllInside fs n cs

abbrev after_look : Looked → Option Place → Option Place
after_look missing rest = none
after_look (here p) rest = some p
after_look onward rest = rest

module _ (D : Device) (fs : Fs) (R : IsReliable D) where
  -- `t` differs from `s` by reads only.
  pub record Reads (s t : D.State) : Type 0 where
    pub content : D.content t ≡ D.content s
    pub sectors : D.sectors t ≡ D.sectors s
    pub volume : IsVolume D fs s → IsVolume D fs t

  read_once : (l : ℕ) (s : D.State) → Reads s (D.read_sector l s).1
  read_once l s = record {
    content = λ i m. D.read_content l s m i;
    sectors = D.read_sectors l s;
    volume = read-IsVolume D fs l s;
  }

  pub read_then : (s t u : D.State) → Reads s t → Reads t u → Reads s u
  read_then s t u a b = record {
    content = b.content ∙ a.content;
    sectors = b.sectors ∙ a.sectors;
    volume = λ v. b.volume (a.volume v);
  }

  abbrev Looks : (f : ℕ → List ℕ) (name83 ls : List ℕ) → D.State → Looked × D.State → Type 0
  Looks f name83 ls s r =
      Reads s r.1
      × ((more : List ℕ) → resolve f name83 (ls ++ more) ≡ after_look r.0 (resolve f name83 more))

  -- The sector `l`, which holds `b`, and then the rest of the cluster.
  of_scan :
      (x : Search) (f : ℕ → List ℕ) (name83 : List ℕ) (l : ℕ) (b ls : List ℕ) (s t : D.State)
      (rest : Looked × D.State)
      → Reads s t
      → Looks f name83 ls s rest
      → Reads s (looked_at D fs l b rest t x).1
        × ((more : List ℕ)
            → (elim x as (λ y. Option Place) [
              | ended ↦ none
              | passed ↦ resolve f name83 (ls ++ more)
              | found i ↦ some (record { bytes = b; sector = l; index = i })
            ])
              ≡ after_look (looked_at D fs l b rest t x).0 (resolve f name83 more))
  unfolding looked_at
  of_scan ended f name83 l b ls s t rest read looks = (read, λ more. refl)
  of_scan passed f name83 l b ls s t rest read looks = looks
  of_scan (found i) f name83 l b ls s t rest read looks = (read, λ more. refl)

  look_in_lem :
      (left k lba : ℕ) (name83 : List ℕ) (s : D.State)
      → lba + k + left ≤ D.sectors s
      → D.sectors s ≤ 2 ^ 32
      → Looks (D.content s) name83 (run (lba + k) left) s (look_in D fs left k lba name83 s)
  unfolding look_in looked_got resolve
  look_in_lem zero k lba name83 s inside small =
      (record { content = refl; sectors = refl; volume = λ v. v }, λ more. refl)
  look_in_lem (suc left) k lba name83 s inside small =
      let l = lba + k in
      let place : u32 l ≡ l = omega (arith, inside, small) in
      let t = (D.read_sector l s).1 in
      let read = read_once l s in
      let size : D.sectors t ≡ D.sectors s = read.sectors in
      let next : lba + (k + 1) ≡ lba + k + 1 = omega arith in
      let (reads, looks) =
        look_in_lem left (k + 1) lba name83 t (omega (arith, inside, size))
          (omega (arith, small, size)) in
      let looks' : Looks (D.content s) name83 (run (l + 1) left) s
          (look_in D fs left (k + 1) lba name83 t) =
        (
          read_then s t _ read reads,
          subst
              (λ f.
                (more : List ℕ)
                → resolve f name83 (run (l + 1) left ++ more)
                  ≡ after_look (look_in D fs left (k + 1) lba name83 t).0 (resolve f name83 more))
              read.content
              (subst
                (λ x.
                  (more : List ℕ)
                  → resolve (D.content t) name83 (run x left ++ more)
                    ≡ after_look (look_in D fs left (k + 1) lba name83 t).0
                        (resolve (D.content t) name83 more))
                next looks),
        ) in
      let here_now =
        of_scan (scan_entries 16 0 (D.content s l) name83) (D.content s) name83 l (D.content s l)
          (run (l + 1) left) s t (look_in D fs left (k + 1) lba name83 t) read looks' in
      let all = D.content s in
      let ls = run l (suc left) in
      subst
        (λ x. Looks all name83 ls s (
          looked_got D fs x name83 (look_in D fs left (k + 1) lba name83 (D.read_sector x s).1)
            (D.read_sector x s)))
        (sym place)
        (subst
          (λ o.
            Looks all name83 ls s
              (looked_got D fs l name83 (look_in D fs left (k + 1) lba name83 t) (o, t)))
          (sym (R.reads l s (omega (arith, inside)))) here_now)

  pub fat_kept : (s t : D.State) → Reads s t → fat_entry D fs t ≡ fat_entry D fs s
  fat_kept s t r =
      ap {B = ℕ → ℕ} (λ f c. low28 (word_at (f (fat_sector fs c)) (ent_offset c))) r.content

  next-Reads : (c : ℕ) (s : D.State) → Reads s (next_cluster D fs c s).1
  unfolding next_cluster
  next-Reads c s = read_once (fat_sector fs c) s

  -- After a cluster, the search goes on or ends.
  goes_on :
      (s t : D.State) (r : Looked × D.State) (rest : Ending (Option Place) D.State)
      (later : Option Place)
      → Reads s r.1
      → rest ≡ finished later t
      → Reads s t
      → (x : D.State) × (looked_on D fs r rest ≡ finished (after_look r.0 later) x) × Reads s x
  goes_on s t (missing, u) rest later reads e reads_t = (u, refl, reads)
  goes_on s t (onward, u) rest later reads e reads_t = (t, e, reads_t)
  goes_on s t (here p, u) rest later reads e reads_t = (u, refl, reads)

  chain_step :
      (fuel c : ℕ) (name83 : List ℕ) (s : D.State)
      → follows c ≡ true
      → find_chain D fs (suc fuel) name83 c s
        ≡ looked_on D fs
            (look_in D fs fs.bpb.sectors_per_cluster 0 (cluster_to_lba fs c) name83 s)
            (find_chain D fs fuel name83
              (next_cluster D fs c
                (look_in D fs fs.bpb.sectors_per_cluster 0 (cluster_to_lba fs c) name83 s).1).0
              (next_cluster D fs c
                (look_in D fs fs.bpb.sectors_per_cluster 0 (cluster_to_lba fs c) name83 s).1).1)
  unfolding find_chain
  chain_step fuel c name83 s on = simp on refl

  find_chain_lem :
      (cs : List ℕ) (fuel start : ℕ) (name83 : List ℕ) (s : D.State)
      → IsVolume D fs s
      → IsChain D R fs (fat_entry D fs s) start cs
      → AllInside fs (D.sectors s) cs
      → length cs < fuel
      → (t : D.State) × (find_chain D fs fuel name83 start s
          ≡ finished (resolve (D.content s) name83 (dir_sectors fs cs)) t)
        × Reads s t
  unfolding find_chain resolve
  find_chain_lem cs zero start name83 s v chain inside enough = absurd (omega (arith, enough))
  find_chain_lem [] (suc fuel) start name83 s v chain inside enough =
      (s, simp chain refl, record { content = refl; sectors = refl; volume = λ w. w })
  find_chain_lem (c ∷ cs) (suc fuel) start name83 s v (at, on, cluster, once, rest) (low, lows)
        enough =
      let lba = cluster_to_lba fs c in
      let looked = look_in D fs fs.bpb.sectors_per_cluster 0 lba name83 s in
      let (reads, looks) =
        look_in_lem fs.bpb.sectors_per_cluster 0 lba name83 s (omega (arith, low)) v.disk in
      let (entry, v', same) = next_cluster_lem D fs R c looked.1 (reads.volume v) cluster in
      let u = (next_cluster D fs c looked.1).1 in
      let on_s : Reads s u = read_then s looked.1 u reads (next-Reads c looked.1) in
      let from_s : (next_cluster D fs c looked.1).0 ≡ fat_entry D fs s c =
        entry ∙ ap (λ f. f c) (fat_kept s looked.1 reads) in
      let (t, found_rest, reads_t) =
        find_chain_lem cs fuel (next_cluster D fs c looked.1).0 name83 u v'
          (subst (λ f. IsChain D R fs f (next_cluster D fs c looked.1).0 cs)
            (sym (fat_kept s u on_s))
            (subst (λ x. IsChain D R fs (fat_entry D fs s) x cs) (sym from_s) rest))
          (subst (λ n. AllInside fs n cs) (sym on_s.sectors) lows) (omega (arith, enough)) in
      let later = resolve (D.content s) name83 (dir_sectors fs cs) in
      let found_s : find_chain D fs fuel name83 (next_cluster D fs c looked.1).0 u
          ≡ finished later t =
        found_rest ∙ ap (λ f. finished (resolve f name83 (dir_sectors fs cs)) t) on_s.content in
      let (x, e, reads_x) =
        goes_on s t looked _ later reads found_s (read_then s u t on_s reads_t) in
      let lba_is : lba + 0 ≡ lba = omega arith in
      let all : resolve (D.content s) name83
            (run lba fs.bpb.sectors_per_cluster ++ dir_sectors fs cs)
          ≡ after_look looked.0 later =
        subst
          (λ y.
            resolve (D.content s) name83 (run y fs.bpb.sectors_per_cluster ++ dir_sectors fs cs)
            ≡ after_look looked.0 later)
          lba_is (looks (dir_sectors fs cs)) in
      (
        x,
        ap (λ y. find_chain D fs (suc fuel) name83 y s) at
            ∙ chain_step fuel c name83 s on
            ∙ e
            ∙ ap (λ o. finished o x) (sym all),
        reads_x,
      )

  abbrev pub Finds : D.State → Option Place → Ending (Option Place) D.State → Type 0
  Finds s o e = (t : D.State) × (e ≡ finished o t) × Reads s t

  -- On a disk without faults and a directory whose clusters are the chain `cs` and lie on the disk, with
  -- more fuel than clusters, the search of the chain ends, changes nothing on the medium, and finds what
  -- the search of all the sectors of the chain, one after the other, finds.
  pub find_entry_lem :
      (cs : List ℕ) (fuel dir : ℕ) (name : List ℕ) (s : D.State)
      → IsVolume D fs s
      → IsChain D R fs (fat_entry D fs s) dir cs
      → AllInside fs (D.sectors s) cs
      → length cs < fuel
      → Finds s
          (resolve (D.content s) (name_to_83 name) (dir_sectors fs cs))
          (find_entry D fs fuel dir name s)
  unfolding find_entry
  find_entry_lem cs fuel dir name s v chain inside enough =
      find_chain_lem cs fuel dir (name_to_83 name) s v chain inside enough
