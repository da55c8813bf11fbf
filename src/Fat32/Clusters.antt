-- ===== src/Fat32/Clusters.antt =====
-- read_cluster and write_cluster: the sectors of a cluster, and what a cluster that was written gives
-- back.
use mathlib.Core.Option
use podumat_os.Prelude.{
  ℕ, zero, suc, ◌+◌, ◌-◌, ◌*◌, ◌^◌, ◌≤◌, ◌<◌, ◌≡◌, refl, inl, inr, Bool, true, false, List, [], ◌∷◌,
  ◌++◌, Option, none, some, ltb, leb, ◌==◌, ◌&&◌, if◌then◌else◌, take, drop, drop-drop, Bool-cases,
  arith, ap, ap₂, ◌∙◌, sym, u32,
}
use podumat_os.Disk.{Device, IsReliable}
use podumat_os.Fat32.{Fs, cluster_to_lba}
use podumat_os.Disk.Stores.{write_content}

-- `buffer + k * 512`, the 512 bytes that the disk takes from there.
abbrev pub chunk : List ℕ → ℕ → List ℕ
chunk buffer k = take 512 (drop (k * 512) buffer)

take-add : (a b : ℕ) (xs : List ℕ) → take (a + b) xs ≡ take a xs ++ take b (drop a xs)
take-add zero b xs = ap (λ n. take n xs) (omega arith)
take-add (suc a) b [] = take_nil (suc a + b) ∙ sym (take_nil b)
  where
    take_nil : (n : ℕ) → take {A = ℕ} n [] ≡ []
    take_nil zero = refl
    take_nil (suc n) = refl
take-add (suc a) b (x ∷ xs) =
    let same : suc (a + b) ≡ suc a + b = omega arith in
    ap (λ n. take n (x ∷ xs)) (sym same) ∙ ap (λ ys. x ∷ ys) (take-add a b xs)

module _ (D : Device) where
  -- The loops of the two functions from sector `k` on, with `left` sectors to go.
  pub join_rest : Option (List ℕ) × D.State → Option (List ℕ) × D.State → Option (List ℕ) × D.State
  join_rest (none, s) rest = (none, s)
  join_rest (some b, s) (more, t) = (Option.map (λ bs. b ++ bs) more, t)

  pub read_from : (left k lba : ℕ) → D.State → Option (List ℕ) × D.State
  unfolding join_rest
  read_from zero k lba s = (some [], s)
  read_from (suc left) k lba s =
      let got = D.read_sector (u32 (lba + k)) s in join_rest got (read_from left (k + 1) lba got.1)

  pub write_from : (left k lba : ℕ) → List ℕ → D.State → Bool × D.State
  write_from zero k lba buffer s = (true, s)
  write_from (suc left) k lba buffer s =
      let (done, s') = D.write_sector (u32 (lba + k)) (chunk buffer k) s in
      let rest = write_from left (k + 1) lba buffer s' in if done then rest else (false, s')

  pub read_cluster : Fs → ℕ → D.State → Option (List ℕ) × D.State
  unfolding read_from
  read_cluster fs cluster s = read_from fs.bpb.sectors_per_cluster 0 (cluster_to_lba fs cluster) s

  pub write_cluster : Fs → ℕ → List ℕ → D.State → Bool × D.State
  unfolding write_from
  write_cluster fs cluster buffer s =
      write_from fs.bpb.sectors_per_cluster 0 (cluster_to_lba fs cluster) buffer s

  module _ (R : IsReliable D) where
    -- The sectors from `lba` on hold the chunks of the buffer, and the others what they held.
    abbrev Holds : (left k lba : ℕ) → List ℕ → D.State → D.State → Type 0
    Holds left k lba buffer s t =
        (m : ℕ)
        → D.content t m ≡ (
            if leb (lba + k) m && ltb m (lba + k + left)
            then chunk buffer (m - lba)
            else D.content s m)

    write_from_lem :
        (left k lba : ℕ) (buffer : List ℕ) (s : D.State)
        → lba + k + left ≤ D.sectors s
        → D.sectors s ≤ 2 ^ 32
        → ((write_from left k lba buffer s).0 ≡ true)
          × Holds left k lba buffer s (write_from left k lba buffer s).1
          × (D.sectors (write_from left k lba buffer s).1 ≡ D.sectors s)
    unfolding write_from
    write_from_lem zero k lba buffer s inside small = (refl, λ m. ground arith, refl)
    write_from_lem (suc left) k lba buffer s inside small =
        let place : u32 (lba + k) ≡ lba + k = omega arith in
        let t = (D.write_sector (lba + k) (chunk buffer k) s).1 in
        let size = D.write_sectors (lba + k) (chunk buffer k) s in
        let (done, holds, same) =
          write_from_lem left (k + 1) lba buffer t (omega (arith, size)) (omega (arith, size)) in
        simp (place, R.writes (lba + k) (chunk buffer k) s (omega arith))
          (done, λ m. holds m ∙ step m, same ∙ size)
      where
        step :
            (m : ℕ)
            → (if leb (lba + (k + 1)) m && ltb m (lba + (k + 1) + left)
                then chunk buffer (m - lba)
                else D.content (D.write_sector (lba + k) (chunk buffer k) s).1 m)
              ≡ (if leb (lba + k) m && ltb m (lba + k + suc left)
                  then chunk buffer (m - lba)
                  else D.content s m)
        step m = elim (Bool-cases (m == lba + k)) [
          | inl at ↦
              let same : m - lba ≡ k = ground (arith, at) in
              let below : (leb (lba + (k + 1)) m && ltb m (lba + (k + 1) + left)) ≡ false =
                ground (arith, at) in
              let within : (leb (lba + k) m && ltb m (lba + k + suc left)) ≡ true =
                ground (arith, at) in
              simp
                (
                  below,
                  within,
                  same,
                  write_content D R (lba + k) (chunk buffer k) s m (omega arith),
                  at,
                )
                refl
          | inr off ↦
              let range : (leb (lba + (k + 1)) m && ltb m (lba + (k + 1) + left))
                  ≡ (leb (lba + k) m && ltb m (lba + k + suc left)) =
                ground (arith, off) in
              simp (range, write_content D R (lba + k) (chunk buffer k) s m (omega arith), off) refl
        ]

    -- The contents of sectors one after the other.
    joined : (left k lba : ℕ) → D.State → List ℕ
    joined zero k lba s = []
    joined (suc left) k lba s = D.content s (lba + k) ++ joined left (k + 1) lba s

    joined_ext :
        (left k lba : ℕ) (s t : D.State)
        → ((m : ℕ) → D.content t m ≡ D.content s m)
        → joined left k lba t ≡ joined left k lba s
    unfolding joined
    joined_ext zero k lba s t same = refl
    joined_ext (suc left) k lba s t same =
        ap₂ (λ x y. x ++ y) (same (lba + k)) (joined_ext left (k + 1) lba s t same)

    read_from_lem :
        (left k lba : ℕ) (s : D.State)
        → lba + k + left ≤ D.sectors s
        → D.sectors s ≤ 2 ^ 32
        → (read_from left k lba s).0 ≡ some (joined left k lba s)
    unfolding read_from joined
    read_from_lem zero k lba s inside small = refl
    read_from_lem (suc left) k lba s inside small =
        let place : u32 (lba + k) ≡ lba + k = omega arith in
        let size = D.read_sectors (lba + k) s in
        let t = (D.read_sector (lba + k) s).1 in
        let more =
          read_from_lem left (k + 1) lba t (omega (arith, size)) (omega (arith, size))
          ∙ ap some (joined_ext left (k + 1) lba s t (D.read_content (lba + k) s)) in
        simp place (
          ap (λ o. (join_rest (o, t) (read_from left (k + 1) lba t)).0)
            (R.reads (lba + k) s (omega arith))
          ∙ ap (Option.map (λ bs. D.content s (lba + k) ++ bs)) more)

    -- The first `n` chunks from chunk `k` on are the bytes from there on.
    chunks : (left k : ℕ) → List ℕ → List ℕ
    chunks zero k buffer = []
    chunks (suc left) k buffer = chunk buffer k ++ chunks left (k + 1) buffer

    joined-Holds :
        (left k lba : ℕ) (buffer : List ℕ) (t : D.State)
        → ((m : ℕ) → lba + k ≤ m → m < lba + k + left → D.content t m ≡ chunk buffer (m - lba))
        → joined left k lba t ≡ chunks left k buffer
    unfolding joined chunks
    joined-Holds zero k lba buffer t holds = refl
    joined-Holds (suc left) k lba buffer t holds =
        let index : lba + k - lba ≡ k = omega arith in
        ap₂ (λ x y. x ++ y) (holds (lba + k) (omega arith) (omega arith) ∙ ap (chunk buffer) index)
          (joined-Holds left (k + 1) lba buffer t (λ m lo hi. holds m (omega arith) (omega arith)))

    chunks_lem :
        (left k : ℕ) (buffer : List ℕ)
        → chunks left k buffer ≡ take (left * 512) (drop (k * 512) buffer)
    unfolding chunks
    chunks_lem zero k buffer = refl
    chunks_lem (suc left) k buffer =
        let total : 512 + left * 512 ≡ suc left * 512 = omega arith in
        let next : k * 512 + 512 ≡ (k + 1) * 512 = omega arith in
        ap (λ x. chunk buffer k ++ x)
          (chunks_lem left (k + 1) buffer
            ∙ ap (λ i. take (left * 512) (drop i buffer)) (sym next)
            ∙ ap (take (left * 512)) (sym (drop-drop (k * 512) 512 buffer)))
        ∙ sym (take-add 512 (left * 512) (drop (k * 512) buffer))
        ∙ ap (λ n. take n (drop (k * 512) buffer)) total

    -- On a disk without faults, for a cluster that lies on it and a buffer of any contents,
    -- `write_cluster` succeeds, and `read_cluster` of the same cluster then gives the bytes of the
    -- buffer, as many as the cluster holds.
    pub read_cluster-write_cluster :
        (fs : Fs) (cluster : ℕ) (buffer : List ℕ) (s : D.State)
        → cluster_to_lba fs cluster + fs.bpb.sectors_per_cluster ≤ D.sectors s
        → D.sectors s ≤ 2 ^ 32
        → let w = write_cluster fs cluster buffer s in
          (w.0 ≡ true)
          × ((read_cluster fs cluster w.1).0
              ≡ some (take (fs.bpb.sectors_per_cluster * 512) buffer))
    unfolding read_cluster write_cluster
    read_cluster-write_cluster fs cluster buffer s inside small =
        let n = fs.bpb.sectors_per_cluster in
        let lba = cluster_to_lba fs cluster in
        let (done, holds, same) = write_from_lem n 0 lba buffer s (omega arith) small in
        let t = (write_from n 0 lba buffer s).1 in
        (
          done,
          read_from_lem n 0 lba t (omega (arith, same)) (omega (arith, same))
              ∙ ap some (
                  joined-Holds n 0 lba buffer t (λ m lo hi.
                    let inside_run : (leb (lba + 0) m && ltb m (lba + 0 + n)) ≡ true =
                      ground (arith, lo, hi) in
                    holds m ∙ simp inside_run refl)
                  ∙ chunks_lem n 0 buffer),
        )
