-- ===== src/Fat32/Operations.antt =====
-- read_file, write_file, create_dir, delete_file, cd and get_path. The buffer of read_file is the list
-- of the bytes that are written to it from its start.
use podumat_os.Prelude.{
  ℕ, zero, suc, ◌+◌, ◌-◌, ◌*◌, Bool, true, false, not, ◌&&◌, ◌||◌, Option, none, some, List, [],
  ◌∷◌, ◌++◌, length, set, ltb, ◌==◌, if◌then◌else◌, replicate, take, drop,
}
use podumat_os.Prelude.Words.{put_word}
use podumat_os.Disk.{Device}
use podumat_os.Fat32.{Fs, follows, next_cluster, set_cluster, alloc_cluster, free_chain}
use podumat_os.Fat32.Clusters.{read_cluster, write_cluster}
use podumat_os.Fat32.Files.{
  Ending, finished, overruns, unfinished, continue, Place, entry_cluster, entry_size, is_directory,
  new_entry, find_entry, create_file_entry,
}

abbrev pub is_slash : ℕ → Bool
is_slash c = c == 47 || c == 92

-- `if (path[0] == '/' || path[0] == '\\') path++`
unfoldable pub strip : List ℕ → List ℕ
strip [] = []
strip (c ∷ cs) = if is_slash c then cs else c ∷ cs

-- The path is `/`.
unfoldable pub is_root : List ℕ → Bool
is_root [] = false
is_root (c ∷ []) = c == 47
is_root (c ∷ d ∷ ds) = false

abbrev pub blanks : ℕ → List ℕ
blanks n = replicate n 32

-- The entries `.` and `..` of a new directory, and zeros up to the end of the cluster.
pub dir_bytes : (size self parent : ℕ) → List ℕ
dir_bytes size self parent =
    new_entry (46 ∷ blanks 10) 0x10 self
    ++ new_entry (46 ∷ 46 ∷ blanks 9) 0x10 parent
    ++ replicate (size - 64) 0

-- `to_write` bytes of the data, and zeros up to the end of the cluster.
pub cluster_bytes : (size : ℕ) → List ℕ → List ℕ
cluster_bytes size data_left =
    let to_write = (if ltb (length data_left) size then length data_left else size) in
    take to_write data_left ++ replicate (size - to_write) 0

-- What a buffer that was never written holds where the read into it fails, and the read bytes else.
abbrev pub or_stack : List ℕ → Option (List ℕ) → List ℕ
or_stack stack none = stack
or_stack stack (some b) = b

-- The size of `cluster_buf` and `buf`.
abbrev pub stack_buffer : ℕ
stack_buffer = 4096

module _ (D : Device) (fs : Fs) where
  -- The loop of read_file; the buffer holds `buf`, and the pointer stands at `pos`.
  unfoldable pub read_loop :
      (fuel cluster remaining pos : ℕ) → List ℕ → D.State → Ending (Option (List ℕ)) D.State
  read_loop zero cluster remaining pos buf s = unfinished
  read_loop (suc fuel) cluster remaining pos buf s =
      let to_read =
        (if ltb remaining fs.bytes_per_cluster then remaining else fs.bytes_per_cluster) in
      let (got, s1) = read_cluster D fs cluster s in
      let (next, s2) = next_cluster D fs cluster s1 in
      let on : Ending (Option (List ℕ)) D.State = elim got [
        | none ↦ finished none s1
        | some b ↦
            read_loop fuel next (remaining - to_read) (pos + to_read)
              (take pos buf ++ b ++ drop (pos + length b) buf) s2
      ] in
      if follows cluster && ltb 0 remaining then on else finished (some buf) s

  -- The bytes that read_file leaves in the buffer, and the size that it reports.
  unfoldable pub read_file : (fuel : ℕ) → List ℕ → D.State → Ending (Option (List ℕ × ℕ)) D.State
  read_file fuel path s =
      let read = λ (p : Place) (t : D.State).
        continue {B = Option (List ℕ × ℕ)} (read_loop fuel (entry_cluster p) (entry_size p) 0 [] t)
          (λ got u. finished (elim got [ none ↦ none | some buf ↦ some (buf, entry_size p) ]) u) in
      let opened =
        continue {B = Option (List ℕ × ℕ)} (find_entry D fs fuel fs.current_cluster (strip path) s)
          (λ place t. elim place [
            | none ↦ finished none t
            | some p ↦ if is_directory p then finished none t else read p t
          ]) in
      if not fs.mounted || is_root path then finished none s else opened

  -- The loop of write_file: the first cluster of the file, or `none` if there is no free one.
  unfoldable pub write_loop : (fuel first prev : ℕ) → List ℕ → D.State → Ending (Option ℕ) D.State
  write_loop zero first prev left s = unfinished
  write_loop (suc fuel) first prev left s =
      let (c, s1) = alloc_cluster D fs s in
      let linked = (if prev == 0 then s1 else (set_cluster D fs prev c s1).1) in
      let written = (write_cluster D fs c (cluster_bytes fs.bytes_per_cluster left) linked).1 in
      let rest =
        write_loop fuel (if first == 0 then c else first) c (drop fs.bytes_per_cluster left)
          written in
      if length left == 0
      then finished (some first) s
      else if c == 0
      then finished none s1
      else if ltb stack_buffer fs.bytes_per_cluster
      then overruns
      else rest

  -- `stack` is what the sector buffers of the calls below hold before they are filled.
  module _ (stack : List ℕ) where
    -- The sector of an entry is read again, changed and written; the read is not tested.
    unfoldable pub rewrite : (List ℕ → List ℕ) → Place → D.State → Bool × D.State
    rewrite change p s =
        let (got, t) = D.read_sector p.sector s in
        D.write_sector p.sector (change (or_stack stack got)) t

    unfoldable pub delete_file : (fuel : ℕ) → List ℕ → D.State → Ending Bool D.State
    delete_file fuel path s =
        let deleted = continue (find_entry D fs fuel fs.current_cluster (strip path) s) (λ place t.
          elim place [
            | none ↦ finished false t
            | some p ↦
                let (done, u) = rewrite (λ b. set b (p.index * 32) 0xE5) p t in finished done u
          ]) in
        if not fs.mounted then finished false s else deleted

    -- The old file of the name goes: its chain, and then its entry.
    unfoldable pub remove_old : (fuel : ℕ) → List ℕ → D.State → Ending Bool D.State
    remove_old fuel path s = continue (find_entry D fs fuel fs.current_cluster path s) (λ place t.
        elim place [
          | none ↦ finished true t
          | some p ↦
              let freed =
                (if ltb (entry_cluster p) 2
                  then some t
                  else free_chain D fs fuel (entry_cluster p) t) in
              elim freed [ none ↦ unfinished | some u ↦ delete_file fuel path u ]
        ])

    -- The size goes into the new entry.
    unfoldable pub put_size : (fuel : ℕ) → List ℕ → (size : ℕ) → D.State → Ending Bool D.State
    put_size fuel path size s =
        continue (find_entry D fs fuel fs.current_cluster path s) (λ place t. elim place [
          | none ↦ finished true t
          | some p ↦ finished true (rewrite (λ b. put_word b (p.index * 32 + 28) size) p t).1
        ])

    unfoldable pub write_file : (fuel : ℕ) → List ℕ → List ℕ → D.State → Ending Bool D.State
    write_file fuel path data_bytes s =
        let name = strip path in
        let entered = λ (first : ℕ) (t : D.State).
          continue (create_file_entry D fs fuel fs.current_cluster name 0x20 first t) (λ done u.
            if done then put_size fuel name (length data_bytes) u else finished false u) in
        let written = continue (remove_old fuel name s) (λ done t.
          continue (write_loop fuel 0 0 data_bytes t)
            (λ got u. elim got [ none ↦ finished false u | some first ↦ entered first u ])) in
        if not fs.mounted then finished false s else written

  unfoldable pub create_dir : (fuel : ℕ) → List ℕ → D.State → Ending Bool D.State
  create_dir fuel path s =
      let (c, t) = alloc_cluster D fs s in
      let buf = dir_bytes fs.bytes_per_cluster c fs.current_cluster in
      let entered =
        create_file_entry D fs fuel fs.current_cluster (strip path) 0x10 c
          (write_cluster D fs c buf t).1 in
      if not fs.mounted
      then finished false s
      else if c == 0
      then finished false t
      else if ltb stack_buffer fs.bytes_per_cluster
      then overruns
      else entered
