-- ===== src/Fat32/Paths.antt =====
-- cd, and get_path, which pwd prints. The path is not a null pointer.
use podumat_os.Prelude.{
  ℕ, zero, suc, ◌+◌, ◌-◌, Bool, true, false, not, ◌&&◌, none, some, List, [], ◌∷◌, ◌++◌, length,
  set, get_or, ltb, ◌==◌, if◌then◌else◌, take, drop,
}
use podumat_os.Disk.{Device}
use podumat_os.Fat32.{Fs, PathStack}
use podumat_os.Fat32.Files.{
  Ending, finished, unfinished, continue, Place, entry_cluster, is_directory, find_entry,
}
use podumat_os.Fat32.Operations.{is_slash, strip}

-- The current directory and the names that lead to it.
pub record Where : Type 0 where
  pub cluster : ℕ
  pub stack : PathStack

-- The next component, of at most `left` bytes, and the rest of the path.
unfoldable pub component : (left : ℕ) → List ℕ → List ℕ × List ℕ
component zero p = ([], p)
component (suc left) [] = ([], [])
component (suc left) (c ∷ cs) =
    let (more, rest) = component left cs in if is_slash c then ([], c ∷ cs) else (c ∷ more, rest)

-- How a component is taken.
pub data Step : Type 0 where
  stay up : Step
  down : List ℕ → Step

unfoldable pub step_of : List ℕ → Step
step_of comp =
    if length comp == 0
    then stay
    else if get_or comp 0 0 == b'.' && length comp == 1
    then stay
    else if get_or comp 0 0 == b'.' && (get_or comp 1 0 == b'.' && length comp == 2)
    then up
    else down comp

-- `c == 0 ? root_cluster : c`
abbrev pub or_root : Fs → ℕ → ℕ
or_root fs c = if c == 0 then fs.root_cluster else c

abbrev pub pop : Fs → Place → Where → Where
pop fs p w = record {
  cluster = or_root fs (entry_cluster p);
  stack = record w.stack {
    depth = if ltb 0 w.stack.depth then w.stack.depth - 1 else w.stack.depth;
  };
}

-- A name is cut to 12 bytes, and a level below the 32nd has none.
abbrev pub push : Fs → List ℕ → Place → Where → Where
push fs comp p w =
    let c = or_root fs (entry_cluster p) in
    record {
      cluster = c;
      stack =
          if ltb w.stack.depth 32
          then record {
            names = set w.stack.names w.stack.depth (take 12 comp);
            clusters = set w.stack.clusters w.stack.depth c;
            depth = w.stack.depth + 1;
          }
          else w.stack;
    }

module _ (D : Device) (fs : Fs) where
  -- The loop of cd: whether it went through, and where it stands.
  unfoldable pub walk : (fuel : ℕ) → List ℕ → Where → D.State → Ending (Bool × Where) D.State
  walk zero path w s = unfinished
  walk (suc fuel) path w s =
      let (comp, rest) = component 63 path in
      let left = drop 1 rest in
      let into = continue (find_entry D fs fuel w.cluster comp s) (λ place t. elim place [
        | none ↦ finished (false, w) t
        | some p ↦
            if is_directory p then walk fuel left (push fs comp p w) t else finished (false, w) t
      ]) in
      let out = continue (find_entry D fs fuel w.cluster comp s) (λ place t. elim place [
        | none ↦ walk fuel left w t
        | some p ↦ walk fuel left (pop fs p w) t
      ]) in
      let same = walk fuel left w s in
      let taken : Ending (Bool × Where) D.State = elim (step_of comp) [
        | stay ↦ same
        | up ↦ if w.cluster == fs.root_cluster then same else out
        | down name ↦ into
      ] in
      if length path == 0 then finished (true, w) s else taken

  abbrev pub at_start : List ℕ → Where
  at_start [] = record { cluster = fs.current_cluster; stack = fs.path }
  at_start (c ∷ cs) =
      if is_slash c
      then record { cluster = fs.root_cluster; stack = record fs.path { depth = 0 } }
      else record { cluster = fs.current_cluster; stack = fs.path }

  -- A walk that fails is undone: the names up to the old depth come back.
  abbrev pub ended_at : Bool × Where → Bool × Fs
  ended_at (true, w) = (true, record fs { current_cluster = w.cluster; path = w.stack })
  ended_at (false, w) = (
    false,
    record fs {
      path = record {
        names = take fs.path.depth fs.path.names ++ drop fs.path.depth w.stack.names;
        clusters = take fs.path.depth fs.path.clusters ++ drop fs.path.depth w.stack.clusters;
        depth = fs.path.depth;
      };
    },
  )

  unfoldable pub cd : (fuel : ℕ) → List ℕ → D.State → Ending (Bool × Fs) D.State
  cd fuel path s =
      let walked =
        continue (walk fuel (strip path) (at_start path) s) (λ r t. finished (ended_at r) t) in
      if not fs.mounted then finished (false, fs) s else walked

-- The bytes of `text`, as far as they fit into a buffer of `size` bytes with a terminator.
unfoldable pub put_text : (size : ℕ) → (text buf : List ℕ) → List ℕ
put_text size [] buf = buf
put_text size (c ∷ cs) buf =
    let rest = put_text size cs (buf ++ (c ∷ [])) in if ltb (length buf + 1) size then rest else buf

-- The loop of get_path over the names from level `d` on.
unfoldable pub put_names : (left d size : ℕ) → Fs → List ℕ → List ℕ
put_names zero d size fs buf = buf
put_names (suc left) d size fs buf =
    let slash = put_text size (b'/' ∷ []) buf in
    let rest = put_names left (d + 1) size fs (put_text size (get_or fs.path.names d []) slash) in
    if ltb (length buf + 1) size then rest else buf

-- The bytes before the terminator.
unfoldable pub get_path : (size : ℕ) → Fs → List ℕ
get_path size fs =
    put_names fs.path.depth 0 size fs (put_text size (b'r' ∷ b'o' ∷ b'o' ∷ b't' ∷ []) [])
