-- ===== src/Fat32/Ways.antt =====
-- The directories that a path leads through, and the rounds of cd on the way.
use podumat_os.Prelude.{
  ℕ, zero, suc, ◌≤◌, ◌<◌, ◌≡◌, refl, inl, inr, Bool, true, false, Option, none, some, List, [], ◌∷◌,
  length, ◌==◌, if◌then◌else◌, drop, Bool-cases, arith, ap, subst, ◌∙◌, sym,
}
use podumat_os.Disk.{Device, IsReliable}
use podumat_os.Fat32.{Fs}
use podumat_os.Fat32.Table.{fat_entry, IsVolume}
use podumat_os.Fat32.Chain.{IsChain}
use podumat_os.Fat32.Names.{name_to_83}
use podumat_os.Fat32.Files.{Ending, finished, continue, Place, is_directory, find_entry}
use podumat_os.Fat32.Find.{
  Reads, AllInside, resolve, dir_sectors, find_entry_lem, fat_kept, read_then,
}
use podumat_os.Fat32.Operations.{is_slash}
use podumat_os.Fat32.Paths.{Where, component, step_of, stay, up, down, pop, push, walk}

-- The first component of a path, and what is behind it and its separator.
abbrev pub head_of : List ℕ → List ℕ
head_of path = (component 63 path).0

abbrev pub left_of : List ℕ → List ℕ
left_of path = drop 1 (component 63 path).1

component-le : (k : ℕ) (path : List ℕ) → length (component k path).1 ≤ length path
unfolding component
component-le zero path = omega arith
component-le (suc k) [] = omega arith
component-le (suc k) (c ∷ cs) = elim (Bool-cases (is_slash c)) [
  | inl slash ↦ simp slash (omega arith)
  | inr other ↦ simp other (omega (arith, component-le k cs))
]

drop-le : (xs : List ℕ) → length (drop 1 xs) ≤ length xs
drop-le [] = omega arith
drop-le (x ∷ xs) = omega arith

left-le : (k c : ℕ) (cs : List ℕ) → length (drop 1 (component (suc k) (c ∷ cs)).1) ≤ length cs
unfolding component
left-le k c cs = elim (Bool-cases (is_slash c)) [
  | inl slash ↦ simp slash (omega arith)
  | inr other ↦ simp other (omega (arith, drop-le (component k cs).1, component-le k cs))
]

-- Each round takes a byte of the path or more.
pub left_of-le : (c : ℕ) (cs : List ℕ) → length (left_of (c ∷ cs)) ≤ length cs
left_of-le c cs = left-le 62 c cs

module _ (D : Device) (fs : Fs) (R : IsReliable D) (s : D.State) (n : ℕ) where
  -- The directory that starts at a cluster is a chain of at most `n` clusters on the disk.
  pub record IsDirectory (dir : ℕ) (cs : List ℕ) : Type 0 where
    pub chain : IsChain D R fs (fat_entry D fs s) dir cs
    pub inside : AllInside fs (D.sectors s) cs
    pub short : length cs ≤ n

  -- What the directory has under a name.
  abbrev pub entry_in : List ℕ → List ℕ → Option Place
  entry_in cs name = resolve (D.content s) (name_to_83 name) (dir_sectors fs cs)

  -- The path leads from `w` to `w'`, or it fails there: a name is missing, or it is not a directory.
  pub data Leads : List ℕ → Where → Bool → Where → Type 0 where
    arrives : (w : Where) → Leads [] w true w
    stays :
        (c : ℕ) (cs : List ℕ) (w : Where) (ok : Bool) (w' : Where)
        → step_of (head_of (c ∷ cs)) ≡ stay
        → Leads (left_of (c ∷ cs)) w ok w'
        → Leads (c ∷ cs) w ok w'
    at_root :
        (c : ℕ) (cs : List ℕ) (w : Where) (ok : Bool) (w' : Where)
        → step_of (head_of (c ∷ cs)) ≡ up
        → (w.cluster == fs.root_cluster) ≡ true
        → Leads (left_of (c ∷ cs)) w ok w'
        → Leads (c ∷ cs) w ok w'
    leaves :
        (c : ℕ) (cs : List ℕ) (w : Where) (ok : Bool) (w' : Where) (dir : List ℕ) (p : Place)
        → step_of (head_of (c ∷ cs)) ≡ up
        → (w.cluster == fs.root_cluster) ≡ false
        → IsDirectory w.cluster dir
        → entry_in dir (head_of (c ∷ cs)) ≡ some p
        → Leads (left_of (c ∷ cs)) (pop fs p w) ok w'
        → Leads (c ∷ cs) w ok w'
    has_no_parent :
        (c : ℕ) (cs : List ℕ) (w : Where) (ok : Bool) (w' : Where) (dir : List ℕ)
        → step_of (head_of (c ∷ cs)) ≡ up
        → (w.cluster == fs.root_cluster) ≡ false
        → IsDirectory w.cluster dir
        → entry_in dir (head_of (c ∷ cs)) ≡ none
        → Leads (left_of (c ∷ cs)) w ok w'
        → Leads (c ∷ cs) w ok w'
    enters :
        (c : ℕ) (cs : List ℕ) (w : Where) (ok : Bool) (w' : Where) (dir : List ℕ) (p : Place)
        → (name : List ℕ) → step_of (head_of (c ∷ cs)) ≡ down name
        → IsDirectory w.cluster dir
        → entry_in dir (head_of (c ∷ cs)) ≡ some p
        → is_directory p ≡ true
        → Leads (left_of (c ∷ cs)) (push fs (head_of (c ∷ cs)) p w) ok w'
        → Leads (c ∷ cs) w ok w'
    is_missing :
        (c : ℕ) (cs : List ℕ) (w : Where) (dir : List ℕ)
        → (name : List ℕ) → step_of (head_of (c ∷ cs)) ≡ down name
        → IsDirectory w.cluster dir
        → entry_in dir (head_of (c ∷ cs)) ≡ none
        → Leads (c ∷ cs) w false w
    is_file :
        (c : ℕ) (cs : List ℕ) (w : Where) (dir : List ℕ) (p : Place)
        → (name : List ℕ) → step_of (head_of (c ∷ cs)) ≡ down name
        → IsDirectory w.cluster dir
        → entry_in dir (head_of (c ∷ cs)) ≡ some p
        → is_directory p ≡ false
        → Leads (c ∷ cs) w false w

  -- One call of find_entry on the way.
  pub find_at :
      (v : IsVolume D fs s) (dir : ℕ) (cs name : List ℕ) (fuel : ℕ) (u : D.State)
      → Reads D fs R s u
      → IsDirectory dir cs
      → n < fuel
      → (t : D.State) × (find_entry D fs fuel dir name u ≡ finished (entry_in cs name) t)
        × Reads D fs R s t
  find_at v dir cs name fuel u r d enough =
      let (t, e, after) =
        find_entry_lem D fs R cs fuel dir name u (r.volume v)
          (subst (λ f. IsChain D R fs f dir cs) (sym (fat_kept D fs R s u r)) d.chain)
          (subst (λ k. AllInside fs k cs) (sym r.sectors) d.inside)
          (omega (arith, d.short, enough)) in
      (
        t,
        e ∙ ap (λ f. finished (resolve f (name_to_83 name) (dir_sectors fs cs)) t) r.content,
        read_then D fs R s u t r after,
      )

  -- One round of the loop.
  module _ (fuel c : ℕ) (cs : List ℕ) (w : Where) (u : D.State) where
    abbrev searched : Ending (Option Place) D.State
    searched = find_entry D fs fuel w.cluster (head_of (c ∷ cs)) u

    pub walk-stay :
        step_of (head_of (c ∷ cs)) ≡ stay
        → walk D fs (suc fuel) (c ∷ cs) w u ≡ walk D fs fuel (left_of (c ∷ cs)) w u
    unfolding walk
    walk-stay e =
        let some_left : (length (c ∷ cs) == 0) ≡ false = ground arith in simp (e, some_left) refl

    pub walk-up :
        step_of (head_of (c ∷ cs)) ≡ up
        → walk D fs (suc fuel) (c ∷ cs) w u ≡ (
            if w.cluster == fs.root_cluster
            then walk D fs fuel (left_of (c ∷ cs)) w u
            else continue searched (λ place t. elim place [
              | none ↦ walk D fs fuel (left_of (c ∷ cs)) w t
              | some p ↦ walk D fs fuel (left_of (c ∷ cs)) (pop fs p w) t
            ]))
    unfolding walk
    walk-up e =
        let some_left : (length (c ∷ cs) == 0) ≡ false = ground arith in simp (e, some_left) refl

    pub walk-down :
        (name : List ℕ)
        → step_of (head_of (c ∷ cs)) ≡ down name
        → walk D fs (suc fuel) (c ∷ cs) w u
          ≡ continue searched (λ place t. elim place [
            | none ↦ finished (false, w) t
            | some p ↦
                if is_directory p
                then walk D fs fuel (left_of (c ∷ cs)) (push fs (head_of (c ∷ cs)) p w) t
                else finished (false, w) t
          ])
    unfolding walk
    walk-down name e =
        let some_left : (length (c ∷ cs) == 0) ≡ false = ground arith in simp (e, some_left) refl
