-- ===== src/Fat32/Walked.antt =====
-- cd along the directories that the path leads through.
use podumat_os.Prelude.{ℕ, ◌≡◌, Bool, List}
use podumat_os.Disk.{Device, IsReliable}
use podumat_os.Fat32.{Fs}
use podumat_os.Fat32.Files.{Ending, finished}
use podumat_os.Fat32.Find.{Reads}
use podumat_os.Fat32.Paths.{Where, walk, ended_at}
use podumat_os.Fat32.Walk.{Leaves}
use podumat_os.Fat32.Ways.{leaves}

module _ (D : Device) (fs : Fs) (R : IsReliable D) (s : D.State) (n : ℕ) where
  abbrev Walks : (fuel : ℕ) → List ℕ → Where → D.State → Bool → Where → Type 0
  Walks fuel path w u ok w' =
      (t : D.State) × (walk D fs fuel path w u ≡ finished (ok, w') t) × Reads D fs R s t

  -- What a call of cd ends with when the walk ends at `w`.
  pub record Ends (ok : Bool) (w : Where) (e : Ending (Bool × Fs) D.State) : Type 0 where
    pub state : D.State
    pub ends : e ≡ finished (ended_at D fs (ok, w)) state
    pub reads : Reads D fs R s state
    pub leaves : Leaves fs ok (ended_at D fs (ok, w)).1
