-- ===== src/Disk/Ram.antt =====
-- A device that keeps its sectors in memory: it shows that the laws of `Device` can hold.
use podumat_os.Prelude.{
  ℕ, ◌<◌, ◌≡◌, ◌≢◌, refl, Bool, true, false, Option, none, some, List, replicate, arith, ltb,
  if◌then◌else◌,
}
use podumat_os.Disk.{Device, IsReliable, put}

pub record Medium : Type 0 where
  pub cells : ℕ → List ℕ
  pub size : ℕ

abbrev store : ℕ → List ℕ → Medium → Bool × Medium
store l bytes s =
    if ltb l s.size then (true, record s { cells = put s.cells l bytes }) else (false, s)

abbrev fetch : ℕ → Medium → Option (List ℕ) × Medium
fetch l s = (if ltb l s.size then some (s.cells l) else none, s)

pub fetch-some :
    (l : ℕ) (s : Medium) (bytes : List ℕ) → (fetch l s).0 ≡ some bytes → bytes ≡ s.cells l
fetch-some l s bytes h = ground (arith, h)

pub store-true :
    (l : ℕ) (bytes : List ℕ) (s : Medium)
    → (store l bytes s).0 ≡ true
    → (store l bytes s).1.cells l ≡ bytes
store-true l bytes s h = ground (arith, h)

pub store_other :
    (l : ℕ) (bytes : List ℕ) (s : Medium) (m : ℕ) → m ≢ l → (store l bytes s).1.cells m ≡ s.cells m
store_other l bytes s m h = ground arith

pub store_size : (l : ℕ) (bytes : List ℕ) (s : Medium) → (store l bytes s).1.size ≡ s.size
store_size l bytes s = ground arith

abbrev pub ram : Device
ram = record {
  State = Medium;
  init = λ hhdm s. (true, s);
  present = λ s. true;
  sectors = λ s. s.size;
  read_sector = fetch;
  write_sector = store;
  flush = λ s. (true, s);
  content = λ s. s.cells;
  read_content = λ l s m. refl;
  read_some = fetch-some;
  write_true = store-true;
  write_other = store_other;
  read_present = λ l s. refl;
  write_present = λ l bytes s. refl;
  read_sectors = λ l s. refl;
  write_sectors = store_size;
}

fetch_inside : (l : ℕ) (s : Medium) → l < s.size → (fetch l s).0 ≡ some (s.cells l)
fetch_inside l s h = ground arith

store_inside : (l : ℕ) (bytes : List ℕ) (s : Medium) → l < s.size → (store l bytes s).0 ≡ true
store_inside l bytes s h = ground arith

pub ram-IsReliable : IsReliable ram
ram-IsReliable = record { reads = fetch_inside; writes = store_inside }

-- `size` sectors of zeros.
abbrev pub blank : ℕ → Medium
blank size = record { cells = λ l. replicate 512 0; size = size }
