-- ===== src/Ext2/Reached.antt =====
-- The search of a name in two blocks of a directory that agree up to an entry.
use podumat_os.Prelude.{
  ℕ, zero, suc, ◌+◌, ◌*◌, ◌≤◌, ◌<◌, ◌≡◌, ◌⊎◌, refl, sym, ◌∙◌, subst, inr, Bool, true, false, Option,
  some, List, length, arith, ◌^◌,
}
use podumat_os.Prelude.Words.{byte_at}
use podumat_os.Ext2.Entries.{
  at, missing, seek, seek_in, stops, has_name, de_inode, de_rec_len, de_name_len, de_file_type,
}
use podumat_os.Ext2.Sought.{Comes, arrived, passes, Sought, ended, goes_on}
use podumat_os.Ext2.Frames.{rec_len_frame, stops_frame, has_name_frame, inside}

-- The places that the lengths of the entries link, from the start of the block.
pub data Links (size : ℕ) (b : List ℕ) : ℕ → Type 0 where
  first : Links size b 0
  next : (y : ℕ) → Links size b y → stops size b y ≡ false → Links size b (y + de_rec_len b y)

-- A block of a directory in a buffer: each of its entries is long enough for its name.
pub record IsDirBlock (size : ℕ) (b : List ℕ) : Type 0 where
  pub positive : 0 < size
  pub room : size ≤ length b
  pub small : size < 2 ^ 16
  pub byte : (i : ℕ) → byte_at b i < 256
  pub name :
      (y : ℕ) → Links size b y → stops size b y ≡ false → 8 + de_name_len b y ≤ de_rec_len b y

-- The block `b` has an entry for the inode, of the type, as the first one of the name.
pub data Names (size : ℕ) (name : List ℕ) (inode type : ℕ) (b : List ℕ) : Type 0 where
  names :
      (x : ℕ) (q : Option ℕ)
      → seek_in size (has_name name) b ≡ at x q
      → de_inode b x ≡ inode
      → de_file_type b x ≡ type
      → Names size name inode type b

-- The loop returns the entry to which it comes and that passes.
pub Comes-seek :
    (size : ℕ) (hit : List ℕ → ℕ → Bool) (b : List ℕ) (fuel off x : ℕ) (p q : Option ℕ)
    → Comes size hit b off p x q
    → stops size b x ≡ false
    → hit b x ≡ true
    → off ≤ size
    → size < off + fuel * 8
    → seek fuel size hit b off p ≡ at x q
unfolding seek
Comes-seek size hit b zero off x p q c on h within enough = absurd (omega (arith, within, enough))
Comes-seek size hit b (suc fuel) _ _ _ _ (arrived off p) on h within enough = simp (on, h) refl
Comes-seek size hit b (suc fuel) _ _ _ _ (passes off p x q goes other c) on h within enough =
    let (fits, long, inside) = goes_on size hit b off goes in
    simp (goes, other)
      (Comes-seek size hit b fuel (off + de_rec_len b off) x (some off) q c on h inside
        (omega (arith, fits, long, enough)))

-- Where a search of the name finds nothing, it passes each linked entry.
pub passed_by :
    (size : ℕ) (hit : List ℕ → ℕ → Bool) (b : List ℕ) (y : ℕ) (p : Option ℕ)
    → stops size b y ≡ false
    → Sought size hit b y p missing
    → (hit b y ≡ false) × Sought size hit b (y + de_rec_len b y) (some y) missing
passed_by size hit b y p on (ended _ _ (arrived _ _) s) = absurd (ground (arith, on, s))
passed_by size hit b y p on (ended x q (passes _ _ _ _ goes other c) s) = (other, ended x q c s)

pub onward :
    (size : ℕ) (hit : List ℕ → ℕ → Bool) (b : List ℕ) (y x : ℕ) (p q : Option ℕ)
    → Comes size hit b y p x q
    → y ≤ x
onward size hit b _ _ _ _ (arrived off p) = omega arith
onward size hit b _ _ _ _ (passes off p x q goes other c) =
    omega (arith, onward size hit b (off + de_rec_len b off) x (some off) q c)

module _ (size : ℕ) (b c : List ℕ) (name : List ℕ) (d : IsDirBlock size b)
    (long : length c ≡ length b) where
  -- The entries before `off` stand in `c` as in `b`, so a search of the name comes to `off` in `c` as well.
  pub reaches :
      (hit : List ℕ → ℕ → Bool) (y p : _) (off : ℕ) (prev : Option ℕ)
      → Comes size hit b y p off prev
      → off ≤ size
      → ((j : ℕ) → j < off → byte_at c j ≡ byte_at b j)
      → Links size b y
      → Sought size (has_name name) b y p missing
      → ((x : ℕ) (q : Option ℕ)
          → Comes size (has_name name) c off prev x q
          → Comes size (has_name name) c y p x q)
        × Links size b off
        × Sought size (has_name name) b off prev missing
  reaches hit _ _ _ _ (arrived off p) inside same l none_there = (λ x q k. k, l, none_there)
  reaches hit _ _ _ _ (passes y p off prev goes other rest) inside same l none_there =
      let agree : (j : ℕ) → j < off → (j < off) ⊎ (off + 2 ≤ j) → byte_at c j ≡ byte_at b j =
        (λ j h g. same j h) in
      let (fits, eight, within) = goes_on size hit b y goes in
      let before : y + de_rec_len b y ≤ off =
        onward size hit b (y + de_rec_len b y) off (some y) prev rest in
      let (unnamed, later) = passed_by size (has_name name) b y p goes none_there in
      let (more, links, still) =
        reaches hit (y + de_rec_len b y) (some y) off prev rest inside same (next y l goes) later in
      let rec : de_rec_len c y ≡ de_rec_len b y =
        rec_len_frame b c long off off agree y (omega (arith, eight, before)) (omega arith) in
      let goes_c : stops size c y ≡ false =
        stops_frame b c long off off agree size y (omega (arith, eight, before)) (omega arith)
        ∙ goes in
      let unnamed_c : has_name name c y ≡ false =
        has_name_frame b c long off off agree name y (omega (arith, d.name y l goes, before))
          (omega (arith, inside, d.room)) (inr (omega arith))
        ∙ unnamed in
      (
        λ x q k.
            passes y p x q goes_c unnamed_c (
              subst (λ r. Comes size (has_name name) c (y + r) (some y) x q) (sym rec)
                (more x q k)),
        links,
        still,
      )
