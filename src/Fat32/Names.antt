-- ===== src/Fat32/Names.antt =====
-- File names: name_to_83 and name_from_83, and what a name becomes on the way to the disk and back.
use podumat_os.Prelude.{
  ℕ, zero, suc, ◌+◌, ◌-◌, ◌≤◌, ◌<◌, ◌≡◌, ◌≢◌, refl, false, List, [], ◌∷◌, ◌++◌, leb, ◌==◌, ◌&&◌,
  if◌then◌else◌, length, get_or, take, drop, replicate, map, take-append_self, drop-append_self,
  length-append, length-replicate, ne→==, arith, ap, ap₂, ◌∙◌,
}

-- `char name[8]` and `char ext[3]` of a directory entry.
pub record Name83 : Type 0 where
  pub name : List ℕ
  pub ext : List ℕ

unfoldable pub upper : ℕ → ℕ
upper c = if leb b'a' c && leb c b'z' then c - 32 else c

-- The first loop: the letters that it writes, and the name from where it stops.
unfoldable pub base_loop : ℕ → List ℕ → List ℕ × List ℕ
unfolding upper
base_loop zero cs = ([], cs)
base_loop (suc left) [] = ([], [])
base_loop (suc left) (c ∷ cs) =
    let (out, rest) = base_loop left cs in if c == b'.' then ([], c ∷ cs) else (upper c ∷ out, rest)

unfoldable pub ext_loop : ℕ → List ℕ → List ℕ
unfolding upper
ext_loop zero cs = []
ext_loop (suc left) [] = []
ext_loop (suc left) (c ∷ cs) = upper c ∷ ext_loop left cs

-- What stands behind the dot.
unfoldable pub extension : List ℕ → List ℕ
unfolding ext_loop
extension [] = []
extension (c ∷ cs) = if c == b'.' then ext_loop 3 cs else []

-- `n` bytes, blank behind the letters.
abbrev pub padded : ℕ → List ℕ → List ℕ
padded n cs = cs ++ replicate (n - length cs) b' '

unfoldable pub general_83 : List ℕ → List ℕ
unfolding base_loop extension
general_83 cs = let (base, rest) = base_loop 8 cs in padded 8 base ++ padded 3 (extension rest)

-- A name is its bytes before the terminator; the result is the 11 bytes of `out`.
unfoldable pub name_to_83 : List ℕ → List ℕ
unfolding general_83
name_to_83 [] = general_83 []
name_to_83 (a ∷ []) = if a == b'.' then padded 11 (b'.' ∷ []) else general_83 (a ∷ [])
name_to_83 (a ∷ b ∷ []) =
    if a == b'.' && b == b'.' then padded 11 (b'.' ∷ b'.' ∷ []) else general_83 (a ∷ b ∷ [])
name_to_83 (a ∷ b ∷ c ∷ cs) = general_83 (a ∷ b ∷ c ∷ cs)

pub until_blank : ℕ → List ℕ → List ℕ
until_blank zero cs = []
until_blank (suc left) [] = []
until_blank (suc left) (c ∷ cs) =
    let rest = until_blank left cs in if c == b' ' then [] else c ∷ rest

pub name_from_83 : Name83 → List ℕ
unfolding until_blank
name_from_83 e =
    until_blank 8 e.name ++ (if get_or e.ext 0 0 == b' ' then [] else b'.' ∷ until_blank 3 e.ext)

-- How `create_file_entry` splits the 11 bytes.
pub split_83 : List ℕ → Name83
split_83 out = record { name = take 8 out; ext = drop 8 out }

-- No letter of the list is a dot, and none is blank.
abbrev pub IsWord : List ℕ → Type 0
IsWord [] = Unit {0}
IsWord (c ∷ cs) = (c ≢ b'.') × (c ≢ b' ') × IsWord cs

upper-blank : (c : ℕ) → c ≢ b' ' → (upper c == b' ') ≡ false
unfolding upper
upper-blank c h = ground arith

-- What may follow the base name.
abbrev StartsDot : List ℕ → Type 0
StartsDot [] = Unit {0}
StartsDot (c ∷ cs) = c ≡ b'.'

base_loop_lem :
    (n : ℕ) (w suffix : List ℕ)
    → length w ≤ n
    → IsWord w
    → StartsDot suffix
    → base_loop n (w ++ suffix) ≡ (map upper w, suffix)
unfolding base_loop
base_loop_lem zero [] suffix le word dot = refl
base_loop_lem zero (c ∷ w) suffix le word dot = absurd (omega arith)
base_loop_lem (suc n) [] [] le word dot = refl
base_loop_lem (suc n) [] (d ∷ ds) le word dot = simp dot refl
base_loop_lem (suc n) (c ∷ w) suffix le word dot =
    simp (ne→== c b'.' word.0, base_loop_lem n w suffix (omega arith) word.2 dot) refl

ext_loop_lem : (n : ℕ) (w : List ℕ) → length w ≤ n → ext_loop n w ≡ map upper w
unfolding ext_loop
ext_loop_lem zero [] le = refl
ext_loop_lem zero (c ∷ w) le = absurd (omega arith)
ext_loop_lem (suc n) [] le = refl
ext_loop_lem (suc n) (c ∷ w) le = ap (λ cs. upper c ∷ cs) (ext_loop_lem n w (omega arith))

until_blank_lem :
    (n k : ℕ) (w : List ℕ)
    → length w + k ≡ n
    → IsWord w
    → until_blank n (map upper w ++ replicate k b' ') ≡ map upper w
unfolding until_blank
until_blank_lem zero k [] e word = refl
until_blank_lem zero k (c ∷ w) e word = absurd (omega arith)
until_blank_lem (suc n) zero [] e word = absurd (omega arith)
until_blank_lem (suc n) (suc k) [] e word = refl
until_blank_lem (suc n) k (c ∷ w) e word =
    simp (upper-blank c word.1, until_blank_lem n k w (omega arith) word.2) refl

length-map-upper : (w : List ℕ) → length (map upper w) ≡ length w
length-map-upper [] = refl
length-map-upper (c ∷ w) = ap suc (length-map-upper w)

length-padded : (n : ℕ) (w : List ℕ) → length w ≤ n → length (padded n w) ≡ n
length-padded n w le =
    length-append w (replicate (n - length w) b' ')
    ∙ omega (arith, length-replicate {A = ℕ} (n - length w) b' ')

-- A dot stands before an extension only if there is one.
unfoldable pub dotted : List ℕ → List ℕ
dotted [] = []
dotted (c ∷ cs) = b'.' ∷ c ∷ cs

dotted-StartsDot : (e : List ℕ) → StartsDot (dotted e)
unfolding dotted
dotted-StartsDot [] = tt
dotted-StartsDot (c ∷ cs) = refl

extension-dotted : (e : List ℕ) → length e ≤ 3 → extension (dotted e) ≡ map upper e
unfolding extension dotted
extension-dotted [] le = refl
extension-dotted (c ∷ cs) le = ext_loop_lem 3 (c ∷ cs) le

ordinary : (c : ℕ) (cs : List ℕ) → c ≢ b'.' → name_to_83 (c ∷ cs) ≡ general_83 (c ∷ cs)
unfolding name_to_83
ordinary c [] h = simp (ne→== c b'.' h) refl
ordinary c (d ∷ []) h = simp (ne→== c b'.' h) refl
ordinary c (d ∷ e ∷ cs) h = refl

general_83_lem :
    (w e : List ℕ)
    → length w ≤ 8
    → length e ≤ 3
    → IsWord w
    → general_83 (w ++ dotted e) ≡ padded 8 (map upper w) ++ padded 3 (map upper e)
unfolding general_83
general_83_lem w e lw le word =
    simp (base_loop_lem 8 w (dotted e) lw word (dotted-StartsDot e), extension-dotted e le) refl

printed_base :
    (w : List ℕ) → length w ≤ 8 → IsWord w → until_blank 8 (padded 8 (map upper w)) ≡ map upper w
printed_base w le word =
    until_blank_lem 8 (8 - length (map upper w)) w (omega (arith, length-map-upper w)) word

printed_ext :
    (e : List ℕ)
    → length e ≤ 3
    → IsWord e
    → (if get_or (padded 3 (map upper e)) 0 0 == b' '
        then []
        else b'.' ∷ until_blank 3 (padded 3 (map upper e)))
      ≡ dotted (map upper e)
unfolding dotted
printed_ext [] le word = refl
printed_ext (c ∷ cs) le word = simp (upper-blank c word.1) (
    ap (λ xs. b'.' ∷ xs)
      (until_blank_lem 3 (3 - length (map upper (c ∷ cs))) (c ∷ cs)
        (omega (arith, length-map-upper (c ∷ cs))) word))

-- A name of 1 to 8 letters, with an extension of up to 3 or none, none of them a dot or a blank, comes
-- back from the 11 bytes of an entry in capitals.
pub name_from_83-name_to_83 :
    (w e : List ℕ)
    → 0 < length w
    → length w ≤ 8
    → length e ≤ 3
    → IsWord w
    → IsWord e
    → name_from_83 (split_83 (name_to_83 (w ++ dotted e))) ≡ map upper w ++ dotted (map upper e)
unfolding name_from_83 split_83
name_from_83-name_to_83 [] e some_letters lw le word word' = absurd (omega arith)
name_from_83-name_to_83 (c ∷ w) e some_letters lw le word word' =
    let base = padded 8 (map upper (c ∷ w)) in
    let wide : length base ≡ 8 =
      length-padded 8 (map upper (c ∷ w)) (omega (arith, length-map-upper (c ∷ w))) in
    ap (λ out. name_from_83 (split_83 out))
      (ordinary c (w ++ dotted e) word.0 ∙ general_83_lem (c ∷ w) e lw le word)
    ∙ ap₂ (λ x y. name_from_83 (record { name = x; ext = y }))
        (take-append_self base (padded 3 (map upper e)) 8 wide)
        (drop-append_self base (padded 3 (map upper e)) 8 wide)
    ∙ ap₂ (λ x y. x ++ y) (printed_base (c ∷ w) lw word) (printed_ext e le word')
