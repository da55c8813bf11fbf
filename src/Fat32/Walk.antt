-- ===== src/Fat32/Walk.antt =====
-- The bounds of the path stack along a walk, and what a walk that ends leaves.
use podumat_os.Prelude.{
  ℕ, zero, suc, ◌≤◌, ◌≡◌, refl, inl, inr, Bool, true, false, Option, none, some, List, [], ◌∷◌,
  ◌++◌, length, length-set, ltb, ◌==◌, if◌then◌else◌, take, drop, Bool-cases, arith, ap, ◌∙◌, sym,
}
use podumat_os.Disk.{Device}
use podumat_os.Fat32.{Fs, PathStack}
use podumat_os.Fat32.Files.{
  Ending, finished, overruns, unfinished, continue, Place, is_directory, find_entry,
}
use podumat_os.Fat32.Operations.{is_slash}
use podumat_os.Fat32.Paths.{
  Where, component, Step, step_of, stay, up, down, pop, push, walk, at_start, ended_at,
}

-- The stack has 32 levels, and the depth is at most that.
pub record IsStack (p : PathStack) : Type 0 where
  pub names_long : length p.names ≡ 32
  pub clusters_long : length p.clusters ≡ 32
  pub deep : p.depth ≤ 32

-- A walk that ends stands at a stack of that form.
abbrev pub Keeps : {S : Type 0} → Ending (Bool × Where) S → Type 0
Keeps (finished (ok, w) t) = IsStack w.stack
Keeps overruns = Unit
Keeps unfinished = Unit

Keeps-continue :
    {A S : Type 0} (e : Ending A S) (f : A → S → Ending (Bool × Where) S)
    → ((a : A) (s : S) → Keeps (f a s))
    → Keeps (continue e f)
Keeps-continue (finished a s) f each = each a s
Keeps-continue overruns f each = tt
Keeps-continue unfinished f each = tt

Keeps-if :
    {S : Type 0} (t : Bool) (e f : Ending (Bool × Where) S)
    → Keeps e
    → Keeps f
    → Keeps (if t then e else f)
Keeps-if true e f h k = h
Keeps-if false e f h k = k

Keeps-step :
    {S : Type 0} (x : Step) (same out into : Ending (Bool × Where) S)
    → Keeps same
    → Keeps out
    → Keeps into
    → Keeps (elim x as (λ y. Ending (Bool × Where) S) [ stay ↦ same | up ↦ out | down name ↦ into ])
Keeps-step stay same out into h k l = h
Keeps-step up same out into h k l = k
Keeps-step (down name) same out into h k l = l

Keeps-place :
    {S : Type 0} (o : Option Place) (e : Ending (Bool × Where) S)
    (f : Place → Ending (Bool × Where) S)
    → Keeps e
    → ((p : Place) → Keeps (f p))
    → Keeps (elim o as (λ x. Ending (Bool × Where) S) [ none ↦ e | some p ↦ f p ])
Keeps-place none e f h each = h
Keeps-place (some p) e f h each = each p

-- A list with the first `d` elements of another one.
length_joined :
    {A : Type 0} (d : ℕ) (xs ys : List A)
    → length xs ≡ length ys
    → length (take d xs ++ drop d ys) ≡ length ys
length_joined zero xs ys e = refl
length_joined (suc d) [] [] e = refl
length_joined (suc d) [] (y ∷ ys) e = absurd (omega (arith, e))
length_joined (suc d) (x ∷ xs) [] e = absurd (omega (arith, e))
length_joined (suc d) (x ∷ xs) (y ∷ ys) e = ap suc (length_joined d xs ys (omega (arith, e)))

take_joined :
    {A : Type 0} (d : ℕ) (xs ys : List A)
    → length xs ≡ length ys
    → take d (take d xs ++ drop d ys) ≡ take d xs
take_joined zero xs ys e = refl
take_joined (suc d) [] [] e = refl
take_joined (suc d) [] (y ∷ ys) e = absurd (omega (arith, e))
take_joined (suc d) (x ∷ xs) [] e = absurd (omega (arith, e))
take_joined (suc d) (x ∷ xs) (y ∷ ys) e = ap (λ zs. x ∷ zs) (take_joined d xs ys (omega (arith, e)))

pop-IsStack : (fs : Fs) (p : Place) (w : Where) → IsStack w.stack → IsStack (pop fs p w).stack
pop-IsStack fs p w v = record {
  names_long = v.names_long;
  clusters_long = v.clusters_long;
  deep = ground (arith, v.deep);
}

push-IsStack :
    (fs : Fs) (comp : List ℕ) (p : Place) (w : Where)
    → IsStack w.stack
    → IsStack (push fs comp p w).stack
push-IsStack fs comp p w v = elim (Bool-cases (ltb w.stack.depth 32)) [
  | inl room ↦ simp room (record {
    names_long = length-set w.stack.names w.stack.depth (take 12 comp) ∙ v.names_long;
    clusters_long = length-set w.stack.clusters w.stack.depth _ ∙ v.clusters_long;
    deep = ground (arith, room);
  })
  | inr full ↦ simp full v
]

module _ (D : Device) (fs : Fs) where
  pub walk-Keeps :
      (fuel : ℕ) (path : List ℕ) (w : Where) (s : D.State)
      → IsStack w.stack
      → Keeps (walk D fs fuel path w s)
  unfolding walk
  walk-Keeps zero path w s v = tt
  walk-Keeps (suc fuel) path w s v =
      let (comp, rest) = component 63 path in
      let left = drop 1 rest in
      let same = walk-Keeps fuel left w s v in
      Keeps-if (length path == 0) _ _ v (
        Keeps-step (step_of comp) _ _ _ same
          (Keeps-if (w.cluster == fs.root_cluster) _ _ same (
            Keeps-continue (find_entry D fs fuel w.cluster comp s) _ (λ place t.
              Keeps-place place _ _ (walk-Keeps fuel left w t v)
                (λ p. walk-Keeps fuel left (pop fs p w) t (pop-IsStack fs p w v)))))
          (Keeps-continue (find_entry D fs fuel w.cluster comp s) _ (λ place t.
            Keeps-place place _ _ v (λ p.
              Keeps-if (is_directory p) _ _
                (walk-Keeps fuel left (push fs comp p w) t (push-IsStack fs comp p w v)) v))))

  pub at_start-IsStack : (path : List ℕ) → IsStack fs.path → IsStack (at_start D fs path).stack
  at_start-IsStack [] v = v
  at_start-IsStack (c ∷ cs) v = elim (Bool-cases (is_slash c)) [
    | inl slash ↦
        simp slash (record {
          names_long = v.names_long;
          clusters_long = v.clusters_long;
          deep = ground arith;
        })
    | inr other ↦ simp other v
  ]

-- What a call of cd leaves: a stack within its bounds, and after a failure the old directory, with the
-- names that lead to it.
pub record Leaves (fs : Fs) (ok : Bool) (g : Fs) : Type 0 where
  pub stack : IsStack g.path
  pub back :
      ok ≡ false
      → (g.current_cluster ≡ fs.current_cluster)
        × (g.path.depth ≡ fs.path.depth)
        × (take fs.path.depth g.path.names ≡ take fs.path.depth fs.path.names)

pub ended_at-Leaves :
    (D : Device) (fs : Fs) (ok : Bool) (w : Where)
    → IsStack fs.path
    → IsStack w.stack
    → Leaves fs (ended_at D fs (ok, w)).0 (ended_at D fs (ok, w)).1
ended_at-Leaves D fs true w v k = record { stack = k; back = λ e. absurd (cc e) }
ended_at-Leaves D fs false w v k = record {
  stack = record {
    names_long =
        length_joined fs.path.depth fs.path.names w.stack.names (v.names_long ∙ sym k.names_long)
        ∙ k.names_long;
    clusters_long =
        length_joined fs.path.depth fs.path.clusters w.stack.clusters
          (v.clusters_long ∙ sym k.clusters_long)
        ∙ k.clusters_long;
    deep = v.deep;
  };
  back = λ e. (
    refl,
    refl,
    take_joined fs.path.depth fs.path.names w.stack.names (v.names_long ∙ sym k.names_long),
  );
}
