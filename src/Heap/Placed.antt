-- ===== src/Heap/Placed.antt =====
-- place_block on each of its branches.
use podumat_os.Prelude.{
  ℕ, ◌+◌, ◌^◌, ◌≤◌, ◌<◌, ◌≡◌, ◌≢◌, refl, inl, inr, true, false, ◌||◌, List, [], ◌∷◌, ◌==◌, ==_iff,
  Bool-cases, arith, ap, subst, ◌∙◌, sym,
}
use podumat_os.Prelude.Members.{is_in, insert_after}
use podumat_os.Heap.Store.{Block, Heap, block_header, region_header}
use podumat_os.Heap.{place_only, place_first, place_between, place_last, needed, new_block}
use podumat_os.Heap.Blocks.{end_of, IsHeader, Blocks, Blocks-le, is_in-le, Blocks-frame, Linked}
use podumat_os.Heap.Sums.{taken, KeepsSizes, taken_keeps}
use podumat_os.Heap.Place.{IsRegion, Adds, size, SameSizes, of_path, settle, after}

is_in_nil : (b : ℕ) → is_in b [] ≡ false
unfolding is_in
is_in_nil b = refl

is_in-cons : (x b : ℕ) (bs : List ℕ) → is_in x (b ∷ bs) ≡ (x == b || is_in x bs)
unfolding is_in
is_in-cons x b bs = refl

-- An address below the first block is no block.
not_below :
    (r hi : ℕ) (f : ℕ → Block) (prev lo q a b : ℕ) (bs : List ℕ)
    → Blocks r hi f prev lo q (a ∷ bs)
    → b < a
    → is_in b (a ∷ bs) ≡ false
unfolding is_in
not_below r hi f prev lo q a b bs (e, pos, le, header, rest) below =
    elim (Bool-cases (is_in b bs)) [
      | inl bad ↦ absurd (omega (arith, is_in-le r hi f a (end_of f a) (f a).next b bs rest bad))
      | inr fine ↦ ground (arith, fine)
    ]

module _ (r payload req : ℕ) (h : Heap) (small : payload < 2 ^ 32) (asked : req < 2 ^ 32) where
  pub place_last-Adds :
      (bs : List ℕ) (v : IsRegion h r bs) (l : ℕ)
      → is_in l bs ≡ true
      → 0 < l
      → (h.blocks l).next ≡ 0
      → end_of h.blocks l + needed r payload req ≤ r + size r payload req h small asked
      → Adds h
          (place_last r payload req l h).1
          r
          payload
          req
          (end_of h.blocks l)
          bs
          (insert_after l (end_of h.blocks l) bs)
  unfolding place_last
  place_last-Adds bs v l within pos end fits =
      let g = (place_last r payload req l h).1 in
      let link : Linked r (r + (h.regions r).size) h.blocks g.blocks l (end_of h.blocks l)
          (h.blocks l).next =
        record {
          at_cur = ground arith;
          at_new = (ground arith, ground (arith, end));
          at_next = λ ne. absurd (ne end);
          elsewhere = λ x x1 x2 x3. ground arith;
        } in
      after r payload req h small asked bs v l within pos g refl (λ x ne. ground arith)
        (ground arith) link (ground arith) (ground arith) (ground (arith, end, fits))

  pub place_between-Adds :
      (bs : List ℕ) (v : IsRegion h r bs) (c : ℕ)
      → is_in c bs ≡ true
      → 0 < c
      → (h.blocks c).next ≢ 0
      → end_of h.blocks c + needed r payload req ≤ (h.blocks c).next
      → Adds h
          (place_between r payload req c h).1
          r
          payload
          req
          (end_of h.blocks c)
          bs
          (insert_after c (end_of h.blocks c) bs)
  unfolding place_between
  place_between-Adds bs v c within pos more fits =
      let g = (place_between r payload req c h).1 in
      let link : Linked r (r + (h.regions r).size) h.blocks g.blocks c (end_of h.blocks c)
          (h.blocks c).next =
        record {
          at_cur = ground (arith, more, fits);
          at_new = (ground (arith, more, fits), ground (arith, more, fits));
          at_next = λ ne. ground (arith, more, fits);
          elsewhere = λ x x1 x2 x3. ground (arith, x3, more, fits);
        } in
      after r payload req h small asked bs v c within pos g refl (λ x ne. ground arith)
        (ground arith) link (ground (arith, more, fits)) (ground (arith, more, fits))
        (ground (arith, more, fits))

  all_sizes :
      (f : ℕ → Block) (a b : ℕ)
      → SameSizes h.blocks f a
      → ((x : ℕ) → x ≢ b → x ≢ a → f x ≡ h.blocks x)
      → (x : ℕ) → x ≢ b
      → SameSizes h.blocks f x
  all_sizes f a b same other x ne = elim (Bool-cases (x == a)) [
    | inl at ↦ subst (SameSizes h.blocks f) (sym ((==_iff x a).0 at)) same
    | inr off ↦ of_path h.blocks f x (other x ne (λ e. ground (arith, off, e)))
  ]

  taken_new :
      (f : ℕ → Block) (b : ℕ) (bs : List ℕ)
      → KeepsSizes h.blocks f b
      → is_in b bs ≡ false
      → (f b).size ≡ payload
      → taken f (b ∷ bs) ≡ taken h.blocks bs + block_header + payload
  unfolding taken
  taken_new f b bs keeps out sz = omega (arith, sz, taken_keeps h.blocks f b bs keeps out)

  pub place_first-Adds :
      (a : ℕ) (bs : List ℕ) (v : IsRegion h r (a ∷ bs))
      → r + region_header + needed r payload req ≤ a
      → Adds h
          (place_first r payload req h).1
          r
          payload
          req
          (r + region_header)
          (a ∷ bs)
          ((r + region_header) ∷ a ∷ bs)
  unfolding place_first
  place_first-Adds a bs v fits =
      let g = (place_first r payload req h).1 in
      let b = r + region_header in
      let (head, pos, le, header, rest) = v.linked in
      let there : g.blocks a ≡ record (h.blocks a) { prev = b } = ground (arith, head, fits) in
      let fresh : g.blocks b ≡ new_block r payload req 0 a = ground (arith, head, fits) in
      let other : (x : ℕ) → x ≢ b → x ≢ a → g.blocks x ≡ h.blocks x =
        λ x ne na. ground (arith, head) in
      let same : SameSizes h.blocks g.blocks a =
        (ap (λ (x : Block). x.size) there, ap (λ (x : Block). x.req_size) there) in
      let all_same = λ (x : ℕ) (ne : x ≢ b). all_sizes g.blocks a b same other x ne in
      let up =
        Blocks-le r (r + (h.regions r).size) h.blocks a (end_of h.blocks a) (h.blocks a).next bs
          rest in
      let out : is_in b (a ∷ bs) ≡ false =
        not_below r (r + (h.regions r).size) h.blocks 0 (r + region_header) (h.regions r).first a b
          bs v.linked (omega arith) in
      let size_is : (g.blocks b).size ≡ payload = ap (λ (x : Block). x.size) fresh ∙ omega arith in
      let req_is : (g.blocks b).req_size ≡ req =
        ap (λ (x : Block). x.req_size) fresh ∙ omega arith in
      settle r payload req h small asked (a ∷ bs) v g b (b ∷ a ∷ bs) (record {
        counts = refl;
        regions_kept = λ x ne. ground arith;
        header_kept = ground arith;
        blocks_new = (
          ground arith,
          omega arith,
          omega arith,
          subst (IsHeader r (r + (h.regions r).size) 0) (sym fresh) (refl, refl, refl),
          (
            ap (λ (x : Block). x.next) fresh,
            pos,
            omega (arith, size_is),
            subst (IsHeader r (r + (h.regions r).size) b) (sym there) (refl, header.1, header.2),
            subst
                (λ (x : Block).
                  Blocks r (r + (h.regions r).size) g.blocks a (a + block_header + x.size) x.next
                    bs)
                (sym there)
                (Blocks-frame r (r + (h.regions r).size) h.blocks g.blocks a (end_of h.blocks a)
                  (h.blocks a).next bs (λ x low. other x (omega arith) (omega arith)) rest),
          ),
        );
        takes = taken_new g.blocks b (a ∷ bs) (λ x ne. (all_same x ne).0) out size_is;
        out = out;
        among = λ x. is_in-cons x b (a ∷ bs);
        new_size = (size_is, req_is);
        rest_sizes = all_same;
        far = λ x away.
            other x (ground (arith, away, fits, up, v.placed)) (ground (arith, away, le, up));
      })

  pub place_only-Adds :
      (v : IsRegion h r [])
      → region_header + needed r payload req ≤ size r payload req h small asked
      → Adds h
          (place_only r payload req h).1
          r
          payload
          req
          (r + region_header)
          []
          ((r + region_header) ∷ [])
  unfolding place_only
  place_only-Adds v fits =
      let g = (place_only r payload req h).1 in
      let b = r + region_header in
      let fresh : g.blocks b ≡ new_block r payload req 0 0 = ground arith in
      let other : (x : ℕ) → x ≢ b → g.blocks x ≡ h.blocks x = λ x ne. ground arith in
      let size_is : (g.blocks b).size ≡ payload = ap (λ (x : Block). x.size) fresh ∙ omega arith in
      let req_is : (g.blocks b).req_size ≡ req =
        ap (λ (x : Block). x.req_size) fresh ∙ omega arith in
      settle r payload req h small asked [] v g b (b ∷ []) (record {
        counts = refl;
        regions_kept = λ x ne. ground arith;
        header_kept = ground arith;
        blocks_new = (
          ground arith,
          omega arith,
          omega arith,
          subst (IsHeader r (r + (h.regions r).size) 0) (sym fresh) (refl, refl, refl),
          (ap (λ (x : Block). x.next) fresh, omega (arith, size_is, fits)),
        );
        takes =
            taken_new g.blocks b [] (λ x ne. ap (λ (y : Block). y.size) (other x ne)) (is_in_nil b)
              size_is;
        out = is_in_nil b;
        among = λ x. is_in-cons x b [];
        new_size = (size_is, req_is);
        rest_sizes = λ x ne. of_path h.blocks g.blocks x (other x ne);
        far = λ x away. other x (ground (arith, away, fits));
      })
