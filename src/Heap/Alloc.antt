-- ===== src/Heap/Alloc.antt =====
-- kmalloc in the regions that there are: the best one, and then the others.
use podumat_os.Prelude.{
  ℕ, zero, suc, ◌+◌, ◌^◌, ◌<◌, ◌≡◌, ◌≢◌, refl, ◌⊎◌, inl, inr, true, false, ◌||◌, List, [], ◌∷◌,
  Option, some, ◌==◌, length, ==_iff, Bool-cases, arith, ap, subst, ◌∙◌, sym,
}
use podumat_os.Prelude.Members.{is_in}
use podumat_os.Heap.Store.{Block, Heap, block_header, region_header}
use podumat_os.Heap.{place_block, needed}
use podumat_os.Heap.Calls.{from_new, region_loop, from_best}
use podumat_os.Heap.Rounds.{
  loop_end, loop_best, loop_full, loop_serves, best_none, best_full, best_serves, refreshed_at,
}
use podumat_os.Heap.Gaps.{NoGap}
use podumat_os.Heap.Place.{Adds}
use podumat_os.Heap.Search.{Placing, place_block-Placing}
use podumat_os.Heap.Regions.{Regions}
use podumat_os.Heap.Layout.{Layout, put_list}
use podumat_os.Heap.Whole.{IsHeap, Adds-Layout, refresh_best_hint-Layout, refresh_best_hint-blocks}

-- `p` is the address of the bytes of a block that is new in a region of the heap `h`: in `g` it has the
-- size `payload`, and it is the only new block of the well-formed heap.
pub record Serves (h g : Heap) (rs : List ℕ) (bs : ℕ → List ℕ) (payload req p : ℕ) : Type 0 where
  pub region : ℕ
  pub block : ℕ
  pub list : List ℕ
  pub inside : is_in region rs ≡ true
  pub address : p ≡ block + block_header
  pub fresh : is_in block (bs region) ≡ false
  pub members : (x : ℕ) → is_in x list ≡ (x == block || is_in x (bs region))
  pub sized : ((g.blocks block).size ≡ payload) × ((g.blocks block).req_size ≡ req)
  pub heap : IsHeap g rs (put_list region list bs)

-- No gap of the region `r` is large enough.
abbrev pub IsFull : (h : Heap) (bs : ℕ → List ℕ) (payload req r : ℕ) → Type 0
IsFull h bs payload req r =
    NoGap h.blocks (needed r payload req) (r + (h.regions r).size) (r + region_header) (bs r)

pub record NoRoom (h : Heap) (rs : List ℕ) (bs : ℕ → List ℕ) (payload req : ℕ) : Type 0 where
  pub full : (r : ℕ) → is_in r rs ≡ true → IsFull h bs payload req r

-- The ways in which the search of all regions ends: a new block, or a new region for want of room.
abbrev pub Served :
    (fuel payload req : ℕ) → Heap → List ℕ → (ℕ → List ℕ) → Option (ℕ × Heap) → Type 0
Served fuel payload req h rs bs o =
    ((p : ℕ) × (g : Heap) × (o ≡ some (p, g)) × Serves h g rs bs payload req p)
    ⊎ ((o ≡ from_new fuel payload req h) × NoRoom h rs bs payload req)

pub not_empty : (b : ℕ) (cs : List ℕ) → is_in b cs ≡ true → cs ≢ []
unfolding is_in
not_empty b [] h = absurd (cc h)
not_empty b (c ∷ cs) h = λ e. absurd (cc e)

module _ (fuel payload req : ℕ) (h : Heap) (rs : List ℕ) (bs : ℕ → List ℕ) (v : IsHeap h rs bs)
    (small : payload < 2 ^ 32) (asked : req < 2 ^ 32) (enough : length rs < fuel)
    (short : (r : ℕ) → is_in r rs ≡ true → length (bs r) < fuel + 1) where
  abbrev Full : ℕ → Type 0
  Full = IsFull h bs payload req

  -- A region that is tried.
  tried :
      (r : ℕ)
      → is_in r rs ≡ true
      → Placing h r payload req (bs r) (place_block r payload req fuel h)
  tried r here =
      place_block-Placing r payload req h small asked (bs r) fuel (v.layout.region r here)
        (λ e. absurd (v.full r here e)) (short r here)

  serves :
      (r : ℕ)
      → is_in r rs ≡ true
      → (g k : Heap) (p b : ℕ) (cs : List ℕ) → p ≡ b + block_header
      → Adds h g r payload req b (bs r) cs
      → g.blocks ≡ k.blocks
      → Layout k rs (put_list r cs bs)
      → ((k.best ≡ 0) ⊎ (is_in k.best rs ≡ true))
      → Serves h k rs bs payload req p
  serves r here g k p b cs at adds same layout hint = record {
    region = r;
    block = b;
    list = cs;
    inside = here;
    address = at;
    fresh = adds.fresh;
    members = adds.members;
    sized =
        subst (λ (f : ℕ → Block). ((f b).size ≡ payload) × ((f b).req_size ≡ req)) same adds.sized;
    heap = record {
      layout = layout;
      full = λ x at'. elim (Bool-cases (x == r)) [
        | inl same ↦ simp same (not_empty b cs (ground (arith, adds.members b)))
        | inr other ↦ simp other (v.full x at')
      ];
      hint = hint;
    };
  }

  -- The ways in which a search of the regions `ss` ends.
  Searched : List ℕ → Option (ℕ × Heap) → Type 0
  Searched ss o =
      ((p : ℕ) × (g : Heap) × (o ≡ some (p, g)) × Serves h g rs bs payload req p)
      ⊎ ((o ≡ from_new fuel payload req h) × ((x : ℕ) → is_in x ss ≡ true → (x ≡ h.best) ⊎ Full x))

  among :
      (ss : List ℕ) (rounds prev p : ℕ)
      → Regions h.regions prev p ss
      → ((x : ℕ) → is_in x ss ≡ true → is_in x rs ≡ true)
      → length ss < rounds
      → Searched ss (region_loop fuel payload req rounds h p)
  unfolding Searched is_in
  among ss zero prev p chain within left = absurd (omega (arith, left))
  among [] (suc rounds) prev p chain within left =
      inr (loop_end fuel payload req rounds h p chain, λ x at. absurd (cc at))
  among (a ∷ ss) (suc rounds) prev p (e, pos, back, once, rest) within left =
      let more : (a == 0) ≡ false = ground (arith, pos) in
      let here : is_in a rs ≡ true = within a (ground arith) in
      let later =
        among ss rounds a (h.regions a).next rest (λ x at. within x (ground (arith, at)))
          (omega (arith, left)) in
      subst (λ x. Searched (a ∷ ss) (region_loop fuel payload req (suc rounds) h x)) (sym e)
        (elim (Bool-cases (a == h.best)) [
          | inl best ↦
              joined ss a (region_loop fuel payload req (suc rounds) h a) _
                (loop_best fuel payload req rounds h a more best) (inl ((==_iff a h.best).0 best))
                later
          | inr other ↦
              let (q, g, placed, how) = tried a here in
              elim how [
                | inl (q0, same, full) ↦
                    joined ss a (region_loop fuel payload req (suc rounds) h a) _
                      (loop_full fuel payload req rounds h a more other (
                        subst (λ k. place_block a payload req fuel h ≡ some (0, k)) same
                          (subst (λ x. place_block a payload req fuel h ≡ some (x, g)) q0 placed)))
                      (inr full) later
                | inr (b, cs, at, above, adds) ↦
                    let layout = Adds-Layout h rs bs v.layout g a payload req b cs here adds in
                    let (k, found, layout', hint) =
                      refresh_best_hint-Layout g rs (put_list a cs bs) layout fuel enough in
                    let got : (q == 0) ≡ false = ground (arith, at) in
                    inl (
                      q,
                      k,
                      loop_serves fuel payload req rounds h a q g more other got placed
                          ∙ refreshed_at fuel q g k found,
                      serves a here g k q b cs at adds
                          (sym (refresh_best_hint-blocks fuel g k found)) layout' hint,
                    )
              ]
        ])
    where
      joined :
          (ss : List ℕ) (a : ℕ) (o o' : Option (ℕ × Heap))
          → o ≡ o'
          → (a ≡ h.best) ⊎ Full a
          → Searched ss o'
          → Searched (a ∷ ss) o
      joined ss a o o' e this (inl (p, g, found, s)) = inl (p, g, e ∙ found, s)
      joined ss a o o' e this (inr (new, full)) = inr (
        e ∙ new,
        λ x at. elim (Bool-cases (x == a)) [
          | inl same ↦ subst (λ y. (y ≡ h.best) ⊎ Full y) (sym ((==_iff x a).0 same)) this
          | inr other ↦ full x (ground (arith, at, other))
        ],
      )

  -- The others are searched after the best region, which is full or 0.
  others :
      (o : Option (ℕ × Heap))
      → o ≡ region_loop fuel payload req fuel h h.root
      → ((x : ℕ) → is_in x rs ≡ true → x ≡ h.best → Full x)
      → Served fuel payload req h rs bs o
  unfolding Searched
  others o e best = elim (among rs fuel 0 h.root v.layout.chain (λ x at. at) enough) [
    | inl (p, g, found, s) ↦ inl (p, g, e ∙ found, s)
    | inr (new, full) ↦ inr (
      e ∙ new,
      record { full = λ x at. elim (full x at) [ inl is ↦ best x at is | inr full ↦ full ] },
    )
  ]

  pub from_best-Served : Served fuel payload req h rs bs (from_best fuel payload req h)
  from_best-Served = elim (Bool-cases (h.best == 0)) [
    | inl no_best ↦ others _ (best_none fuel payload req h no_best) (λ x at is.
        absurd (omega (arith, (v.layout.region x at).placed, is, (==_iff h.best 0).0 no_best)))
    | inr more ↦
        let here : is_in h.best rs ≡ true = ground (arith, v.hint, more) in
        let (q, g, placed, how) = tried h.best here in
        elim how [
          | inl (q0, same, full) ↦
              others _
                (best_full fuel payload req h more (
                  subst (λ k. place_block h.best payload req fuel h ≡ some (0, k)) same
                    (subst (λ x. place_block h.best payload req fuel h ≡ some (x, g)) q0 placed)))
                (λ x at is. subst Full (sym is) full)
          | inr (b, cs, at, above, adds) ↦
              let layout = Adds-Layout h rs bs v.layout g h.best payload req b cs here adds in
              let hint : g.best ≡ h.best = ap (λ (k : Heap). k.best) adds.counted in
              inl (
                q,
                g,
                best_serves fuel payload req h q g more (ground (arith, at)) placed,
                serves h.best here g g q b cs at adds refl layout
                    (inr (subst (λ x. is_in x rs ≡ true) (sym hint) here)),
              )
        ]
  ]
