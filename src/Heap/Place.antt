-- ===== src/Heap/Place.antt =====
-- place_block: a region with its blocks stays well-formed, and the block is new.
use podumat_os.Prelude.{
  ℕ, ◌+◌, ◌^◌, ◌≤◌, ◌<◌, ◌≡◌, ◌≢◌, refl, ◌⊎◌, inl, inr, true, false, ◌||◌, List, ◌==◌,
  if◌then◌else◌, ==_iff, Bool-cases, arith, ap, subst, ◌∙◌, sym, u32,
}
use podumat_os.Prelude.Members.{is_in, insert_after}
use podumat_os.Heap.Store.{Region, Block, Heap, block_header, region_header}
use podumat_os.Heap.{needed, count_block}
use podumat_os.Heap.Blocks.{
  end_of, Blocks, is_in-le, is_in-end_of, next-is_in, Linked, Blocks-insert_after,
}
use podumat_os.Heap.Sums.{taken, taken-insert_after, is_in-insert_after, taken-le, not_in}

-- The header at `r` and the blocks `bs`: `usage` is what they take, and all lies below 2 ^ 64.
pub record IsRegion (h : Heap) (r : ℕ) (bs : List ℕ) : Type 0 where
  pub linked :
      Blocks r (r + (h.regions r).size) h.blocks 0 (r + region_header) (h.regions r).first bs
  pub used : (h.regions r).usage ≡ region_header + taken h.blocks bs
  pub placed : 0 < r
  pub high : r + (h.regions r).size < 2 ^ 64
  pub short : (h.regions r).size < 2 ^ 32

-- `g` is `h` with the block `b` added to `bs`, which gives `cs`: it was not a block before, the others
-- keep their sizes, and nothing outside the region changes but the counters.
pub record Adds (h g : Heap) (r payload req b : ℕ) (bs cs : List ℕ) : Type 0 where
  pub region : IsRegion g r cs
  pub fresh : is_in b bs ≡ false
  pub members : (x : ℕ) → is_in x cs ≡ (x == b || is_in x bs)
  pub sized : ((g.blocks b).size ≡ payload) × ((g.blocks b).req_size ≡ req)
  pub others :
      (x : ℕ)
      → x ≢ b
      → ((g.blocks x).size ≡ (h.blocks x).size) × ((g.blocks x).req_size ≡ (h.blocks x).req_size)
  pub outside :
      (x : ℕ) → (x < r + region_header) ⊎ (r + (h.regions r).size ≤ x) → g.blocks x ≡ h.blocks x
  pub other_regions : (x : ℕ) → x ≢ r → g.regions x ≡ h.regions x
  pub header :
      g.regions r
      ≡ record (h.regions r) { first = (g.regions r).first; usage = (g.regions r).usage }
  pub counted : g ≡ count_block req (record h { regions = g.regions; blocks = g.blocks })

abbrev pub SameSizes : (f g : ℕ → Block) → ℕ → Type 0
SameSizes f g x = ((g x).size ≡ (f x).size) × ((g x).req_size ≡ (f x).req_size)

pub of_path : (f g : ℕ → Block) (x : ℕ) → g x ≡ f x → SameSizes f g x
of_path f g x e = (ap (λ (b : Block). b.size) e, ap (λ (b : Block). b.req_size) e)

-- A change of links changes no size.
Linked-sizes :
    (r hi : ℕ) (f g : ℕ → Block) (cur b n : ℕ)
    → Linked r hi f g cur b n
    → (x : ℕ) → x ≢ b
    → SameSizes f g x
Linked-sizes r hi f g cur b n link x ne = elim (Bool-cases (x == cur)) [
  | inl at ↦
      subst (SameSizes f g) (sym ((==_iff x cur).0 at))
        (ap (λ (y : Block). y.size) link.at_cur, ap (λ (y : Block). y.req_size) link.at_cur)
  | inr off ↦
      let apart : x ≢ cur = λ e. ground (arith, off, e) in
      elim (Bool-cases (n == 0)) [
        | inl last ↦ of_path f g x (link.elsewhere x apart ne (inr ((==_iff n 0).0 last)))
        | inr more ↦ elim (Bool-cases (x == n)) [
          | inl there ↦
              let e = link.at_next (λ z. ground (arith, more, z)) in
              subst (SameSizes f g) (sym ((==_iff x n).0 there))
                (ap (λ (y : Block). y.size) e, ap (λ (y : Block). y.req_size) e)
          | inr away ↦
              of_path f g x (link.elsewhere x apart ne (inl (λ e. ground (arith, away, e))))
        ]
      ]
]

module _ (r payload req : ℕ) (h : Heap) (small : payload < 2 ^ 32) (asked : req < 2 ^ 32) where
  abbrev pub size : ℕ
  size = (h.regions r).size

  module _ (bs : List ℕ) (v : IsRegion h r bs) where
    -- What the three ways to link a block have in common.
    module _ (g : Heap) (b : ℕ) (cs : List ℕ) where
      pub record Shape : Type 0 where
        pub counts : g ≡ count_block req (record h { regions = g.regions; blocks = g.blocks })
        pub regions_kept : (x : ℕ) → x ≢ r → g.regions x ≡ h.regions x
        pub header_kept : g.regions r ≡ record (h.regions r) {
          first = (g.regions r).first;
          usage = u32 ((h.regions r).usage + u32 (needed r payload req));
        }
        pub blocks_new : Blocks r (r + size) g.blocks 0 (r + region_header) (g.regions r).first cs
        pub takes : taken g.blocks cs ≡ taken h.blocks bs + block_header + payload
        pub out : is_in b bs ≡ false
        pub among : (x : ℕ) → is_in x cs ≡ (x == b || is_in x bs)
        pub new_size : ((g.blocks b).size ≡ payload) × ((g.blocks b).req_size ≡ req)
        pub rest_sizes :
            (x : ℕ)
            → x ≢ b
            → ((g.blocks x).size ≡ (h.blocks x).size)
              × ((g.blocks x).req_size ≡ (h.blocks x).req_size)
        pub far : (x : ℕ) → (x < r + region_header) ⊎ (r + size ≤ x) → g.blocks x ≡ h.blocks x

      pub settle : Shape → Adds h g r payload req b bs cs
      settle k =
          let same_size : (g.regions r).size ≡ size = ap (λ (x : Region). x.size) k.header_kept in
          let room =
            taken-le r (r + size) g.blocks 0 (r + region_header) (g.regions r).first cs
              k.blocks_new in
          let usage : (g.regions r).usage ≡ region_header + taken g.blocks cs =
            ap (λ (x : Region). x.usage) k.header_kept
            ∙ omega (arith, room, k.takes, v.used, v.short, small) in
          record {
            region = record {
              linked =
                  subst
                    (λ n. Blocks r (r + n) g.blocks 0 (r + region_header) (g.regions r).first cs)
                    (sym same_size) k.blocks_new;
              used = usage;
              placed = v.placed;
              high = subst (λ n. r + n < 2 ^ 64) (sym same_size) v.high;
              short = subst (λ n. n < 2 ^ 32) (sym same_size) v.short;
            };
            fresh = k.out;
            members = k.among;
            sized = k.new_size;
            others = k.rest_sizes;
            outside = k.far;
            other_regions = k.regions_kept;
            header =
                k.header_kept
                ∙ ap (λ u. record (h.regions r) { first = (g.regions r).first; usage = u })
                    (sym (ap (λ (x : Region). x.usage) k.header_kept));
            counted = k.counts;
          }

    -- A block linked behind `cur`, in whichever way.
    module _ (cur : ℕ) (within : is_in cur bs ≡ true) (pos : 0 < cur) (g : Heap) where
      abbrev pub behind : ℕ
      behind = end_of h.blocks cur

      abbrev pub next : ℕ
      next = (h.blocks cur).next

      pub low : r + region_header ≤ cur
      low =
          is_in-le r (r + size) h.blocks 0 (r + region_header) (h.regions r).first cur bs v.linked
            within

      pub inside : end_of h.blocks cur ≤ r + size
      inside =
          is_in-end_of r (r + size) h.blocks 0 (r + region_header) (h.regions r).first cur bs
            v.linked within

      pub next_inside : next ≢ 0 → (r + region_header ≤ next) × (end_of h.blocks next ≤ r + size)
      next_inside more =
          let there =
            next-is_in r (r + size) h.blocks 0 (r + region_header) (h.regions r).first cur bs
              v.linked within more in
          (
            is_in-le r (r + size) h.blocks 0 (r + region_header) (h.regions r).first next bs
                v.linked there,
            is_in-end_of r (r + size) h.blocks 0 (r + region_header) (h.regions r).first next bs
                v.linked there,
          )

      pub after :
          g ≡ count_block req (record h { regions = g.regions; blocks = g.blocks })
          → ((x : ℕ) → x ≢ r → g.regions x ≡ h.regions x)
          → (g.regions r ≡ record (h.regions r) {
            usage = u32 ((h.regions r).usage + u32 (needed r payload req));
          })
          → Linked r (r + size) h.blocks g.blocks cur behind next
          → (g.blocks behind).size ≡ payload
          → (g.blocks behind).req_size ≡ req
          → behind + block_header + payload ≤ (if next == 0 then r + size else next)
          → Adds h g r payload req behind bs (insert_after cur behind bs)
      after counts regions_kept head link sz rq fits =
          let off =
            not_in r (r + size) h.blocks 0 (r + region_header) (h.regions r).first cur bs v.linked
              within (gap fits) in
          let first_kept : (g.regions r).first ≡ (h.regions r).first =
            ap (λ (x : Region). x.first) head in
          settle g behind (insert_after cur behind bs) (record {
            counts = counts;
            regions_kept = regions_kept;
            header_kept =
                head
                ∙ ap
                    (λ f. record (h.regions r) {
                      first = f;
                      usage = u32 ((h.regions r).usage + u32 (needed r payload req));
                    })
                    (sym first_kept);
            blocks_new =
                subst
                  (λ p.
                    Blocks r (r + size) g.blocks 0 (r + region_header) p
                      (insert_after cur behind bs))
                  (sym first_kept)
                  (Blocks-insert_after r (r + size) h.blocks g.blocks 0 (r + region_header)
                    (h.regions r).first cur behind bs v.linked within refl
                    (subst (λ n. behind + block_header + n ≤ (if next == 0 then r + size else next))
                      (sym sz) fits)
                    link);
            takes =
                taken-insert_after h.blocks g.blocks cur behind bs
                  (λ x ne.
                    (Linked-sizes r (r + size) h.blocks g.blocks cur behind next link x ne).0)
                  off within
                ∙ omega (arith, sz);
            out = off;
            among = λ x. is_in-insert_after cur behind x bs within;
            new_size = (sz, rq);
            rest_sizes = Linked-sizes r (r + size) h.blocks g.blocks cur behind next link;
            far = λ x away.
                link.elsewhere x (ground (arith, away, low, inside))
                  (ground (arith, away, low, fits, next_bound)) (apart x away);
          })
        where
          gap :
              behind + block_header + payload ≤ (if next == 0 then r + size else next)
              → (next ≡ 0) ⊎ (behind < next)
          gap fits = ground (arith, fits)

          next_bound : (next ≡ 0) ⊎ (next < r + size)
          next_bound = elim (Bool-cases (next == 0)) [
            | inl none_next ↦ inl ((==_iff next 0).0 none_next)
            | inr more ↦ inr (omega (arith, (next_inside (λ z. ground (arith, more, z))).1))
          ]

          apart : (x : ℕ) → (x < r + region_header) ⊎ (r + size ≤ x) → (x ≢ next) ⊎ (next ≡ 0)
          apart x away = elim (Bool-cases (next == 0)) [
            | inl none_next ↦ inr ((==_iff next 0).0 none_next)
            | inr more ↦
                inl (λ e. ground (arith, away, e, next_inside (λ z. ground (arith, more, z))))
          ]
