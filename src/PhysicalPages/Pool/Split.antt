-- ===== src/PhysicalPages/Pool/Split.antt =====
-- A block split in two, the upper half back to the pool (split_block).
use atros.Base.{
  ℕ, suc, ◌+◌, ◌*◌, ◌%◌, ◌^◌, ◌≤◌, ◌<◌, ◌≡◌, ◌≢◌, refl, sym, subst, List, [], ◌∷◌, ◌++◌, NotIn, In,
  In-snoc, arith, ok, ◌⊎◌, inl, inr, true, false, ◌==◌, eq_or_ne, ne→==, pow-positive, ◌∙◌, ap,
  le→leb,
}
use native.Mathlib.Nat.{pow-suc}
use mathlib.Core.Path.{subst₂}
use atros.LinkedLists.Links.{Links, Ptr, null, update, update_eq, update_ne}
use atros.LinkedLists.Circular.Walk.{IsClist}
use atros.LinkedLists.Circular.Push.{after_push, head_or, after_push-IsClist}
use atros.LinkedLists.Circular.Frame.{Same, IsClist-frame, after_push-Same}
use atros.PhysicalPages.State.{
  Memory, Ppage, sizeof_ppage, ppage_set_free, ppage_to_ppn, ppn_to_ppage,
}
use atros.PhysicalPages.Blocks.{split_block}
use atros.PhysicalPages.Steps.{
  IsClosed, push_links, push_head, push_links-IsClosed, push_links-Same, push_used-ok, push_free-ok,
  edit-ok, edit-edit,
}
use atros.PhysicalPages.Pool.{span, IsBlock, IsArray, IsPool, IsTaken, NotIn-of}
use atros.PhysicalPages.Pool.Take.{IsClosed-frame, IsBlock-keep, span-positive, free-ne, used-ne}

pub span-suc : (k : ℕ) → span (suc k) ≡ span k + span k
span-suc k = omega (arith, pow-suc 2 k)

-- A descriptor in bounds has its own page number, and is found under it.
pub ppage_to_ppn-ok :
    (m : Memory) (p : Ptr) (n : ℕ)
    → IsArray m
    → p ≡ m.ppages_dscrs + sizeof_ppage * n
    → n ≤ m.last_ppn
    → ppage_to_ppn p m ≡ ok (n, m)
unfolding ppage_to_ppn
ppage_to_ppn-ok m p n a e h =
    let ne : (p == null) ≡ false = ne→== p null (λ z. omega (arith, a.base)) in
    rw ne (ap (λ q. ok (q, m)) (omega (arith, a.fits)))

pub ppn_to_ppage-ok :
    (m : Memory) (n : ℕ)
    → m.first_ppn ≤ n
    → n ≤ m.last_ppn
    → ppn_to_ppage n m ≡ ok (m.ppages_dscrs + sizeof_ppage * n, m)
unfolding ppn_to_ppage
ppn_to_ppage-ok m n h h' = rw (le→leb m.first_ppn n h, le→leb n m.last_ppn h')

module _ (m : Memory) (free : ℕ → List Ptr) (c : List Ptr) (pool : IsPool m free c) (k : ℕ)
    (b : Ptr) (is : IsTaken m free c b (suc k)) (small : suc k < 256) where
  abbrev upper : Ptr
  upper = b + span k

  abbrev released : Ppage
  released = record (m.page upper) { block_head = true; block_order = k % 256; count = 0 }

  abbrev marked : Memory
  marked = record m { page = update m.page upper released }

  abbrev shrunk : Ppage
  shrunk = record (marked.page b) { block_order = ((marked.page b).block_order + 255) % 256 }

  abbrev linked : Links
  linked = after_push m.links (free k) upper

  abbrev pub halved : Memory
  halved = record m {
    page = update marked.page b shrunk;
    links = push_links linked (m.used_lists k) b;
    free_lists = update m.free_lists k (head_or (free k) upper);
    used_lists = update m.used_lists k (push_head (m.used_lists k) b);
  }

  bounds : (is.block.index * 2 ^ suc k + 2 ^ suc k ≡ is.block.index * 2 ^ suc k + 2 ^ k + 2 ^ k)
  bounds = omega (arith, pow-suc 2 k)

  b-ne_null : b ≢ null
  b-ne_null h = omega (arith, is.block.place, pool.array.base)

  upper-ne_null : upper ≢ null
  upper-ne_null h = omega (arith, is.block.place, pool.array.base)

  upper-NotIn : NotIn upper (free k)
  upper-NotIn =
      NotIn-of upper (free k)
        λ q i. ground (arith, is.free_apart k q i, span-suc k, span-positive k)

  linked-Same : (p : Ptr) → p ≢ upper → NotIn p (free k) → Same m.links linked p
  linked-Same p ne n = after_push-Same m.links (m.free_lists k) (free k) upper p (pool.rings k) ne n

  used-ne_upper : (p : Ptr) → In p c → p ≢ upper
  used-ne_upper p i = ground (arith, is.lone p i, span-suc k, span-positive k)

  linked-IsClosed : IsClosed linked m.used_lists c
  linked-IsClosed = IsClosed-frame m.links linked m.used_lists c pool.closed (λ p i.
      linked-Same p (used-ne_upper p i)
        (NotIn-of p (free k) (λ q j. used-ne m free c pool k p q i j)))

  upper-place :
      upper ≡ m.ppages_dscrs + sizeof_ppage * ((is.block.index * 2 ^ suc k + 2 ^ k) % 2 ^ 32)
  upper-place =
      omega (arith, is.block.place, is.block.below, pool.array.fits, bounds, pow-positive k)

  upper-index : (is.block.index * 2 ^ suc k + 2 ^ k) % 2 ^ 32 ≡ is.block.index * 2 ^ suc k + 2 ^ k
  upper-index = omega (arith, is.block.below, pool.array.fits, bounds)

  pub split_block-ok : split_block k b m ≡ ok (b, halved)
  unfolding split_block ppage_set_free
  split_block-ok =
      let n = is.block.index * 2 ^ suc k in
      let u = (n + 2 ^ k) % 2 ^ 32 in
      let pushed : Memory = record marked {
        links = linked;
        free_lists = update m.free_lists k (head_or (free k) upper);
      } in
      rw (
        ppage_to_ppn-ok m b n pool.array is.block.place
            (omega (arith, is.block.below, pow-positive (suc k))),
        ppn_to_ppage-ok m u (omega (arith, is.block.above, upper-index))
            (omega (arith, is.block.below, bounds, pow-positive k, upper-index)),
        ← upper-place,
        edit-ok m upper (λ d. record d { block_head = true }) upper-ne_null,
        edit-edit m upper (record (m.page upper) { block_head = true })
            (λ d. record d { block_order = k % 256 }) upper-ne_null,
        edit-edit m upper (record (m.page upper) { block_head = true; block_order = k % 256 })
            (λ d. record d { count = 0 }) upper-ne_null,
        push_free-ok marked k (free k) upper (pool.rings k) upper-ne_null upper-NotIn,
        edit-ok pushed b (λ d. record d { block_order = (d.block_order + 255) % 256 }) b-ne_null,
        push_used-ok (record pushed { page = update marked.page b shrunk }) c k b linked-IsClosed
            b-ne_null,
      )

  abbrev pub grown : ℕ → List Ptr
  grown = update free k (free k ++ upper ∷ [])

  -- What is free now was free, or is the upper half.
  now_free : (j : ℕ) (p : Ptr) → In p (grown j) → In p (free j) ⊎ ((p ≡ upper) × (j ≡ k))
  now_free j p i = elim (eq_or_ne j k) [
    | inl h ↦
        let i' : In p (free k ++ upper ∷ []) =
          subst (In p) (update_eq free k j (free k ++ upper ∷ []) h) i in
        elim (In-snoc p (free k) upper i') [
          | inl old ↦ inl (subst (λ t. In p (free t)) (sym h) old)
          | inr e ↦ inr (e, h)
        ]
    | inr ne ↦ inl (subst (In p) (update_ne free k j (free k ++ upper ∷ []) ne) i)
  ]

  free-ne_b : (j : ℕ) (p : Ptr) → In p (free j) → p ≢ b
  free-ne_b j p i h = used-ne m free c pool j b p is.listed i (sym h)

  free-ne_upper : (j : ℕ) (p : Ptr) → In p (free j) → p ≢ upper
  free-ne_upper j p i =
      ground (arith, is.free_apart j p i, span-suc k, span-positive k, span-positive j)

  free-NotIn_used : (j : ℕ) (p : Ptr) → In p (free j) → NotIn p c
  free-NotIn_used j p i = NotIn-of p c (λ q i' h. used-ne m free c pool j q p i' i (sym h))

  upper-NotIn_used : NotIn upper c
  upper-NotIn_used = NotIn-of upper c (λ q i h. used-ne_upper q i (sym h))

  upper-ne_b : upper ≢ b
  upper-ne_b h = omega (arith, span-positive k)

  halved-Same : (p : Ptr) → p ≢ b → NotIn p c → Same linked halved.links p
  halved-Same p ne n = push_links-Same linked m.used_lists c linked-IsClosed k b p ne n

  ring_same : IsClist halved.links (head_or (free k) upper) (free k ++ upper ∷ [])
  ring_same =
      IsClist-frame linked halved.links (head_or (free k) upper) (free k ++ upper ∷ [])
        (after_push-IsClist m.links (m.free_lists k) (free k) upper (pool.rings k) upper-ne_null
          upper-NotIn)
        (λ p i. elim (In-snoc p (free k) upper i) [
          | inl old ↦ halved-Same p (free-ne_b k p old) (free-NotIn_used k p old)
          | inr e ↦
              subst (Same linked halved.links) (sym e)
                (halved-Same upper upper-ne_b upper-NotIn_used)
        ])

  ring_other : (j : ℕ) → j ≢ k → IsClist halved.links (m.free_lists j) (free j)
  ring_other j ne =
      IsClist-frame linked halved.links (m.free_lists j) (free j)
        (IsClist-frame m.links linked (m.free_lists j) (free j) (pool.rings j) (λ p i.
          linked-Same p (free-ne_upper j p i)
            (NotIn-of p (free k) (λ q i'. free-ne m free c pool j k p q i i' ne))))
        (λ p i. halved-Same p (free-ne_b j p i) (free-NotIn_used j p i))

  halved-rings : (j : ℕ) → IsClist halved.links (halved.free_lists j) (grown j)
  halved-rings j = elim (eq_or_ne j k) [
    | inl h ↦
        rw
          (
            update_eq m.free_lists k j (head_or (free k) upper) h,
            update_eq free k j (free k ++ upper ∷ []) h,
          )
          ring_same
    | inr ne ↦
        rw
          (
            update_ne m.free_lists k j (head_or (free k) upper) ne,
            update_ne free k j (free k ++ upper ∷ []) ne,
          )
          (ring_other j ne)
  ]

  halved-page_other : (p : Ptr) → p ≢ b → p ≢ upper → halved.page p ≡ m.page p
  halved-page_other p nb nu =
      update_ne marked.page b p shrunk nb ∙ update_ne m.page upper p released nu

  halved-page_upper : halved.page upper ≡ released
  halved-page_upper =
      update_ne marked.page b upper shrunk upper-ne_b ∙ update_eq m.page upper upper released refl

  marked-page_b : marked.page b ≡ m.page b
  marked-page_b = update_ne m.page upper b released (λ h. upper-ne_b (sym h))

  halved-page_b : halved.page b ≡ shrunk
  halved-page_b = update_eq marked.page b b shrunk refl

  lower-IsBlock : IsBlock halved b k
  lower-IsBlock = record {
    index = is.block.index * 2;
    place = omega (arith, is.block.place, halves);
    above = omega (arith, is.block.above, halves);
    below = omega (arith, is.block.below, halves, bounds);
  }
    where
      halves : is.block.index * 2 * 2 ^ k ≡ is.block.index * 2 ^ suc k
      halves = omega (arith, ap (λ (t : ℕ). is.block.index * t) (pow-suc 2 k))

  upper-IsBlock : IsBlock halved upper k
  upper-IsBlock = record {
    index = is.block.index * 2 + 1;
    place = omega (arith, is.block.place, halves);
    above = omega (arith, is.block.above, halves);
    below = omega (arith, is.block.below, halves, bounds);
  }
    where
      halves : (is.block.index * 2 + 1) * 2 ^ k ≡ is.block.index * 2 ^ suc k + 2 ^ k
      halves = omega (arith, ap (λ (t : ℕ). is.block.index * t) (pow-suc 2 k))

  halved-orders :
      (j : ℕ) (p : Ptr)
      → In p (grown j)
      → ((halved.page p).block_order ≡ j)
        × ((halved.page p).block_head ≡ true)
        × ((halved.page p).count ≡ 0)
  halved-orders j p i = elim (now_free j p i) [
    | inl old ↦
        rw (halved-page_other p (free-ne_b j p old) (free-ne_upper j p old)) (pool.orders j p old)
    | inr (e, h) ↦ rw (e, halved-page_upper) (omega (arith, h), refl, refl)
  ]

  upper-apart : (j : ℕ) (q : Ptr) → In q (free j) → (upper + span k ≤ q) ⊎ (q + span j ≤ upper)
  upper-apart j q i = ground (arith, is.free_apart j q i, span-suc k)

  halved-apart :
      (i j : ℕ) (p q : Ptr)
      → In p (grown i)
      → In q (grown j)
      → ((p ≡ q) × (i ≡ j)) ⊎ (p + span i ≤ q) ⊎ (q + span j ≤ p)
  halved-apart i j p q a a' = elim (now_free i p a) [
    | inl old ↦ elim (now_free j q a') [
      | inl old' ↦ pool.apart i j p q old old'
      | inr (e, h) ↦ rw (e, h) (ground (arith, upper-apart i p old))
    ]
    | inr (e, h) ↦ elim (now_free j q a') [
      | inl old' ↦ rw (e, h) (ground (arith, upper-apart j q old'))
      | inr (e', h') ↦ inl (e ∙ sym e', h ∙ sym h')
    ]
  ]

  halved-used_apart :
      (j : ℕ) (p q : Ptr) → In p (b ∷ c) → In q (grown j) → (p < q) ⊎ (q + span j ≤ p)
  halved-used_apart j p q i a = elim (now_free j q a) [
    | inl old ↦ elim i [
      | inl h ↦ rw h (ground (arith, is.free_apart j q old, span-positive (suc k)))
      | inr i' ↦ pool.used_apart j p q i' old
    ]
    | inr (e, h) ↦ elim i [
      | inl h' ↦ rw (h', e) (inl (omega (arith, span-positive k)))
      | inr i' ↦ rw (e, h) (ground (arith, is.lone p i', span-suc k, span-positive k))
    ]
  ]

  pub halved-IsPool : IsPool halved grown (b ∷ c)
  halved-IsPool = record {
    array = record { base = pool.array.base; fits = pool.array.fits };
    rings = halved-rings;
    blocks = λ j p i. elim (now_free j p i) [
      | inl old ↦ IsBlock-keep (pool.blocks j p old) refl refl refl
      | inr (e, h) ↦ subst₂ (IsBlock halved) (sym e) (sym h) upper-IsBlock
    ];
    orders = halved-orders;
    apart = halved-apart;
    closed = push_links-IsClosed linked m.used_lists c linked-IsClosed k b b-ne_null;
    used_apart = halved-used_apart;
  }

  pub halved-IsTaken : IsTaken halved grown (b ∷ c) b k
  halved-IsTaken = record {
    block = lower-IsBlock;
    level =
        rw halved-page_b (omega (arith, is.level, ap (λ (d : Ppage). d.block_order) marked-page_b));
    used = rw halved-page_b (omega (arith, is.used, ap (λ (d : Ppage). d.count) marked-page_b));
    listed = inl refl;
    free_apart = λ j q i. elim (now_free j q i) [
      | inl old ↦ ground (arith, is.free_apart j q old, span-suc k)
      | inr (e, h) ↦ inl (omega arith)
    ];
    lone = λ q i. elim i [ inl h ↦ inl h | inr i' ↦ ground (arith, is.lone q i', span-suc k) ];
  }
