-- ===== src/PhysicalPages/Pool/Release.antt =====
-- A block added to the pool, or to the used descriptors, when its descriptor is set up.
use atros.Base.{
  ℕ, ◌+◌, ◌≤◌, ◌<◌, ◌≡◌, ◌≢◌, refl, sym, subst, List, [], ◌∷◌, ◌++◌, NotIn, In, In-snoc, arith, ◌⊎◌,
  inl, inr, true, eq_or_ne, ◌∙◌,
}
use mathlib.Core.Path.{subst₂}
use atros.LinkedLists.Links.{Links, Ptr, null, update, update_eq, update_ne}
use atros.LinkedLists.Circular.Walk.{IsClist}
use atros.LinkedLists.Circular.Push.{after_push, head_or, after_push-IsClist}
use atros.LinkedLists.Circular.Frame.{Same, IsClist-frame, after_push-Same}
use atros.PhysicalPages.State.{Memory, Ppage}
use atros.PhysicalPages.Steps.{push_links, push_head, push_links-IsClosed, push_links-Same}
use atros.PhysicalPages.Pool.{Free, span, IsBlock, IsPool, NotIn-of}
use atros.PhysicalPages.Pool.Take.{IsClosed-frame, IsBlock-keep, span-positive, free-ne, used-ne}

-- The block is apart from the pool: no free block overlaps it and no used descriptor lies in it.
pub record IsApart (free : Free) (c : List Ptr) (u : Ptr) (order : ℕ) : Type 0 where
  pub free_apart : (k : ℕ) (q : Ptr) → In q (free k) → (u + span order ≤ q) ⊎ (q + span k ≤ u)
  pub used_apart : (q : Ptr) → In q c → (q < u) ⊎ (u + span order ≤ q)

-- A state that differs from a well-formed one at one descriptor outside the pool is well formed.
pub IsPool-local :
    (m : Memory) (free : Free) (c : List Ptr) (q : Ptr) (page : Ptr → Ppage) (links : Links)
    → IsPool m free c
    → ((k : ℕ) (p : Ptr) → In p (free k) → p ≢ q)
    → ((p : Ptr) → In p c → p ≢ q)
    → ((p : Ptr) → p ≢ q → page p ≡ m.page p)
    → ((p : Ptr) → p ≢ q → Same m.links links p)
    → IsPool (record m { page = page; links = links }) free c
IsPool-local m free c q page links pool nf nc pg same = record {
  array = record { base = pool.array.base; fits = pool.array.fits };
  rings = λ k.
      IsClist-frame m.links links (m.free_lists k) (free k) (pool.rings k)
        (λ p i. same p (nf k p i));
  blocks = λ k p i. IsBlock-keep (pool.blocks k p i) refl refl refl;
  orders = λ k p i. rw (pg p (nf k p i)) (pool.orders k p i);
  apart = pool.apart;
  closed = IsClosed-frame m.links links m.used_lists c pool.closed (λ p i. same p (nc p i));
  used_apart = pool.used_apart;
}

module _ (m : Memory) (free : Free) (c : List Ptr) (pool : IsPool m free c) (k : ℕ) (u : Ptr)
    (block : IsBlock m u k) (out : IsApart free c u k) (v : Ppage) where
  pub u-ne_null : u ≢ null
  u-ne_null h = omega (arith, block.place, pool.array.base)

  pub free-ne_u : (j : ℕ) (p : Ptr) → In p (free j) → p ≢ u
  free-ne_u j p i = ground (arith, out.free_apart j p i, span-positive k, span-positive j)

  pub used-ne_u : (p : Ptr) → In p c → p ≢ u
  used-ne_u p i = ground (arith, out.used_apart p i, span-positive k)

  pub u-NotIn : NotIn u (free k)
  u-NotIn = NotIn-of u (free k) (λ q i h. free-ne_u k q i (sym h))

  abbrev pub released : Memory
  released = record m {
    page = update m.page u v;
    links = after_push m.links (free k) u;
    free_lists = update m.free_lists k (head_or (free k) u);
  }

  abbrev pub added : Free
  added = update free k (free k ++ u ∷ [])

  linked-Same : (p : Ptr) → p ≢ u → NotIn p (free k) → Same m.links released.links p
  linked-Same p ne n = after_push-Same m.links (m.free_lists k) (free k) u p (pool.rings k) ne n

  pub now_free : (j : ℕ) (p : Ptr) → In p (added j) → In p (free j) ⊎ ((p ≡ u) × (j ≡ k))
  now_free j p i = elim (eq_or_ne j k) [
    | inl h ↦
        let i' : In p (free k ++ u ∷ []) =
          subst (In p) (update_eq free k j (free k ++ u ∷ []) h) i in
        elim (In-snoc p (free k) u i') [
          | inl old ↦ inl (subst (λ t. In p (free t)) (sym h) old)
          | inr e ↦ inr (e, h)
        ]
    | inr ne ↦ inl (subst (In p) (update_ne free k j (free k ++ u ∷ []) ne) i)
  ]

  released-rings : (j : ℕ) → IsClist released.links (released.free_lists j) (added j)
  released-rings j = elim (eq_or_ne j k) [
    | inl h ↦
        rw
          (
            update_eq m.free_lists k j (head_or (free k) u) h,
            update_eq free k j (free k ++ u ∷ []) h,
          )
          (after_push-IsClist m.links (m.free_lists k) (free k) u (pool.rings k) u-ne_null u-NotIn)
    | inr ne ↦
        rw
          (
            update_ne m.free_lists k j (head_or (free k) u) ne,
            update_ne free k j (free k ++ u ∷ []) ne,
          )
          (IsClist-frame m.links released.links (m.free_lists j) (free j) (pool.rings j) (λ p i.
            linked-Same p (free-ne_u j p i)
              (NotIn-of p (free k) (λ q i'. free-ne m free c pool j k p q i i' ne))))
  ]

  released-apart :
      (i j : ℕ) (p q : Ptr)
      → In p (added i)
      → In q (added j)
      → ((p ≡ q) × (i ≡ j)) ⊎ (p + span i ≤ q) ⊎ (q + span j ≤ p)
  released-apart i j p q a a' = elim (now_free i p a) [
    | inl old ↦ elim (now_free j q a') [
      | inl old' ↦ pool.apart i j p q old old'
      | inr (e, h) ↦ rw (e, h) (ground (arith, out.free_apart i p old))
    ]
    | inr (e, h) ↦ elim (now_free j q a') [
      | inl old' ↦ rw (e, h) (ground (arith, out.free_apart j q old'))
      | inr (e', h') ↦ inl (e ∙ sym e', h ∙ sym h')
    ]
  ]

  pub released-IsPool :
      (v.block_order ≡ k) → (v.block_head ≡ true) → (v.count ≡ 0) → IsPool released added c
  released-IsPool o hd n = record {
    array = record { base = pool.array.base; fits = pool.array.fits };
    rings = released-rings;
    blocks = λ j p i. elim (now_free j p i) [
      | inl old ↦ IsBlock-keep (pool.blocks j p old) refl refl refl
      | inr (e, h) ↦ subst₂ (IsBlock released) (sym e) (sym h) (IsBlock-keep block refl refl refl)
    ];
    orders = λ j p i. elim (now_free j p i) [
      | inl old ↦ rw (update_ne m.page u p v (free-ne_u j p old)) (pool.orders j p old)
      | inr (e, h) ↦ rw (update_eq m.page u p v e) (omega (arith, o, h), hd, n)
    ];
    apart = released-apart;
    closed = IsClosed-frame m.links released.links m.used_lists c pool.closed (λ p i.
        linked-Same p (used-ne_u p i)
          (NotIn-of p (free k) (λ q j. used-ne m free c pool k p q i j)));
    used_apart = λ j p q i a. elim (now_free j q a) [
      | inl old ↦ pool.used_apart j p q i old
      | inr (e, h) ↦ rw (e, h) (out.used_apart p i)
    ];
  }

  abbrev pub enlisted : Memory
  enlisted = record m {
    page = update m.page u v;
    links = push_links m.links (m.used_lists k) u;
    used_lists = update m.used_lists k (push_head (m.used_lists k) u);
  }

  pub enlisted-IsPool : IsPool enlisted free (u ∷ c)
  enlisted-IsPool = record {
    array = record { base = pool.array.base; fits = pool.array.fits };
    rings = λ j.
        IsClist-frame m.links enlisted.links (m.free_lists j) (free j) (pool.rings j) (λ p i.
          push_links-Same m.links m.used_lists c pool.closed k u p (free-ne_u j p i)
            (NotIn-of p c (λ q i' h. used-ne m free c pool j q p i' i (sym h))));
    blocks = λ j p i. IsBlock-keep (pool.blocks j p i) refl refl refl;
    orders = λ j p i. rw (update_ne m.page u p v (free-ne_u j p i)) (pool.orders j p i);
    apart = pool.apart;
    closed = push_links-IsClosed m.links m.used_lists c pool.closed k u u-ne_null;
    used_apart = λ j p q i a. elim i [
      | inl h ↦ rw h (ground (arith, out.free_apart j q a, span-positive k))
      | inr i' ↦ pool.used_apart j p q i' a
    ];
  }
