-- ===== src/PhysicalPages/Pool/Take.antt =====
-- A block taken from the list of its own order (take_block).
use atros.Base.{
  ℕ, ◌<◌, ◌≡◌, ◌≢◌, refl, sym, subst, List, ◌∷◌, NotIn, In, ne_of_In, arith, ok, inl, inr, eq_or_ne,
  pow-positive,
}
use atros.LinkedLists.Links.{Links, Ptr, null, update, update_eq, update_ne}
use atros.LinkedLists.Circular.Walk.{IsClist}
use atros.LinkedLists.Circular.Cut.{after_delete, head_of}
use atros.LinkedLists.Circular.Frame.{Same, IsClist-frame, after_delete-Same}
use atros.LinkedLists.Circular.Rings.{after_pop-IsClist}
use atros.PhysicalPages.State.{Memory, ppage_set_used}
use atros.PhysicalPages.Blocks.{take_block}
use atros.PhysicalPages.Steps.{
  IsClosed, push_links, push_head, push_links-IsClosed, push_links-Same, push_used-ok, pop_free-ok,
  edit-ok,
}
use atros.PhysicalPages.Pool.{span, IsBlock, IsPool, IsTaken, NotIn-of}

pub IsClosed-frame :
    (l l' : Links) (u : ℕ → Ptr) (c : List Ptr)
    → IsClosed l u c
    → ((p : Ptr) → In p c → Same l l' p)
    → IsClosed l' u c
IsClosed-frame l l' u c is s = record {
  head = is.head;
  back = λ p i. subst (λ q. In q c) (sym (s p i).1) (is.back p i);
  ne_null = is.ne_null;
}

-- A block stays one as long as the bounds and the array do.
pub IsBlock-keep :
    {m m' : Memory} {p : Ptr} {k : ℕ}
    → IsBlock m p k
    → m'.ppages_dscrs ≡ m.ppages_dscrs
    → m'.first_ppn ≡ m.first_ppn
    → m'.last_ppn ≡ m.last_ppn
    → IsBlock m' p k
IsBlock-keep b d f l = record {
  index = b.index;
  place = ground arith;
  above = ground arith;
  below = ground arith;
}

pub span-positive : (k : ℕ) → 0 < span k
span-positive k = omega (arith, pow-positive k)

module _ (m : Memory) (free : ℕ → List Ptr) (c : List Ptr) (pool : IsPool m free c) where
  -- Free blocks of different orders are different, and no used descriptor is a free block.
  pub free-ne : (j k : ℕ) (p q : Ptr) → In p (free j) → In q (free k) → j ≢ k → p ≢ q
  free-ne j k p q i i' ne =
      ground (arith, pool.apart j k p q i i', span-positive j, span-positive k)

  pub used-ne : (k : ℕ) (p q : Ptr) → In p c → In q (free k) → p ≢ q
  used-ne k p q i i' = ground (arith, pool.used_apart k p q i i', span-positive k)

module _ (m : Memory) (free : ℕ → List Ptr) (c : List Ptr) (pool : IsPool m free c) (k : ℕ)
    (x : Ptr) (xs : List Ptr) (e : free k ≡ x ∷ xs) where
  abbrev popped : Links
  popped = after_delete m.links (x ∷ xs) x

  abbrev pub taken : Memory
  taken = record m {
    links = push_links popped (m.used_lists k) x;
    free_lists = update m.free_lists k (head_of xs);
    used_lists = update m.used_lists k (push_head (m.used_lists k) x);
    page = update m.page x (record (m.page x) { count = 1 });
  }

  ring : IsClist m.links (m.free_lists k) (x ∷ xs)
  ring = subst (IsClist m.links (m.free_lists k)) e (pool.rings k)

  was_free : (p : Ptr) → In p (x ∷ xs) → In p (free k)
  was_free p = subst (In p) (sym e)

  x-ne_null : x ≢ null
  x-ne_null h = ring.2.0 (sym h)

  popped-Same : (p : Ptr) → NotIn p (x ∷ xs) → Same m.links popped p
  popped-Same p n = after_delete-Same m.links (m.free_lists k) (x ∷ xs) x p ring (inl refl) n

  used-NotIn : (p : Ptr) → In p c → NotIn p (x ∷ xs)
  used-NotIn p i = NotIn-of p (x ∷ xs) (λ q j. used-ne m free c pool k p q i (was_free q j))

  popped-IsClosed : IsClosed popped m.used_lists c
  popped-IsClosed =
      IsClosed-frame m.links popped m.used_lists c pool.closed
        (λ p i. popped-Same p (used-NotIn p i))

  pub take_block-ok : take_block k m ≡ ok (x, taken)
  unfolding take_block ppage_set_used
  take_block-ok =
      let m1 : Memory = record m {
        links = popped;
        free_lists = update m.free_lists k (head_of xs);
      } in
      rw (
        pop_free-ok m k x xs ring,
        push_used-ok m1 c k x popped-IsClosed x-ne_null,
        edit-ok
            (record m1 {
              links = push_links popped (m.used_lists k) x;
              used_lists = update m.used_lists k (push_head (m.used_lists k) x);
            })
            x (λ d. record d { count = 1 }) x-ne_null,
      )

  -- A free block other than the one that was taken.
  free_NotIn : (j : ℕ) (p : Ptr) → In p (free j) → NotIn p c
  free_NotIn j p i = NotIn-of p c (λ q i' h. used-ne m free c pool j q p i' i (sym h))

  pushed-Same : (p : Ptr) → p ≢ x → NotIn p c → Same popped taken.links p
  pushed-Same p ne n = push_links-Same popped m.used_lists c popped-IsClosed k x p ne n

  taken-ring_same : IsClist taken.links (head_of xs) xs
  taken-ring_same =
      IsClist-frame popped taken.links (head_of xs) xs
        (after_pop-IsClist m.links (m.free_lists k) x xs ring)
        (λ p i. pushed-Same p (ne_of_In p x xs i ring.3.0) (free_NotIn k p (was_free p (inr i))))

  taken-ring_other : (j : ℕ) → j ≢ k → IsClist taken.links (m.free_lists j) (free j)
  taken-ring_other j ne =
      IsClist-frame popped taken.links (m.free_lists j) (free j)
        (IsClist-frame m.links popped (m.free_lists j) (free j) (pool.rings j)
          (λ p i. popped-Same p (NotIn-of p (x ∷ xs) (λ q i'. other p q i i'))))
        (λ p i. pushed-Same p (other p x i (inl refl)) (free_NotIn j p i))
    where
      other : (p q : Ptr) → In p (free j) → In q (x ∷ xs) → p ≢ q
      other p q i i' = free-ne m free c pool j k p q i (was_free q i') ne

  taken-rings : (j : ℕ) → IsClist taken.links (taken.free_lists j) (update free k xs j)
  taken-rings j = elim (eq_or_ne j k) [
    | inl h ↦
        rw (update_eq m.free_lists k j (head_of xs) h, update_eq free k j xs h) taken-ring_same
    | inr ne ↦
        rw (update_ne m.free_lists k j (head_of xs) ne, update_ne free k j xs ne)
          (taken-ring_other j ne)
  ]

  -- What is left free was free, and is not the block taken.
  left_free : (j : ℕ) (p : Ptr) → In p (update free k xs j) → In p (free j) × (p ≢ x)
  left_free j p i = elim (eq_or_ne j k) [
    | inl h ↦
        let i' : In p xs = subst (In p) (update_eq free k j xs h) i in
        (subst (λ t. In p (free t)) (sym h) (was_free p (inr i')), ne_of_In p x xs i' ring.3.0)
    | inr ne ↦
        let i' : In p (free j) = subst (In p) (update_ne free k j xs ne) i in
        (i', free-ne m free c pool j k p x i' (was_free x (inl refl)) ne)
  ]

  taken-page : (p : Ptr) → p ≢ x → taken.page p ≡ m.page p
  taken-page p ne = update_ne m.page x p (record (m.page x) { count = 1 }) ne

  taken-page_self : taken.page x ≡ record (m.page x) { count = 1 }
  taken-page_self = update_eq m.page x x (record (m.page x) { count = 1 }) refl

  x-free : In x (free k)
  x-free = was_free x (inl refl)

  pub taken-IsPool : IsPool taken (update free k xs) (x ∷ c)
  taken-IsPool = record {
    array = record { base = pool.array.base; fits = pool.array.fits };
    rings = taken-rings;
    blocks = λ j p i. IsBlock-keep (pool.blocks j p (left_free j p i).0) refl refl refl;
    orders = λ j p i. rw (taken-page p (left_free j p i).1) (pool.orders j p (left_free j p i).0);
    apart = λ i j p q a b. pool.apart i j p q (left_free i p a).0 (left_free j q b).0;
    closed = push_links-IsClosed popped m.used_lists c popped-IsClosed k x x-ne_null;
    used_apart = λ j p q a b. elim a [
      | inl h ↦ ground (
        arith,
        pool.apart k j x q x-free (left_free j q b).0,
        (left_free j q b).1,
        span-positive k,
      )
      | inr i ↦ pool.used_apart j p q i (left_free j q b).0
    ];
  }

  pub taken-IsTaken : IsTaken taken (update free k xs) (x ∷ c) x k
  taken-IsTaken = record {
    block = IsBlock-keep (pool.blocks k x x-free) refl refl refl;
    level = rw taken-page_self ((pool.orders k x x-free).0);
    used = rw taken-page_self;
    listed = inl refl;
    free_apart =
        λ j q i. ground (arith, pool.apart k j x q x-free (left_free j q i).0, (left_free j q i).1);
    lone = λ q i. elim i [ inl h ↦ inl h | inr i' ↦ inr (pool.used_apart k q x i' x-free) ];
  }
