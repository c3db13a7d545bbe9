-- ===== src/PhysicalPages/Steps.antt =====
-- What the small operations on the block lists do, where the free lists are rings and the used
-- lists only ever lead to used descriptors.
use atros.Base.{
  ℕ, ◌≡◌, ◌≢◌, refl, ap, List, ◌∷◌, NotIn, In, ne_of_In, arith, ok, ◌==◌, ne→==, ◌⊎◌, inl, inr,
  if◌then◌else◌,
}
use atros.LinkedLists.Links.{Links, Ptr, null, update, update_eq, update-update}
use atros.LinkedLists.Circular.{clist_push_tail}
use atros.LinkedLists.Circular.Walk.{IsClist}
use atros.LinkedLists.Circular.Push.{
  closed, pushed, after_push, head_or, clist_push_tail-ok, push_nil, push_tail-ok,
}
use atros.LinkedLists.Circular.Cut.{after_delete, head_of}
use atros.LinkedLists.Circular.Frame.{Same}
use atros.LinkedLists.Circular.Delete.{clist_pop_head-ok}
use atros.PhysicalPages.State.{Ppage, Memory, on_links, edit, push_free, push_used, pop_free}

module _ (m : Memory) where
  pub edit-ok :
      (p : Ptr) (f : Ppage → Ppage)
      → p ≢ null
      → edit p f m ≡ ok (tt, record m { page = update m.page p (f (m.page p)) })
  unfolding edit
  edit-ok p f ne = rw (ne→== p null ne)

  -- A second edit of a descriptor.
  pub edit-edit :
      (p : Ptr) (v : Ppage) (f : Ppage → Ppage)
      → p ≢ null
      → edit p f (record m { page = update m.page p v })
        ≡ ok (tt, record m { page = update m.page p (f v) })
  unfolding edit
  edit-edit p v f ne =
      rw (ne→== p null ne, update_eq m.page p p v refl)
        (ap (λ g. ok (tt, record m { page = g })) (update-update m.page p v (f v)))

  pub push_free-ok :
      (k : ℕ) (xs : List Ptr) (el : Ptr)
      → IsClist m.links (m.free_lists k) xs
      → el ≢ null
      → NotIn el xs
      → push_free k el m
        ≡ ok (
          tt,
          record m {
            links = after_push m.links xs el;
            free_lists = update m.free_lists k (head_or xs el);
          },
        )
  unfolding push_free on_links
  push_free-ok k xs el is ne n = rw (clist_push_tail-ok m.links (m.free_lists k) xs el is ne n)

  pub pop_free-ok :
      (k : ℕ) (x : Ptr) (xs : List Ptr)
      → IsClist m.links (m.free_lists k) (x ∷ xs)
      → pop_free k m
        ≡ ok (
          x,
          record m {
            links = after_delete m.links (x ∷ xs) x;
            free_lists = update m.free_lists k (head_of xs);
          },
        )
  unfolding pop_free on_links
  pop_free-ok k x xs is = rw (clist_pop_head-ok m.links (m.free_lists k) x xs is)

-- A set of descriptors that the used lists cannot leave, however their rings are linked.
pub record IsClosed (l : Links) (used_lists : ℕ → Ptr) (c : List Ptr) : Type 0 where
  pub head : (k : ℕ) → (used_lists k ≡ null) ⊎ In (used_lists k) c
  pub back : (p : Ptr) → In p c → In (l.prev p) c
  pub ne_null : (p : Ptr) → In p c → p ≢ null

abbrev pub push_links : Links → Ptr → Ptr → Links
push_links l list el = if list == null then closed l el else pushed l list el

abbrev pub push_head : Ptr → Ptr → Ptr
push_head list el = if list == null then el else list

module _ (l : Links) (u : ℕ → Ptr) (c : List Ptr) (is : IsClosed l u c) (k : ℕ) (el : Ptr) where
  push_used_links :
      el ≢ null → clist_push_tail (u k) el l ≡ ok (push_head (u k) el, push_links l (u k) el)
  push_used_links ne = elim (is.head k) [
    | inl e ↦ rw e (push_nil l el ne)
    | inr i ↦
        let nx : u k ≢ null = is.ne_null (u k) i in
        rw (ne→== (u k) null nx)
          (push_tail-ok l (u k) el nx ne (is.ne_null (l.prev (u k)) (is.back (u k) i)))
  ]

  pub push_links-IsClosed :
      el ≢ null → IsClosed (push_links l (u k) el) (update u k (push_head (u k) el)) (el ∷ c)
  unfolding update
  push_links-IsClosed ne = record {
    head = λ j. ground (arith, is.head j, is.head k);
    back = λ p i. ground (arith, is.head k, is.back p, is.back (u k));
    ne_null = λ p i. ground (arith, is.ne_null p);
  }

  pub push_links-Same : (p : Ptr) → p ≢ el → NotIn p c → Same l (push_links l (u k) el) p
  unfolding update
  push_links-Same p ne n =
      ground (arith, is.head k, is.back (u k), ne_of_In (u k) p c, ne_of_In (l.prev (u k)) p c)

pub push_used-ok :
    (m : Memory) (c : List Ptr) (k : ℕ) (el : Ptr)
    → IsClosed m.links m.used_lists c
    → el ≢ null
    → push_used k el m
      ≡ ok (
        tt,
        record m {
          links = push_links m.links (m.used_lists k) el;
          used_lists = update m.used_lists k (push_head (m.used_lists k) el);
        },
      )
unfolding push_used on_links
push_used-ok m c k el is ne = rw (push_used_links m.links m.used_lists c is k el ne)
