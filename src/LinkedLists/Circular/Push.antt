-- ===== src/LinkedLists/Circular/Push.antt =====
-- clist_push_tail and clist_push_head on rings that represent lists.
use atros.Base.{
  ◌≡◌, ◌≢◌, refl, List, [], ◌∷◌, ◌++◌, NotIn, Distinct, NotIn-snoc, Distinct-snoc, arith, ok, ne→==,
  sym,
}
use atros.LinkedLists.Links.{
  Links, Ptr, null, update, with_next, with_prev, get_prev-ok, set_next-ok, set_prev-ok,
}
use atros.LinkedLists.Circular.{clist_push_tail}
use atros.LinkedLists.Circular.Walk.{Walk, IsClist, prev-ne}

-- The links after `el` has been put between the end `b` of a segment and the element before it.
abbrev pub pushed : Links → Ptr → Ptr → Links
pushed l b el =
    with_prev (with_next (with_prev (with_next l el b) el (l.prev b)) (l.prev b) el) b el

abbrev pub closed : Links → Ptr → Links
closed l el = with_prev (with_next l el el) el el

Walk-pushed :
    (l : Links) (a : Ptr) (xs : List Ptr) (b el : Ptr)
    → Walk l a xs b
    → Distinct (a ∷ xs)
    → NotIn b xs
    → NotIn el (a ∷ xs)
    → el ≢ b
    → Walk (pushed l b el) a (xs ++ el ∷ []) b
unfolding update
Walk-pushed l a [] b el w d nb n ne = ground arith
Walk-pushed l a (x ∷ xs) b el w d nb n ne =
    (ground (arith, prev-ne l x xs b a w.1 d.0), Walk-pushed l x xs b el w.1 d.1 nb.1 n.1 ne)

pub push_tail-ok :
    (l : Links) (x el : Ptr)
    → x ≢ null
    → el ≢ null
    → l.prev x ≢ null
    → clist_push_tail x el l ≡ ok (x, pushed l x el)
unfolding clist_push_tail update
push_tail-ok l x el nx nel np =
    let l1 = with_next l el x in
    let l2 = with_prev l1 el (l.prev x) in
    let same : update l.prev el (l.prev x) x ≡ l.prev x = ground arith in
    rw (
      ne→== x null nx,
      set_next-ok el nel l x,
      get_prev-ok x nx l1,
      set_prev-ok el nel l1 (l.prev x),
      get_prev-ok x nx l2,
      same,
      set_next-ok (l.prev x) np l2 el,
      set_prev-ok x nx (with_next l2 (l.prev x) el) el,
    )

pub push_nil : (l : Links) (el : Ptr) → el ≢ null → clist_push_tail null el l ≡ ok (el, closed l el)
unfolding clist_push_tail
push_nil l el ne = rw (set_next-ok el ne l el, set_prev-ok el ne (with_next l el el) el)

closed-IsClist : (l : Links) (el : Ptr) → el ≢ null → IsClist (closed l el) el (el ∷ [])
unfolding update
closed-IsClist l el ne = ground arith

abbrev pub after_push : Links → List Ptr → Ptr → Links
after_push l [] el = closed l el
after_push l (x ∷ xs) el = pushed l x el

abbrev pub head_or : List Ptr → Ptr → Ptr
head_or [] el = el
head_or (x ∷ xs) el = x

pub clist_push_tail-ok :
    (l : Links) (list : Ptr) (xs : List Ptr) (el : Ptr)
    → IsClist l list xs
    → el ≢ null
    → NotIn el xs
    → clist_push_tail list el l ≡ ok (head_or xs el, after_push l xs el)
clist_push_tail-ok l list [] el is ne n = rw is (push_nil l el ne)
clist_push_tail-ok l list (x ∷ xs) el is ne n =
    rw is.0 (push_tail-ok l x el (λ e. is.2.0 (sym e)) ne (prev-ne l x xs x null is.1 is.2))

pub after_push-IsClist :
    (l : Links) (list : Ptr) (xs : List Ptr) (el : Ptr)
    → IsClist l list xs
    → el ≢ null
    → NotIn el xs
    → IsClist (after_push l xs el) (head_or xs el) (xs ++ el ∷ [])
after_push-IsClist l list [] el is ne n = closed-IsClist l el ne
after_push-IsClist l list (x ∷ xs) el is ne n = (
  refl,
  Walk-pushed l x xs x el is.1 is.3 is.3.0 n n.0,
  NotIn-snoc null (x ∷ xs) el is.2 (λ e. ne (sym e)),
  Distinct-snoc (x ∷ xs) el is.3 n,
)
