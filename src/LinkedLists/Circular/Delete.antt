-- ===== src/LinkedLists/Circular/Delete.antt =====
-- clist_delete_el and clist_pop_head on rings that represent lists.
use atros.Base.{
  ◌≡◌, ◌≢◌, refl, List, [], ◌∷◌, NotIn, In, ne_of_In, erase, arith, ok, ◌==◌, ne→==, ==_refl, sym,
  ap, subst, ◌∙◌, if◌then◌else◌, false, inl, inr, Bool-cases, ==_iff,
}
use atros.LinkedLists.Links.{
  Links, Ptr, null, update, with_next, with_prev, get_prev-ok, get_next-ok, set_next-ok,
  set_prev-ok,
}
use atros.LinkedLists.Circular.{
  clist_is_singleton, clear_element, clist_delete_el, clist_pop_head, unlink,
}
use atros.LinkedLists.Circular.Cut.{cut, cleared, after_delete, head_of}
use atros.LinkedLists.Circular.Walk.{Walk, IsClist, prev-ne, prev-ne_inner, next-ne_inner}

head_next :
    (l : Links) (list el : Ptr) → list ≡ el → update l.next (l.prev el) (l.next el) list ≡ l.next el
unfolding update
head_next l list el e = ground arith

unlink-ok :
    (l : Links) (list el : Ptr)
    → el ≢ null
    → l.prev el ≢ null
    → l.next el ≢ null
    → unlink list el l ≡ ok (if list == el then l.next el else list, cut l el)
unfolding unlink update
unlink-ok l list el ne np nn =
    let n = l.next el in
    let p = l.prev el in
    let l1 = with_next l p n in
    let same : update l.next p n el ≡ n = ground arith in
    rw
      (
        get_prev-ok el ne l,
        get_next-ok el ne l,
        set_next-ok p np l n,
        get_next-ok el ne l1,
        same,
        get_prev-ok el ne l1,
        set_prev-ok n nn l1 p,
      )
      (elim (Bool-cases (list == el)) [
        | inl e ↦
            rw
              (
                e,
                get_next-ok list (subst (λ q. q ≢ null) (sym ((==_iff list el).0 e)) ne) (cut l el),
              )
              (ap (λ q. ok (q, cut l el)) (head_next l list el ((==_iff list el).0 e)))
        | inr e ↦ rw e
      ])

lone-ok :
    (l : Links) (x : Ptr)
    → x ≢ null
    → Walk l x [] x
    → clist_delete_el x x l ≡ ok (null, cleared l x)
unfolding clist_delete_el clist_is_singleton clear_element
lone-ok l x nx w = rw (
  get_prev-ok x nx l,
  w.1,
  ==_refl x,
  get_next-ok x nx l,
  w.0,
  ==_refl x,
  set_prev-ok x nx l null,
  set_next-ok x nx (with_prev l x null) null,
)

-- Every element of a ring and its neighbours are elements, so not NULL.
In-ne_null : (el : Ptr) (xs : List Ptr) → In el xs → NotIn null xs → el ≢ null
In-ne_null el xs i n = ne_of_In el null xs i n

prev-ne_null :
    (l : Links) (x : Ptr) (xs : List Ptr) (el : Ptr)
    → Walk l x xs x
    → NotIn null (x ∷ xs)
    → In el (x ∷ xs)
    → l.prev el ≢ null
prev-ne_null l x xs el w n i =
    ground (arith, prev-ne l x xs x null w n, prev-ne_inner l x xs x el null w)

next-ne_null :
    (l : Links) (x y : Ptr) (ys : List Ptr) (el : Ptr)
    → Walk l x (y ∷ ys) x
    → NotIn null (x ∷ y ∷ ys)
    → In el (x ∷ y ∷ ys)
    → l.next el ≢ null
next-ne_null l x y ys el w n i = ground (arith, next-ne_inner l x (y ∷ ys) x el null w)

several-ok :
    (l : Links) (x y : Ptr) (ys : List Ptr) (el : Ptr)
    → IsClist l x (x ∷ y ∷ ys)
    → In el (x ∷ y ∷ ys)
    → clist_delete_el x el l ≡ ok (head_of (erase el (x ∷ y ∷ ys)), cut l el)
unfolding clist_delete_el clist_is_singleton
several-ok l x y ys el is i =
    let nx : x ≢ null = λ e. is.2.0 (sym e) in
    let alone : (l.prev x == x) ≡ false = ne→== (l.prev x) x (prev-ne l y ys x x is.1.1 is.3.0) in
    rw
      (
        get_prev-ok x nx l,
        alone,
        unlink-ok l x el (In-ne_null el (x ∷ y ∷ ys) i is.2)
            (prev-ne_null l x (y ∷ ys) el is.1 is.2 i) (next-ne_null l x y ys el is.1 is.2 i),
      )
      (elim (Bool-cases (x == el)) [
        | inl hit ↦
            rw hit (ap (λ q. ok (q, cut l el)) (ap l.next (sym ((==_iff x el).0 hit)) ∙ is.1.0.0))
        | inr miss ↦ rw miss
      ])

pub clist_delete_el-ok :
    (l : Links) (list : Ptr) (xs : List Ptr) (el : Ptr)
    → IsClist l list xs
    → In el xs
    → clist_delete_el list el l ≡ ok (head_of (erase el xs), after_delete l xs el)
clist_delete_el-ok l list [] el is i = elim i [ ]
clist_delete_el-ok l list (x ∷ []) el is i =
    let same : el ≡ x = ground arith in
    rw (is.0, same, ==_refl x) (lone-ok l x (λ e. is.2.0 (sym e)) is.1)
clist_delete_el-ok l list (x ∷ y ∷ ys) el is i =
    rw is.0 (several-ok l x y ys el (refl, is.1, is.2, is.3) i)

-- Popping takes the first element.
pub clist_pop_head-ok :
    (l : Links) (list x : Ptr) (xs : List Ptr)
    → IsClist l list (x ∷ xs)
    → clist_pop_head list l ≡ ok ((x, head_of xs), after_delete l (x ∷ xs) x)
unfolding clist_pop_head
clist_pop_head-ok l list x xs is =
    rw (is.0, clist_delete_el-ok l x (x ∷ xs) x (refl, is.1, is.2, is.3) (inl refl), ==_refl x)
