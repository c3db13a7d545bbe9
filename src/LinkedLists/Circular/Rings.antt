-- ===== src/LinkedLists/Circular/Rings.antt =====
-- What clist_push_tail, clist_delete_el and clist_pop_head of src/include/kernel/list.h do to the
-- list that a ring of elements stands for.
use atros.Base.{◌≡◌, ◌≢◌, List, [], ◌∷◌, ◌++◌, NotIn, In, erase, ok, inl, ==_refl, refl, subst}
use atros.LinkedLists.Links.{Links, Ptr, null}
use atros.LinkedLists.Circular.{clist_push_tail, clist_delete_el}
use atros.LinkedLists.Circular.Walk.{IsClist}
use atros.LinkedLists.Circular.Push.{after_push, head_or, clist_push_tail-ok, after_push-IsClist}
use atros.LinkedLists.Circular.Cut.{after_delete, head_of, after_delete-IsClist}
use atros.LinkedLists.Circular.Delete.{clist_delete_el-ok}
use atros.LinkedLists.Circular.Frame.{Same, after_push-Same, after_delete-Same}

-- clist_push_tail of an element that is not NULL and not in the list never faults, makes the list
-- end with the element, and leaves the links of all elements outside both as they were.
pub clist_push_tail-append :
    (l : Links) (list : Ptr) (xs : List Ptr) (el : Ptr)
    → IsClist l list xs
    → el ≢ null
    → NotIn el xs
    → (list' : Ptr) × (l' : Links) × (clist_push_tail list el l ≡ ok (list', l'))
      × IsClist l' list' (xs ++ el ∷ [])
      × ((p : Ptr) → p ≢ el → NotIn p xs → Same l l' p)
clist_push_tail-append l list xs el is ne n = (
  head_or xs el,
  after_push l xs el,
  clist_push_tail-ok l list xs el is ne n,
  after_push-IsClist l list xs el is ne n,
  λ p ne' n'. after_push-Same l list xs el p is ne' n',
)

-- clist_delete_el of an element of the list never faults, takes exactly that element out of the
-- list, and leaves the links of all elements outside the list as they were.
pub clist_delete_el-erase :
    (l : Links) (list : Ptr) (xs : List Ptr) (el : Ptr)
    → IsClist l list xs
    → In el xs
    → (list' : Ptr) × (l' : Links) × (clist_delete_el list el l ≡ ok (list', l'))
      × IsClist l' list' (erase el xs)
      × ((p : Ptr) → NotIn p xs → Same l l' p)
clist_delete_el-erase l list xs el is i = (
  head_of (erase el xs),
  after_delete l xs el,
  clist_delete_el-ok l list xs el is i,
  after_delete-IsClist l list xs el is i,
  λ p n. after_delete-Same l list xs el p is i n,
)

-- After clist_pop_head the ring holds the elements behind the popped one.
pub after_pop-IsClist :
    (l : Links) (list x : Ptr) (xs : List Ptr)
    → IsClist l list (x ∷ xs)
    → IsClist (after_delete l (x ∷ xs) x) (head_of xs) xs
after_pop-IsClist l list x xs is =
    let e : erase x (x ∷ xs) ≡ xs = rw (==_refl x) in
    subst (λ ys. IsClist (after_delete l (x ∷ xs) x) (head_of ys) ys) e
      (after_delete-IsClist l list (x ∷ xs) x is (inl refl))
