-- ===== src/LinkedLists/Circular/Frame.antt =====
-- What the operations of the circular lists leave alone: every element of another list.
use atros.Base.{◌≡◌, ◌≢◌, refl, List, [], ◌∷◌, NotIn, In, arith, inl, inr}
use atros.LinkedLists.Links.{Links, Ptr, update}
use atros.LinkedLists.Circular.Walk.{Walk, IsClist, prev-ne, prev-ne_inner, next-ne_inner}
use atros.LinkedLists.Circular.Push.{after_push}
use atros.LinkedLists.Circular.Cut.{after_delete}

-- Both links of `p` are as they were.
abbrev pub Same : Links → Links → Ptr → Type 0
Same l l' p = (l'.next p ≡ l.next p) × (l'.prev p ≡ l.prev p)

Walk-frame :
    (l l' : Links) (a : Ptr) (xs : List Ptr) (b : Ptr)
    → Walk l a xs b
    → Same l l' a
    → Same l l' b
    → ((p : Ptr) → In p xs → Same l l' p)
    → Walk l' a xs b
Walk-frame l l' a [] b w sa sb s = ground arith
Walk-frame l l' a (x ∷ xs) b w sa sb s = (
  ground (arith, s x (inl refl)),
  Walk-frame l l' x xs b w.1 (s x (inl refl)) sb (λ p i. s p (inr i)),
)

pub IsClist-frame :
    (l l' : Links) (list : Ptr) (xs : List Ptr)
    → IsClist l list xs
    → ((p : Ptr) → In p xs → Same l l' p)
    → IsClist l' list xs
IsClist-frame l l' list [] is s = is
IsClist-frame l l' list (x ∷ xs) is s = (
  is.0,
  Walk-frame l l' x xs x is.1 (s x (inl refl)) (s x (inl refl)) (λ p i. s p (inr i)),
  is.2,
  is.3,
)

pub after_push-Same :
    (l : Links) (list : Ptr) (xs : List Ptr) (el p : Ptr)
    → IsClist l list xs
    → p ≢ el
    → NotIn p xs
    → Same l (after_push l xs el) p
unfolding update
after_push-Same l list [] el p is ne n = ground arith
after_push-Same l list (x ∷ xs) el p is ne n = ground (arith, prev-ne l x xs x p is.1 n)

pub after_delete-Same :
    (l : Links) (list : Ptr) (xs : List Ptr) (el p : Ptr)
    → IsClist l list xs
    → In el xs
    → NotIn p xs
    → Same l (after_delete l xs el) p
unfolding update
after_delete-Same l list [] el p is i n = elim i [ ]
after_delete-Same l list (x ∷ []) el p is i n = ground arith
after_delete-Same l list (x ∷ y ∷ ys) el p is i n = ground (
  arith,
  prev-ne l x (y ∷ ys) x p is.1 n,
  prev-ne_inner l x (y ∷ ys) x el p is.1,
  next-ne_inner l x (y ∷ ys) x el p is.1,
)
