-- ===== src/LinkedLists/Simple/Ordered.antt =====
-- list_insert_ordered of src/include/kernel/list.h on chains.
use atros.Base.{
  ℕ, zero, suc, ◌<◌, ◌≡◌, ◌≢◌, refl, List, [], ◌∷◌, ◌++◌, NotIn, Distinct, arith, ok, panic, ne→==,
  false, length,
}
use atros.LinkedLists.Links.{Ptr, null}
use atros.LinkedLists.Simple.{
  Nexts, Compare, Sign, plus, is_plus, compare_els, ordered_prev, list_insert_ordered,
  list_insert_after,
}
use atros.LinkedLists.Simple.Chain.{IsChain, last_of}
use atros.LinkedLists.Simple.Relink.{Makes, follow-ok, list_insert_after-inserts}

-- The element comes behind all of these.
abbrev pub IsBehind : Compare → Ptr → List Ptr → Type 0
IsBehind cmp el [] = Unit {0}
IsBehind cmp el (x ∷ xs) = (cmp el x ≡ ok plus) × IsBehind cmp el xs

-- The search of list_insert_ordered stops in front of `rest`: at its first element the comparison
-- is not above 0; if there is none, the list must be empty.
abbrev pub IsPlace : Compare → Ptr → List Ptr → List Ptr → Type 0
IsPlace cmp el pre [] = length pre ≡ 0
IsPlace cmp el pre (y ∷ ys) = (c : Sign) × (cmp el y ≡ ok c) × (is_plus c ≡ false)

ordered_prev-ok :
    (fuel : ℕ) (cmp : Compare) (l : Nexts) (el prev current : Ptr) (pre : List Ptr) (y : Ptr)
    (ys : List Ptr)
    → IsChain l current (pre ++ y ∷ ys)
    → IsBehind cmp el pre
    → IsPlace cmp el pre (y ∷ ys)
    → length pre < fuel
    → ordered_prev fuel cmp el prev current l ≡ ok (last_of prev pre, l)
unfolding ordered_prev compare_els
ordered_prev-ok zero cmp l el prev current pre y ys h b p enough = absurd (omega arith)
ordered_prev-ok (suc fuel) cmp l el prev current [] y ys (e, ne, h) b (c, ec, ep) enough =
    rw (e, ec, ep) refl
ordered_prev-ok (suc fuel) cmp l el prev current (x ∷ xs) y ys (e, ne, h) (ex, b) p enough =
    rw (e, ex, follow-ok x l ne) (ordered_prev-ok fuel cmp l el x (l x) xs y ys h b p (omega arith))

-- On a chain of distinct elements, with fuel above the number of elements that the new one comes
-- behind, list_insert_ordered puts an element that is not NULL and not in the chain behind those
-- and in front of the first at which the comparison is not above 0, which must exist unless the
-- chain is empty, and leaves the links of all others.
pub list_insert_ordered-inserts :
    (fuel : ℕ) (cmp : Compare) (l : Nexts) (list : Ptr) (pre : List Ptr) (el : Ptr)
    (rest : List Ptr)
    → IsChain l list (pre ++ rest)
    → Distinct (pre ++ rest)
    → NotIn el (pre ++ rest)
    → el ≢ null
    → IsBehind cmp el pre
    → IsPlace cmp el pre rest
    → length pre < fuel
    → Makes l (el ∷ pre ++ rest) (pre ++ el ∷ rest) (list_insert_ordered fuel cmp list el l)
unfolding list_insert_ordered list_insert_after compare_els
list_insert_ordered-inserts fuel cmp l list [] el [] h d n ne b p enough =
    rw h (list_insert_after-inserts l null [] el [] refl d n ne)
list_insert_ordered-inserts fuel cmp l list [] el (y ∷ ys) (e, ne', h) d n ne b (c, ec, ep) enough =
    rw (e, ne→== y null ne', ec, ep)
      (list_insert_after-inserts l y [] el (y ∷ ys) (refl, ne', h) d n ne)
list_insert_ordered-inserts fuel cmp l list (x ∷ xs) el [] h d n ne b p enough =
    absurd (omega (arith, p))
list_insert_ordered-inserts fuel cmp l list (x ∷ xs) el (y ∷ ys) (e, ne', h) d n ne b p enough =
    rw
      (
        e,
        ne→== x null ne',
        b.0,
        ordered_prev-ok fuel cmp l el null x (x ∷ xs) y ys (refl, ne', h) b p enough,
      )
      (list_insert_after-inserts l x (x ∷ xs) el (y ∷ ys) (refl, ne', h) d n ne)

ordered_prev-end :
    (fuel : ℕ) (cmp : Compare) (l : Nexts) (el prev current : Ptr) (xs : List Ptr)
    → IsChain l current xs
    → IsBehind cmp el xs
    → cmp el null ≡ panic
    → length xs < fuel
    → ordered_prev fuel cmp el prev current l ≡ panic
unfolding ordered_prev compare_els
ordered_prev-end zero cmp l el prev current xs h b p enough = absurd (omega arith)
ordered_prev-end (suc fuel) cmp l el prev current [] h b p enough = rw (h, p) refl
ordered_prev-end (suc fuel) cmp l el prev current (x ∷ xs) (e, ne, h) (ex, b) p enough =
    rw (e, ex, follow-ok x l ne) (ordered_prev-end fuel cmp l el x (l x) xs h b p (omega arith))

-- If the new element comes behind all of a chain that is not empty, list_insert_ordered compares
-- it with NULL, behind the end: with a comparison that asserts its arguments, it panics.
pub list_insert_ordered-end :
    (fuel : ℕ) (cmp : Compare) (l : Nexts) (list el x : Ptr) (xs : List Ptr)
    → IsChain l list (x ∷ xs)
    → IsBehind cmp el (x ∷ xs)
    → cmp el null ≡ panic
    → length (x ∷ xs) < fuel
    → list_insert_ordered fuel cmp list el l ≡ panic
unfolding list_insert_ordered compare_els
list_insert_ordered-end fuel cmp l list el x xs (e, ne, h) b p enough =
    rw
      (
        e,
        ne→== x null ne,
        b.0,
        ordered_prev-end fuel cmp l el null x (x ∷ xs) (refl, ne, h) b p enough,
      )
      refl
