-- ===== src/LinkedLists/Circular/Walk.antt =====
-- Segments of a ring: from one element along `next` to another, `prev` leading back.
use atros.Base.{◌≡◌, ◌≢◌, List, [], ◌∷◌, NotIn, In, Distinct, arith}
use atros.LinkedLists.Links.{Links, Ptr, null, update, with_next, with_prev}

abbrev pub Linked : Links → Ptr → Ptr → Type 0
Linked l a b = (l.next a ≡ b) × (l.prev b ≡ a)

-- `xs` are the elements strictly between `a` and `b`.
abbrev pub Walk : Links → Ptr → List Ptr → Ptr → Type 0
Walk l a [] b = Linked l a b
Walk l a (x ∷ xs) b = Linked l a x × Walk l x xs b

-- `list` is NULL, or the first element of the ring.
abbrev pub IsClist : Links → Ptr → List Ptr → Type 0
IsClist l list [] = list ≡ null
IsClist l list (x ∷ xs) = (list ≡ x) × Walk l x xs x × NotIn null (x ∷ xs) × Distinct (x ∷ xs)

pub Walk-with_next :
    (l : Links) (a : Ptr) (xs : List Ptr) (b p v : Ptr)
    → Walk l a xs b
    → NotIn p (a ∷ xs)
    → Walk (with_next l p v) a xs b
unfolding update
Walk-with_next l a [] b p v w n = ground arith
Walk-with_next l a (x ∷ xs) b p v w n = (ground arith, Walk-with_next l x xs b p v w.1 n.1)

pub Walk-with_prev :
    (l : Links) (a : Ptr) (xs : List Ptr) (b p v : Ptr)
    → Walk l a xs b
    → NotIn p xs
    → p ≢ b
    → Walk (with_prev l p v) a xs b
unfolding update
Walk-with_prev l a [] b p v w n ne = ground arith
Walk-with_prev l a (x ∷ xs) b p v w n ne = (ground arith, Walk-with_prev l x xs b p v w.1 n.1 ne)

-- The element before the end is not one that the segment leaves out.
pub prev-ne :
    (l : Links) (a : Ptr) (xs : List Ptr) (b c : Ptr)
    → Walk l a xs b
    → NotIn c (a ∷ xs)
    → l.prev b ≢ c
prev-ne l a [] b c w n = ground arith
prev-ne l a (x ∷ xs) b c w n = prev-ne l x xs b c w.1 n.1

-- An inner element's neighbours lie on the segment.
pub prev-ne_inner :
    (l : Links) (a : Ptr) (xs : List Ptr) (b e c : Ptr)
    → Walk l a xs b
    → In e xs
    → NotIn c (a ∷ xs)
    → l.prev e ≢ c
prev-ne_inner l a [] b e c w i n = elim i [ ]
prev-ne_inner l a (x ∷ xs) b e c w i n = ground (arith, prev-ne_inner l x xs b e c w.1)

pub next-ne_inner :
    (l : Links) (a : Ptr) (xs : List Ptr) (b e c : Ptr)
    → Walk l a xs b
    → In e xs
    → NotIn c xs
    → c ≢ b
    → l.next e ≢ c
next-ne_inner l a [] b e c w i n ne = elim i [ ]
next-ne_inner l a (x ∷ []) b e c w i n ne = ground arith
next-ne_inner l a (x ∷ y ∷ xs) b e c w i n ne = ground (arith, next-ne_inner l x (y ∷ xs) b e c w.1)
