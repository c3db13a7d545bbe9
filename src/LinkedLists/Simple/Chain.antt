-- ===== src/LinkedLists/Simple/Chain.antt =====
-- A simple list of src/include/kernel/list.h as a chain of elements along `next`.
use atros.Base.{◌≡◌, ◌≢◌, refl, sym, List, [], ◌∷◌, ◌++◌, NotIn, In, Distinct, arith, inl, inr, ◌⊎◌}
use atros.LinkedLists.Links.{Ptr, null, update, update_eq, update_ne}
use atros.LinkedLists.Simple.{Nexts}

-- `list` is NULL, or the first element of a chain that ends in NULL.
abbrev pub IsChain : Nexts → Ptr → List Ptr → Type 0
IsChain l list [] = list ≡ null
IsChain l list (x ∷ xs) = (list ≡ x) × (x ≢ null) × IsChain l (l x) xs

-- The last element of a chain, or the one before it.
abbrev pub last_of : Ptr → List Ptr → Ptr
last_of p [] = p
last_of p (x ∷ xs) = last_of x xs

pub last_of-In : (x : Ptr) (xs : List Ptr) → In (last_of x xs) (x ∷ xs)
last_of-In x [] = inl refl
last_of-In x (y ∷ ys) = inr (last_of-In y ys)

pub NotIn-ne : (a b : Ptr) (xs : List Ptr) → NotIn a xs → In b xs → a ≢ b
NotIn-ne a b [] n i = absurd i
NotIn-ne a b (x ∷ xs) n i = ground (arith, NotIn-ne a b xs)

-- A write outside a chain leaves it.
pub IsChain-update :
    (l : Nexts) (list : Ptr) (xs : List Ptr) (p v : Ptr)
    → IsChain l list xs
    → NotIn p xs
    → IsChain (update l p v) list xs
IsChain-update l list [] p v h n = h
IsChain-update l list (x ∷ xs) p v (e, ne, h) (n, ns) =
    (e, ne, rw (update_ne l p x v (λ z. n (cc))) (IsChain-update l (l x) xs p v h ns))

-- The last element of a part is linked to another rest.
pub IsChain-splice :
    (l : Nexts) (x : Ptr) (xs rest rest' : List Ptr) (q : Ptr)
    → IsChain l x (x ∷ xs ++ rest)
    → Distinct (x ∷ xs)
    → IsChain (update l (last_of x xs) q) q rest'
    → IsChain (update l (last_of x xs) q) x (x ∷ xs ++ rest')
IsChain-splice l x [] rest rest' q (e, ne, h) d r = (refl, ne, rw (update_eq l x x q refl) r)
IsChain-splice l x (y ∷ ys) rest rest' q (e, ne, (e', ne', h)) (n, d) r =
    let apart : x ≢ last_of y ys = NotIn-ne x (last_of y ys) (y ∷ ys) n (last_of-In y ys) in
    let (_, ne', ih) = IsChain-splice l y ys rest rest' q (refl, ne', h) d r in
    (refl, ne, rw (update_ne l (last_of y ys) x q apart) (e', ne', ih))

-- The chain behind an element.
pub IsChain-rest :
    (l : Nexts) (list : Ptr) (xs : List Ptr) (y : Ptr) (ys : List Ptr)
    → IsChain l list (xs ++ y ∷ ys)
    → IsChain l (l y) ys
IsChain-rest l list [] y ys (e, ne, h) = h
IsChain-rest l list (x ∷ xs) y ys (e, ne, h) = IsChain-rest l (l x) xs y ys h

-- The chain behind the last element of a part.
pub IsChain-last :
    (l : Nexts) (x : Ptr) (xs ys : List Ptr)
    → IsChain l x (x ∷ xs ++ ys)
    → IsChain l (l (last_of x xs)) ys
IsChain-last l x [] ys (e, ne, h) = h
IsChain-last l x (y ∷ xs) ys (e, ne, (e', ne', h)) = IsChain-last l y xs ys (refl, ne', h)

pub IsChain-ne_null :
    (l : Nexts) (list : Ptr) (xs : List Ptr) (p : Ptr) → IsChain l list xs → In p xs → p ≢ null
IsChain-ne_null l list [] p h i = absurd i
IsChain-ne_null l list (x ∷ xs) p (e, ne, h) i = elim i [
  | inl e' ↦ rw e' ne
  | inr i' ↦ IsChain-ne_null l (l x) xs p h i'
]

pub NotIn-append : (a : Ptr) (xs ys : List Ptr) → NotIn a xs → NotIn a ys → NotIn a (xs ++ ys)
NotIn-append a [] ys n n' = n'
NotIn-append a (x ∷ xs) ys (h, n) n' = (h, NotIn-append a xs ys n n')

pub NotIn-left : (a : Ptr) (xs ys : List Ptr) → NotIn a (xs ++ ys) → NotIn a xs
NotIn-left a [] ys n = tt
NotIn-left a (x ∷ xs) ys (h, n) = (h, NotIn-left a xs ys n)

pub NotIn-right : (a : Ptr) (xs ys : List Ptr) → NotIn a (xs ++ ys) → NotIn a ys
NotIn-right a [] ys n = n
NotIn-right a (x ∷ xs) ys (h, n) = NotIn-right a xs ys n

pub Distinct-left : (xs ys : List Ptr) → Distinct (xs ++ ys) → Distinct xs
Distinct-left [] ys d = tt
Distinct-left (x ∷ xs) ys (n, d) = (NotIn-left x xs ys n, Distinct-left xs ys d)

pub Distinct-apart : (a : Ptr) (xs ys : List Ptr) → Distinct (xs ++ ys) → In a xs → NotIn a ys
Distinct-apart a [] ys d i = absurd i
Distinct-apart a (x ∷ xs) ys (n, d) i = elim i [
  | inl e ↦ rw e (NotIn-right x xs ys n)
  | inr i' ↦ Distinct-apart a xs ys d i'
]

pub Distinct-middle :
    (xs : List Ptr) (a : Ptr) (ys : List Ptr) → Distinct (xs ++ a ∷ ys) → NotIn a (xs ++ ys)
Distinct-middle [] a ys (n, d) = n
Distinct-middle (x ∷ xs) a ys (n, d) =
    let (ne, _) = NotIn-right x xs (a ∷ ys) n in (λ e. ne (sym e), Distinct-middle xs a ys d)

pub In-left : (a : Ptr) (xs ys : List Ptr) → In a xs → In a (xs ++ ys)
In-left a [] ys i = absurd i
In-left a (x ∷ xs) ys i = ground (arith, In-left a xs ys)

pub In-middle : (xs : List Ptr) (a : Ptr) (ys : List Ptr) → In a (xs ++ a ∷ ys)
In-middle [] a ys = inl refl
In-middle (x ∷ xs) a ys = inr (In-middle xs a ys)

-- A chain whose elements keep their links.
pub IsChain-frame :
    (l l' : Nexts) (list : Ptr) (xs : List Ptr)
    → IsChain l list xs
    → ((p : Ptr) → In p xs → l' p ≡ l p)
    → IsChain l' list xs
IsChain-frame l l' list [] h f = h
IsChain-frame l l' list (x ∷ xs) (e, ne, h) f =
    (e, ne, rw (f x (inl refl)) (IsChain-frame l l' (l x) xs h (λ p i. f p (inr i))))

pub NotIn-of_In : (a : Ptr) (xs : List Ptr) → ((b : Ptr) → In b xs → a ≢ b) → NotIn a xs
NotIn-of_In a [] f = tt
NotIn-of_In a (x ∷ xs) f = (f x (inl refl), NotIn-of_In a xs (λ b i. f b (inr i)))

pub Distinct-drop :
    (xs : List Ptr) (a : Ptr) (ys : List Ptr) → Distinct (xs ++ a ∷ ys) → Distinct (xs ++ ys)
Distinct-drop [] a ys (n, d) = d
Distinct-drop (x ∷ xs) a ys (n, d) = (
  NotIn-append x xs ys (NotIn-left x xs (a ∷ ys) n) (NotIn-right x xs (a ∷ ys) n).1,
  Distinct-drop xs a ys d,
)

pub In-append : (a : Ptr) (xs ys : List Ptr) → In a (xs ++ ys) → In a xs ⊎ In a ys
In-append a [] ys i = inr i
In-append a (x ∷ xs) ys i = ground (arith, In-append a xs ys)

pub In-right : (a : Ptr) (xs ys : List Ptr) → In a ys → In a (xs ++ ys)
In-right a [] ys i = i
In-right a (x ∷ xs) ys i = inr (In-right a xs ys i)

-- What is left when an element is dropped was there before.
pub In-drop :
    (a : Ptr) (xs : List Ptr) (b : Ptr) (ys : List Ptr) → In a (xs ++ ys) → In a (xs ++ b ∷ ys)
In-drop a xs b ys i = elim (In-append a xs ys i) [
  | inl h ↦ In-left a xs (b ∷ ys) h
  | inr h ↦ In-right a xs (b ∷ ys) (inr h)
]

pub NotIn-insert :
    (a : Ptr) (xs : List Ptr) (b : Ptr) (ys : List Ptr)
    → NotIn a (xs ++ ys)
    → a ≢ b
    → NotIn a (xs ++ b ∷ ys)
NotIn-insert a [] b ys n ne = (ne, n)
NotIn-insert a (x ∷ xs) b ys (h, n) ne = (h, NotIn-insert a xs b ys n ne)

pub Distinct-insert :
    (xs : List Ptr) (a : Ptr) (ys : List Ptr)
    → Distinct (xs ++ ys)
    → NotIn a (xs ++ ys)
    → Distinct (xs ++ a ∷ ys)
Distinct-insert [] a ys d n = (n, d)
Distinct-insert (x ∷ xs) a ys (n', d) (ne, n) =
    (NotIn-insert x xs a ys n' (λ e. ne (sym e)), Distinct-insert xs a ys d n)

pub In-insert :
    (a : Ptr) (xs : List Ptr) (b : Ptr) (ys : List Ptr)
    → In a (xs ++ b ∷ ys)
    → (a ≡ b) ⊎ In a (xs ++ ys)
In-insert a [] b ys i = i
In-insert a (x ∷ xs) b ys i = ground (arith, In-insert a xs b ys)

pub NotIn-drop :
    (a : Ptr) (xs : List Ptr) (b : Ptr) (ys : List Ptr)
    → NotIn a (xs ++ b ∷ ys)
    → NotIn a (xs ++ ys)
NotIn-drop a [] b ys (ne, n) = n
NotIn-drop a (x ∷ xs) b ys (ne, n) = (ne, NotIn-drop a xs b ys n)

pub IsChain-start :
    (l : Nexts) (list : Ptr) (xs : List Ptr) (p : Ptr) → IsChain l list xs → In p xs → list ≢ null
IsChain-start l list [] p h i = absurd i
IsChain-start l list (x ∷ xs) p (e, ne, h) i = rw e ne
