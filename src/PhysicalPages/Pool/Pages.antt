-- ===== src/PhysicalPages/Pool/Pages.antt =====
-- The pages of the free blocks, and which of them allocation takes from the pool. The pages stand
-- here by the addresses of their descriptors, one behind the other in an array.
use atros.Base.{
  ℕ, zero, suc, ◌+◌, ◌≤◌, ◌<◌, ◌≡◌, ◌↔◌, refl, sym, subst, List, [], ◌∷◌, ◌++◌, In, In-snoc, Option,
  none, some, arith, eq_or_ne, ◌⊎◌, inl, inr, ltb, Bool-cases, ltb→lt, ltb→ge,
}
use native.Mathlib.Nat.{pow-suc}
use atros.LinkedLists.Links.{Ptr, update, update_eq, update_ne}
use atros.PhysicalPages.Pool.{Free, give_back, first_of, alloc_from, span}

-- `q` lies in the descriptors of the block at `p`.
abbrev pub IsInBlock : Ptr → ℕ → Ptr → Type 0
IsInBlock p order q = (p ≤ q) × (q < p + span order)

-- `q` lies in the descriptors of a free block.
abbrev pub IsFreePage : Free → Ptr → Type 0
IsFreePage free q = (k : ℕ) × (b : Ptr) × In b (free k) × IsInBlock b k q

-- The descriptors of the free blocks are those of the block taken and of the blocks that remain.
abbrev pub Takes : ℕ → Free → Ptr → Free → Type 0
Takes order free p rest = (q : Ptr) → IsFreePage free q ↔ (IsInBlock p order q ⊎ IsFreePage rest q)

Takes-first :
    (order : ℕ) (free : Free) (x : Ptr) (xs : List Ptr)
    → free order ≡ x ∷ xs
    → Takes order free x (update free order xs)
Takes-first order free x xs e q = (there, back)
  where
    split :
        (b : Ptr)
        → IsInBlock b order q
        → In b (x ∷ xs)
        → IsInBlock x order q ⊎ IsFreePage (update free order xs) q
    split b w i = elim i [
      | inl z ↦ inl (subst (λ (t : Ptr). IsInBlock t order q) z w)
      | inr j ↦ inr (order, b, rw (update_eq free order order xs refl) j, w)
    ]

    there : IsFreePage free q → IsInBlock x order q ⊎ IsFreePage (update free order xs) q
    there (k, b, i, w) = elim (eq_or_ne k order) [
      | inl z ↦
          split b (subst (λ (t : ℕ). IsInBlock b t q) z w)
            (subst (λ (t : List Ptr). In b t) e (subst (λ (t : ℕ). In b (free t)) z i))
      | inr ne ↦ inr (k, b, rw (update_ne free order k xs ne) i, w)
    ]

    old : (k : ℕ) (b : Ptr) → In b (update free order xs k) → In b (free k)
    old k b i = elim (eq_or_ne k order) [
      | inl z ↦ rw (z, e) (inr (rw (z, update_eq free order order xs refl) at (i)))
      | inr ne ↦ rw (update_ne free order k xs ne) at (i)
    ]

    back : IsInBlock x order q ⊎ IsFreePage (update free order xs) q → IsFreePage free q
    back h = elim h [
      | inl w ↦ (order, x, rw e (inl refl), w)
      | inr (k, b, i, w) ↦ (k, b, old k b i, w)
    ]

In-left : (a b : Ptr) (xs : List Ptr) → In a xs → In a (xs ++ b ∷ [])
In-left a b [] i = absurd i
In-left a b (x ∷ xs) i = elim i [ inl e ↦ inl e | inr j ↦ inr (In-left a b xs j) ]

In-last : (b : Ptr) (xs : List Ptr) → In b (xs ++ b ∷ [])
In-last b [] = inl refl
In-last b (x ∷ xs) = inr (In-last b xs)

-- A block is its lower half and its upper half.
IsInBlock-halves :
    (p order q : Ptr)
    → IsInBlock p (suc order) q ↔ (IsInBlock p order q ⊎ IsInBlock (p + span order) order q)
IsInBlock-halves p order q =
    let twice : span (suc order) ≡ span order + span order = omega (arith, pow-suc 2 order) in
    (
      (λ (a, b). elim (Bool-cases (ltb q (p + span order))) [
        | inl h ↦ inl (a, ltb→lt q (p + span order) h)
        | inr h ↦ inr (ltb→ge q (p + span order) h, omega (arith, twice))
      ]),
      λ h. elim h [
        | inl (a, b) ↦ (a, omega (arith, twice))
        | inr (a, b) ↦ (omega arith, omega (arith, twice))
      ],
    )

-- A free block more.
module _ (order : ℕ) (free : Free) (u q : Ptr) where
  abbrev more : Free
  more = update free order (free order ++ u ∷ [])

  IsFreePage-more : IsFreePage free q → IsFreePage more q
  IsFreePage-more (k, b, i, w) = elim (eq_or_ne k order) [
    | inl z ↦ (
      k,
      b,
      rw (z, update_eq free order order (free order ++ u ∷ []) refl)
          (In-left b u (free order) (subst (λ (t : ℕ). In b (free t)) z i)),
      w,
    )
    | inr ne ↦ (k, b, rw (update_ne free order k (free order ++ u ∷ []) ne) i, w)
  ]

  IsFreePage-new : IsInBlock u order q → IsFreePage more q
  IsFreePage-new w = (
    order,
    u,
    rw (update_eq free order order (free order ++ u ∷ []) refl) (In-last u (free order)),
    w,
  )

  IsFreePage-fewer : IsFreePage more q → IsInBlock u order q ⊎ IsFreePage free q
  IsFreePage-fewer (k, b, i, w) = elim (eq_or_ne k order) [
    | inl z ↦
        let i' : In b (free order ++ u ∷ []) =
          rw (z, update_eq free order order (free order ++ u ∷ []) refl) at (i) in
        elim (In-snoc b (free order) u i') [
          | inl j ↦ inr (k, b, rw z j, w)
          | inr e ↦ inl (rw (sym e, sym z) w)
        ]
    | inr ne ↦ inr (k, b, rw (update_ne free order k (free order ++ u ∷ []) ne) at (i), w)
  ]

Takes-split :
    (order : ℕ) (free : Free) (p : Ptr) (rest : Free)
    → Takes (suc order) free p rest
    → Takes order free p (update rest order (rest order ++ (p + span order) ∷ []))
Takes-split order free p rest t q =
    let u = p + span order in
    let halves = IsInBlock-halves p order q in
    (
      (λ f. elim ((t q).0 f) [
        | inl w ↦ elim (halves.0 w) [
          | inl lower ↦ inl lower
          | inr upper ↦ inr (IsFreePage-new order rest u q upper)
        ]
        | inr r ↦ inr (IsFreePage-more order rest u q r)
      ]),
      λ h. elim h [
        | inl lower ↦ (t q).1 (inl (halves.1 (inl lower)))
        | inr r ↦ elim (IsFreePage-fewer order rest u q r) [
          | inl upper ↦ (t q).1 (inl (halves.1 (inr upper)))
          | inr f ↦ (t q).1 (inr f)
        ]
      ],
    )

TakesAll : ℕ → Free → Option (Ptr × Free) → Type 0
TakesAll order free none = Unit
TakesAll order free (some (p, rest)) = Takes order free p rest

give_back-TakesAll :
    (order : ℕ) (free : Free) (o : Option (Ptr × Free))
    → TakesAll (suc order) free o
    → TakesAll order free (give_back order o)
unfolding TakesAll
give_back-TakesAll order free none t = tt
give_back-TakesAll order free (some (p, rest)) t = Takes-split order free p rest t

first_of-TakesAll :
    (order : ℕ) (free : Free) (xs : List Ptr) (o : Option (Ptr × Free))
    → free order ≡ xs
    → TakesAll (suc order) free o
    → TakesAll order free (first_of order free xs o)
unfolding TakesAll
first_of-TakesAll order free [] o e t = give_back-TakesAll order free o t
first_of-TakesAll order free (x ∷ xs) o e t = Takes-first order free x xs e

alloc_from-TakesAll :
    (left order : ℕ) (free : Free) → TakesAll order free (alloc_from left order free)
unfolding TakesAll alloc_from
alloc_from-TakesAll zero order free = tt
alloc_from-TakesAll (suc left) order free =
    first_of-TakesAll order free (free order) (alloc_from left (suc order) free) refl
      (alloc_from-TakesAll left (suc order) free)

-- What the pool's allocation takes are the descriptors of its block, and the others stay free.
pub alloc_from-Takes :
    (left order : ℕ) (free rest : Free) (p : Ptr)
    → alloc_from left order free ≡ some (p, rest)
    → Takes order free p rest
unfolding TakesAll
alloc_from-Takes left order free rest p e =
    subst (TakesAll order free) e (alloc_from-TakesAll left order free)
