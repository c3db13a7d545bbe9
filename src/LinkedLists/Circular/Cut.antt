-- ===== src/LinkedLists/Circular/Cut.antt =====
-- What joining the neighbours of an element does to a ring.
use atros.Base.{
  ◌≡◌, ◌≢◌, refl, List, [], ◌∷◌, NotIn, In, Distinct, erase, NotIn-erase, Distinct-erase, arith,
  ◌==◌, sym, subst, ◌∙◌, true, false, inl, inr, Bool-cases, ==_iff,
}
use atros.LinkedLists.Links.{Links, Ptr, null, update, with_next, with_prev}
use atros.LinkedLists.Circular.Walk.{
  Linked, Walk, IsClist, Walk-with_next, Walk-with_prev, prev-ne, prev-ne_inner, next-ne_inner,
}

-- The links after the neighbours of `el` have been joined, and after a lone `el` has been cleared.
abbrev pub cut : Links → Ptr → Links
cut l el = with_prev (with_next l (l.prev el) (l.next el)) (l.next el) (l.prev el)

abbrev pub cleared : Links → Ptr → Links
cleared l el = with_next (with_prev l el null) el null

-- The element after the start goes.
Walk-cut_first :
    (l : Links) (a el : Ptr) (xs : List Ptr) (b : Ptr)
    → Walk l a (el ∷ xs) b
    → Distinct (a ∷ el ∷ xs)
    → NotIn b xs
    → Walk (cut l el) a xs b
unfolding update
Walk-cut_first l a el [] b w d nb = ground arith
Walk-cut_first l a el (y ∷ ys) b w d nb =
    let p : l.prev el ≡ a = w.0.1 in
    let n : l.next el ≡ y = w.1.0.0 in
    (
      ground arith,
      Walk-with_prev (with_next l (l.prev el) (l.next el)) y ys b (l.next el) (l.prev el)
          (Walk-with_next l y ys b (l.prev el) (l.next el) w.1.1
            (subst (λ q. NotIn q (y ∷ ys)) (sym p) d.0.1))
          (subst (λ q. NotIn q ys) (sym n) d.1.1.0) (λ e. nb.0 (sym e ∙ n)),
    )

In-tail : (el x : Ptr) (xs : List Ptr) → (x == el) ≡ false → In el (x ∷ xs) → In el xs
In-tail el x xs miss i = ground arith

Linked-cut :
    (l : Links) (a x : Ptr) (xs : List Ptr) (b el : Ptr)
    → Walk l a (x ∷ xs) b
    → Distinct (a ∷ x ∷ xs)
    → b ≢ x
    → In el xs
    → Linked (cut l el) a x
unfolding update
Linked-cut l a x xs b el w d nb i =
    ground (arith, prev-ne_inner l x xs b el a w.1 i, next-ne_inner l x xs b el x w.1 i)

-- An inner element goes.
Walk-cut :
    (l : Links) (a : Ptr) (xs : List Ptr) (b el : Ptr)
    → Walk l a xs b
    → Distinct (a ∷ xs)
    → NotIn b xs
    → In el xs
    → Walk (cut l el) a (erase el xs) b
Walk-cut l a [] b el w d nb i = elim i [ ]
Walk-cut l a (x ∷ xs) b el w d nb i = elim (Bool-cases (x == el)) [
  | inl hit ↦ rw hit (
      subst (λ q. Walk (cut l q) a xs b) ((==_iff x el).0 hit) (Walk-cut_first l a x xs b w d nb.1))
  | inr miss ↦ rw miss (
    Linked-cut l a x xs b el w d nb.0 (In-tail el x xs miss i),
    Walk-cut l x xs b el w.1 d.1 nb.1 (In-tail el x xs miss i),
  )
]

-- The head goes: the segment that closed the ring at `x` closes it at `y`.
Walk-cut_end :
    (l : Links) (a : Ptr) (xs : List Ptr) (b c : Ptr)
    → Walk l a xs b
    → Distinct (a ∷ xs)
    → NotIn c xs
    → NotIn b xs
    → Walk (with_prev (with_next l (l.prev b) c) c (l.prev b)) a xs c
unfolding update
Walk-cut_end l a [] b c w d nc nb = ground arith
Walk-cut_end l a (x ∷ xs) b c w d nc nb =
    (ground (arith, prev-ne l x xs b a w.1 d.0), Walk-cut_end l x xs b c w.1 d.1 nc.1 nb.1)

abbrev pub after_delete : Links → List Ptr → Ptr → Links
after_delete l [] el = l
after_delete l (x ∷ []) el = cleared l el
after_delete l (x ∷ y ∷ ys) el = cut l el

abbrev pub head_of : List Ptr → Ptr
head_of [] = null
head_of (x ∷ xs) = x

Walk-cut_head :
    (l : Links) (x y : Ptr) (ys : List Ptr)
    → Walk l x (y ∷ ys) x
    → Distinct (x ∷ y ∷ ys)
    → Walk (cut l x) y ys y
Walk-cut_head l x y ys w d =
    subst (λ n. Walk (with_prev (with_next l (l.prev x) n) n (l.prev x)) y ys y) (sym w.0.0)
      (Walk-cut_end l y ys x y w.1 d.1 d.1.0 d.0.1)

-- What is left after a deletion is a ring again.
pub after_delete-IsClist :
    (l : Links) (list : Ptr) (xs : List Ptr) (el : Ptr)
    → IsClist l list xs
    → In el xs
    → IsClist (after_delete l xs el) (head_of (erase el xs)) (erase el xs)
after_delete-IsClist l list [] el is i = elim i [ ]
after_delete-IsClist l list (x ∷ []) el is i =
    let hit : (x == el) ≡ true = ground arith in rw hit refl
after_delete-IsClist l list (x ∷ y ∷ ys) el is i = elim (Bool-cases (x == el)) [
  | inl hit ↦ rw hit (
      subst (λ q. IsClist (cut l q) y (y ∷ ys)) ((==_iff x el).0 hit)
        (refl, Walk-cut_head l x y ys is.1 is.3, is.2.1, is.3.1))
  | inr miss ↦ rw miss (
      let inner : In el (y ∷ ys) = In-tail el x (y ∷ ys) miss i in
      (
        refl,
        Walk-cut l x (y ∷ ys) x el is.1 is.3 is.3.0 inner,
        (is.2.0, NotIn-erase null el (y ∷ ys) is.2.1),
        (NotIn-erase x el (y ∷ ys) is.3.0, Distinct-erase el (y ∷ ys) is.3.1),
      ))
]
