-- ===== src/PhysicalPages/Pool/Count.antt =====
-- The pages of the pool, and what allocation takes from them.
use atros.Base.{
  ℕ, zero, suc, ◌+◌, ◌-◌, ◌*◌, ◌^◌, ◌≤◌, ◌<◌, ◌≡◌, ◌≢◌, refl, sym, subst, ap, List, [], ◌∷◌, ◌++◌,
  length, length-append, Option, none, some, arith, eq_or_ne, inl, inr, ◌∙◌,
}
use native.Mathlib.Nat.{pow-suc}
use atros.LinkedLists.Links.{Ptr, update, update_eq, update_ne}
use atros.PhysicalPages.Pool.{Free, give_back, first_of, alloc_from, span}

-- The number of free pages in the lists of the first `n` orders.
unfoldable pub free_pages : ℕ → Free → ℕ
free_pages zero free = 0
free_pages (suc n) free = free_pages n free + length (free n) * 2 ^ n

free_pages-above :
    (n : ℕ) (free : Free) (k : ℕ) (ys : List Ptr)
    → n ≤ k
    → free_pages n (update free k ys) ≡ free_pages n free
unfolding free_pages
free_pages-above zero free k ys h = refl
free_pages-above (suc n) free k ys h =
    rw (update_ne free k n ys (λ e. omega arith), free_pages-above n free k ys (omega arith))

pub free_pages-update :
    (n : ℕ) (free : Free) (k : ℕ) (ys : List Ptr)
    → k < n
    → free_pages n (update free k ys) + length (free k) * 2 ^ k
      ≡ free_pages n free + length ys * 2 ^ k
unfolding free_pages
free_pages-update zero free k ys h = absurd (omega arith)
free_pages-update (suc n) free k ys h = elim (eq_or_ne n k) [
  | inl e ↦
      rw (update_eq free k n ys e, e, free_pages-above k free k ys (omega arith)) (omega arith)
  | inr ne ↦
      rw (update_ne free k n ys ne) (omega (arith, free_pages-update n free k ys (omega arith)))
]

Gives : ℕ → ℕ → Free → Option (Ptr × Free) → Type 0
Gives n order free none = Unit
Gives n order free (some (p, rest)) = free_pages n rest + 2 ^ order ≡ free_pages n free

give_back-Gives :
    (n order : ℕ) (free : Free) (above : Option (Ptr × Free))
    → order < n
    → Gives n (suc order) free above
    → Gives n order free (give_back order above)
unfolding Gives
give_back-Gives n order free none h g = tt
give_back-Gives n order free (some (p, rest)) h g =
    let us = rest order ++ (p + span order) ∷ [] in
    omega (
      arith,
      g,
      pow-suc 2 order,
      free_pages-update n rest order us h,
      ap (λ (t : ℕ). t * 2 ^ order) (length-append (rest order) ((p + span order) ∷ [])),
    )

alloc_from-Gives :
    (n left order : ℕ) (free : Free)
    → left + order ≤ n
    → Gives n order free (alloc_from left order free)
unfolding alloc_from Gives
alloc_from-Gives n zero order free h = tt
alloc_from-Gives n (suc left) order free h =
    go (free order) refl (alloc_from-Gives n left (suc order) free (omega arith))
  where
    go :
        (xs : List Ptr)
        → free order ≡ xs
        → Gives n (suc order) free (alloc_from left (suc order) free)
        → Gives n order free (first_of order free xs (alloc_from left (suc order) free))
    go [] e g = give_back-Gives n order free (alloc_from left (suc order) free) (omega arith) g
    go (x ∷ xs) e g = omega (
      arith,
      free_pages-update n free order xs (omega arith),
      ap (λ (t : List Ptr). length t * 2 ^ order) e,
    )

Gives-some :
    (n order : ℕ) (free rest : Free) (p : Ptr) (o : Option (Ptr × Free))
    → o ≡ some (p, rest)
    → Gives n order free o
    → free_pages n rest + 2 ^ order ≡ free_pages n free
unfolding Gives
Gives-some n order free rest p o e g = subst (Gives n order free) e g

pub alloc_from-free_pages :
    (order : ℕ) (free rest : Free) (p : Ptr)
    → order < 10
    → alloc_from (10 - order) order free ≡ some (p, rest)
    → free_pages 10 rest + 2 ^ order ≡ free_pages 10 free
alloc_from-free_pages order free rest p h e =
    Gives-some 10 order free rest p (alloc_from (10 - order) order free) e
      (alloc_from-Gives 10 (10 - order) order free (omega arith))

give_back-ne_none : (order : ℕ) (o : Option (Ptr × Free)) → o ≢ none → give_back order o ≢ none
give_back-ne_none order none ne = ne
give_back-ne_none order (some (p, rest)) ne = λ h. cc

first_of-ne_none :
    (order : ℕ) (free : Free) (xs : List Ptr) (o : Option (Ptr × Free))
    → (xs ≡ [] → o ≢ none)
    → first_of order free xs o ≢ none
first_of-ne_none order free [] o f = give_back-ne_none order o (f refl)
first_of-ne_none order free (x ∷ xs) o f = λ h. cc

-- An allocation from the pool fails only when no list of the order or above has a block.
pub alloc_from-ne_none :
    (left order k : ℕ) (free : Free)
    → order ≤ k
    → k < left + order
    → free k ≢ []
    → alloc_from left order free ≢ none
unfolding alloc_from
alloc_from-ne_none zero order k free h h' ne = absurd (omega arith)
alloc_from-ne_none (suc left) order k free h h' ne =
    first_of-ne_none order free (free order) (alloc_from left (suc order) free) λ e.
      alloc_from-ne_none left (suc order) k free
        (omega (arith, λ (d : order ≡ k). ne (ap free (sym d) ∙ e))) (omega arith) ne
