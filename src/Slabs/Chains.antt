-- ===== src/Slabs/Chains.antt =====
-- The lists of free objects of src/kernel/mm/slab.c.
use atros.Base.{
  ℕ, zero, suc, ◌+◌, ◌*◌, ◌%◌, ◌^◌, ◌<◌, ◌≤◌, ◌≡◌, ◌≢◌, refl, ap, ◌∙◌, List, [], ◌∷◌, NotIn, In,
  Distinct, length, arith, inl, inr, ◌⊎◌, ok, Outcome, ne→==, ==_refl, lt→ltb, ge→ltb,
}
use atros.LinkedLists.Links.{Ptr, null, update, update_ne}
use atros.LinkedLists.Simple.{Nexts, list_delete_head, list_pop_head, length_loop, list_length}
use atros.LinkedLists.Simple.Chain.{IsChain, IsChain-update}
use atros.LinkedLists.Simple.Relink.{follow-ok, link-ok}
use atros.Slabs.State.{store_next, link_obj}
use atros.Slabs.Objects.{link_objs}

-- `n` objects of a size, one behind the other.
abbrev pub objs_from : Ptr → ℕ → ℕ → List Ptr
objs_from first size zero = []
objs_from first size (suc n) = first ∷ objs_from (first + size) size n

pub length-objs_from : (first size n : ℕ) → length (objs_from first size n) ≡ n
length-objs_from first size zero = refl
length-objs_from first size (suc n) = omega (arith, length-objs_from (first + size) size n)

-- The objects lie in the bytes from the first on.
pub In-objs_from :
    (first size n : ℕ) (x : Ptr)
    → In x (objs_from first size n)
    → (first ≤ x) × (x + size ≤ first + n * size)
In-objs_from first size zero x i = absurd i
In-objs_from first size (suc n) x i = elim i [
  | inl e ↦ (omega arith, omega arith)
  | inr i' ↦ omega (arith, In-objs_from (first + size) size n x i')
]

NotIn-objs_from : (x first size n : ℕ) → x < first → NotIn x (objs_from first size n)
NotIn-objs_from x first size zero h = tt
NotIn-objs_from x first size (suc n) h =
    ((λ e. omega arith), NotIn-objs_from x (first + size) size n (omega arith))

pub Distinct-objs_from : (first size n : ℕ) → 0 < size → Distinct (objs_from first size n)
Distinct-objs_from first size zero h = tt
Distinct-objs_from first size (suc n) h = (
  NotIn-objs_from first (first + size) size n (omega arith),
  Distinct-objs_from (first + size) size n h,
)

store_next-same : (p v : Ptr) (l : Nexts) → store_next p v l p ≡ v
unfolding store_next
store_next-same p v l = rw (==_refl p) refl

-- A store leaves the words that begin at least 4 bytes away.
store_next-far : (p v q : Ptr) (l : Nexts) → (q + 4 ≤ p) ⊎ (p + 4 ≤ q) → store_next p v l q ≡ l q
unfolding store_next
store_next-far p v q l far = elim far [
  | inl h ↦
      rw
        (
          ne→== q p (λ e. omega arith),
          ge→ltb p q (omega arith),
          ge→ltb p (q + 4) (omega arith),
          lt→ltb q p (omega arith),
        )
        refl
  | inr h ↦
      rw
        (
          ne→== q p (λ e. omega arith),
          ge→ltb q (p + 4) (omega arith),
          lt→ltb p q (omega arith),
          ge→ltb q p (omega arith),
        )
        refl
]

pub link_obj-ok : (p v : Ptr) (l : Nexts) → p ≢ null → link_obj p v l ≡ ok (tt, store_next p v l)
unfolding link_obj
link_obj-ok p v l ne = rw (ne→== p null ne) refl

link_objs_step :
    (left current size : ℕ) (l : Nexts)
    → current ≢ null
    → current + size < 2 ^ 32
    → link_objs (suc left) current size l
      ≡ link_objs left (current + size) size (store_next current (current + size) l)
unfolding link_objs
link_objs_step left current size l ne small =
    let next : (current + size) % 2 ^ 32 ≡ current + size = omega arith in
    rw (next, link_obj-ok current (current + size) l ne) refl

-- The words that begin and end outside the bytes from `first` to `end`.
abbrev pub IsOutside : ℕ → ℕ → Ptr → Type 0
IsOutside first end q = (q + 4 ≤ first) ⊎ (end ≤ q)

IsOutside-later :
    (first size n : ℕ) (q : Ptr)
    → IsOutside first (first + suc (suc n) * size) q
    → IsOutside (first + size) (first + size + suc n * size) q
IsOutside-later first size n q h = elim h [ inl a ↦ inl (omega arith) | inr b ↦ inr (omega arith) ]

IsOutside-far :
    (first size n : ℕ) (q : Ptr)
    → 4 ≤ size
    → IsOutside first (first + suc n * size) q
    → (q + 4 ≤ first) ⊎ (first + 4 ≤ q)
IsOutside-far first size n q pos h = elim h [ inl a ↦ inl a | inr b ↦ inr (omega arith) ]

-- The loop of initialize_slab, and the end of the list behind it: objects of at least 4 bytes.
pub link_objs-IsChain :
    (left current size : ℕ) (l : Nexts)
    → 4 ≤ size
    → 0 < current
    → current + left * size < 2 ^ 32
    → (last : Ptr) × (l' : Nexts) × (link_objs left current size l ≡ ok (last, l'))
      × (last ≢ null)
      × IsChain (store_next last null l') current (objs_from current size (suc left))
      × ((q : Ptr)
          → IsOutside current (current + suc left * size) q
          → store_next last null l' q ≡ l q)
unfolding link_objs
link_objs-IsChain zero current size l pos start small = (
  current,
  l,
  refl,
  λ e. omega arith,
  (refl, (λ e. omega arith), store_next-same current null l),
  λ q h. store_next-far current null q l (IsOutside-far current size 0 q pos h),
)
link_objs-IsChain (suc left) current size l pos start small =
    let ne : current ≢ null = λ e. omega arith in
    let l1 = store_next current (current + size) l in
    let (last, l', done, ne', chain, frame) =
      link_objs-IsChain left (current + size) size l1 pos (omega arith) (omega arith) in
    let here : store_next last null l' current ≡ current + size =
      frame current (inl (omega arith)) ∙ store_next-same current (current + size) l in
    (
      last,
      l',
      link_objs_step left current size l ne (omega arith) ∙ done,
      ne',
      (refl, ne, rw here chain),
      λ q h.
          frame q (IsOutside-later current size left q h)
          ∙ store_next-far current (current + size) q l
              (IsOutside-far current size (suc left) q pos h),
    )

length_loop-ok :
    (fuel n : ℕ) (list : Ptr) (xs : List Ptr) (l : Nexts)
    → IsChain l list xs
    → length xs < fuel
    → n + length xs < 2 ^ 32
    → length_loop fuel n list l ≡ ok (n + length xs, l)
unfolding length_loop
length_loop-ok zero n list xs l h enough small = absurd (omega arith)
length_loop-ok (suc fuel) n list [] l h enough small =
    let e : n ≡ n + 0 = omega arith in rw h (ap (λ (t : ℕ). ok (t, l)) e)
length_loop-ok (suc fuel) n list (x ∷ xs) l (e, ne, h) enough small =
    let next : (n + 1) % 2 ^ 32 ≡ n + 1 = omega arith in
    let total : n + 1 + length xs ≡ n + suc (length xs) = omega arith in
    rw (e, ne→== x null ne, follow-ok x l ne, next)
      (length_loop-ok fuel (n + 1) (l x) xs l h (omega arith) (omega arith)
        ∙ ap (λ (t : ℕ). ok (t, l)) total)

-- On a chain list_length counts the elements, with fuel above their number.
pub list_length-length :
    (fuel : ℕ) (list : Ptr) (xs : List Ptr) (l : Nexts)
    → IsChain l list xs
    → length xs < fuel
    → length xs < 2 ^ 32
    → list_length fuel list l ≡ ok (length xs, l)
unfolding list_length
list_length-length fuel list xs l h enough small =
    length_loop-ok fuel 0 list xs l h enough (omega arith) ∙ ap (λ (t : ℕ). ok (t, l)) (omega arith)

-- The first element is taken off a chain.
pub record Pops (l : Nexts) (x : Ptr) (xs : List Ptr) (r : Outcome ((Ptr × Ptr) × Nexts))
    : Type 0 where
  pub list' : Ptr
  pub l' : Nexts
  pub done : r ≡ ok ((x, list'), l')
  pub chain : IsChain l' list' xs
  pub frame : (q : Ptr) → q ≢ x → l' q ≡ l q

pub list_pop_head-Pops :
    (l : Nexts) (x : Ptr) (xs : List Ptr)
    → IsChain l x (x ∷ xs)
    → NotIn x xs
    → Pops l x xs (list_pop_head x l)
unfolding list_pop_head list_delete_head
list_pop_head-Pops l x [] (e, ne, h) n = record {
  list' = null;
  l' = l;
  done = rw (follow-ok x l ne, h) refl;
  chain = refl;
  frame = λ q _. refl;
}
list_pop_head-Pops l x (y ∷ ys) (e, ne, (ey, ne', h)) n = record {
  list' = y;
  l' = update l x null;
  done =
      rw (follow-ok x l ne, ey, ne→== y null ne', follow-ok x l ne, ey, link-ok x null l ne) refl;
  chain = IsChain-update l y (y ∷ ys) x null (refl, ne', h) n;
  frame = λ q ne''. update_ne l x q null ne'';
}
