-- ===== src/PhysicalPages/Pool/Alloc.antt =====
-- _ppage_block_alloc of src/kernel/mm/physical_pages.c implements allocation from the pool.
use atros.Base.{
  ℕ, zero, suc, ◌+◌, ◌≤◌, ◌<◌, ◌≡◌, ◌≢◌, refl, subst, List, [], ◌∷◌, true, false, Option, none, In,
  ◌⊎◌, some, arith, ok, panic, Outcome, ◌-◌, Bool-cases, leb, inl, inr, tests, and_then, bind_step,
  pure, if◌then◌else◌, ◌==◌, ne→==,
}
use atros.LinkedLists.Links.{Ptr, null}
use atros.LinkedLists.Circular.{clist_is_empty}
use atros.LinkedLists.Circular.Walk.{IsClist}
use atros.PhysicalPages.State.{Memory}
use atros.PhysicalPages.Blocks.{block_alloc_at, ppage_block_alloc_dscr, split_block}
use atros.PhysicalPages.Pool.{Free, give_back, first_of, alloc_from, IsPool, IsTaken}
use atros.PhysicalPages.Pool.Take.{taken, take_block-ok, taken-IsPool, taken-IsTaken}
use atros.PhysicalPages.Pool.Split.{halved, split_block-ok, halved-IsPool, halved-IsTaken}

-- The outcome is what the pool says: a panic when it has no block that is large enough, and else
-- its block, taken out, with the invariant kept, and nothing but the block new in the used lists.
abbrev pub Allocates : ℕ → List Ptr → Option (Ptr × Free) → Outcome (Ptr × Memory) → Type 0
Allocates order c none r = r ≡ panic
Allocates order c (some (p, rest)) r =
    (m' : Memory) × (c' : List Ptr) × (r ≡ ok (p, m'))
    × IsPool m' rest c'
    × IsTaken m' rest c' p order
    × ((q : Ptr) → In q c' → (q ≡ p) ⊎ In q c)

split-Allocates :
    (order : ℕ) (c0 : List Ptr) (above : Option (Ptr × Free)) (r : Outcome (Ptr × Memory))
    → suc order < 256
    → Allocates (suc order) c0 above r
    → Allocates order c0 (give_back order above) (
        and_then r
          (bind_step (λ bigger. if bigger == null then pure null else split_block order bigger)))
split-Allocates order c0 none r small h = rw h refl
split-Allocates order c0 (some (p, rest)) r small (m, c, e, pool, is, new) =
    let ne : p ≢ null = pool.closed.ne_null p is.listed in
    (
      halved m rest c pool order p is small,
      p ∷ c,
      rw (e, ne→== p null ne) (split_block-ok m rest c pool order p is small),
      halved-IsPool m rest c pool order p is small,
      halved-IsTaken m rest c pool order p is small,
      λ q i. elim i [ inl z ↦ inl z | inr j ↦ new q j ],
    )

list-empty : (list : Ptr) → list ≡ null → clist_is_empty list ≡ true
unfolding clist_is_empty
list-empty list h = rw h refl

list-cons : {list x : Ptr} → list ≡ x → null ≢ x → clist_is_empty list ≡ false
unfolding clist_is_empty
list-cons h ne = ground arith

pub block_alloc_at-Allocates :
    (left order : ℕ) (m : Memory) (free : Free) (c : List Ptr)
    → left + order ≤ 255
    → IsPool m free c
    → Allocates order c (alloc_from left order free) (block_alloc_at left order m)
unfolding alloc_from block_alloc_at
block_alloc_at-Allocates zero order m free c small pool = refl
block_alloc_at-Allocates (suc left) order m free c small pool =
    go (free order) refl (block_alloc_at-Allocates left (suc order) m free c (omega arith) pool)
  where
    go :
        (xs : List Ptr)
        → free order ≡ xs
        → Allocates
            (suc order)
            c
            (alloc_from left (suc order) free)
            (block_alloc_at left (suc order) m)
        → Allocates order c
            (first_of order free xs (alloc_from left (suc order) free))
            (block_alloc_at (suc left) order m)
    go [] e above =
        rw
          (list-empty (m.free_lists order)
            (subst (IsClist m.links (m.free_lists order)) e (pool.rings order)))
          (split-Allocates order c (alloc_from left (suc order) free)
            (block_alloc_at left (suc order) m) (omega arith) above)
    go (x ∷ xs) e above =
        let ring : IsClist m.links (m.free_lists order) (x ∷ xs) =
          subst (IsClist m.links (m.free_lists order)) e (pool.rings order) in
        let there : clist_is_empty (m.free_lists order) ≡ false = list-cons ring.0 ring.2.0 in
        (
          taken m free c pool order x xs e,
          x ∷ c,
          rw there (take_block-ok m free c pool order x xs e),
          taken-IsPool m free c pool order x xs e,
          taken-IsTaken m free c pool order x xs e,
          λ q i. i,
        )

no_orders : (order : ℕ) → 10 ≤ order → 10 - order ≡ 0
no_orders order h = omega arith

none-Allocates :
    (order : ℕ) (m : Memory) (free : Free) (c : List Ptr)
    → Allocates order c (alloc_from 0 order free) (block_alloc_at 0 order m)
unfolding alloc_from block_alloc_at
none-Allocates order m free c = refl

-- On a well-formed state _ppage_block_alloc does what the pool says, for every order: it panics
-- when no list of the order or above has a block, and else returns the descriptor of the pool's
-- block, with reference count 1 and the order asked for. The state is well formed again, the block
-- overlaps no free block and no other descriptor of the used lists, and these lead to nothing new
-- but the block.
pub ppage_block_alloc-Allocates :
    (order : ℕ) (m : Memory) (free : Free) (c : List Ptr)
    → IsPool m free c
    → Allocates order c (alloc_from (10 - order) order free) (ppage_block_alloc_dscr order m)
unfolding ppage_block_alloc_dscr
ppage_block_alloc-Allocates order m free c pool = elim (Bool-cases (leb order 10)) [
  | inl h ↦ block_alloc_at-Allocates (10 - order) order m free c (omega tests) pool
  | inr h ↦ rw (no_orders order (omega tests)) (none-Allocates order m free c)
]
