-- ===== src/PhysicalPages/Pool/Grants.antt =====
-- When _ppage_block_alloc of src/kernel/mm/physical_pages.c succeeds, and what that costs the pool.
use atros.Base.{
  ℕ, ◌+◌, ◌-◌, ◌^◌, ◌≤◌, ◌<◌, ◌≡◌, ◌≢◌, refl, List, [], In, Option, none, some, arith, ◌⊎◌, ok,
  Outcome,
}
use atros.LinkedLists.Links.{Ptr}
use atros.PhysicalPages.State.{Memory}
use atros.PhysicalPages.Blocks.{ppage_block_alloc_dscr}
use atros.PhysicalPages.Pool.{Free, alloc_from, IsPool, IsTaken}
use atros.PhysicalPages.Pool.Alloc.{Allocates, ppage_block_alloc-Allocates}
use atros.PhysicalPages.Pool.Count.{free_pages, alloc_from-ne_none, alloc_from-free_pages}
use atros.PhysicalPages.Pool.Pages.{Takes, alloc_from-Takes}

-- A run that hands out a block, takes exactly its pages from the pool, uses nothing else, and keeps
-- the state well formed.
abbrev pub Grants : ℕ → Free → List Ptr → Outcome (Ptr × Memory) → Type 0
Grants order free c r =
    (p : Ptr) × (m' : Memory) × (rest : Free) × (c' : List Ptr) × (r ≡ ok (p, m'))
    × IsPool m' rest c'
    × IsTaken m' rest c' p order
    × Takes order free p rest
    × ((q : Ptr) → In q c' → (q ≡ p) ⊎ In q c)
    × (free_pages 10 rest + 2 ^ order ≡ free_pages 10 free)

Grants-of :
    (order : ℕ) (free : Free) (c : List Ptr) (o : Option (Ptr × Free)) (r : Outcome (Ptr × Memory))
    → o ≢ none
    → ((p : Ptr) (rest : Free)
        → o ≡ some (p, rest)
        → Takes order free p rest × (free_pages 10 rest + 2 ^ order ≡ free_pages 10 free))
    → Allocates order c o r
    → Grants order free c r
Grants-of order free c none r ne taken a = absurd (ne refl)
Grants-of order free c (some (p, rest)) r ne taken (m', c', e, pool, is, new) =
    let (takes, count) = taken p rest refl in (p, m', rest, c', e, pool, is, takes, new, count)

-- On a well-formed state, if some list of the order asked for or above, below 10, has a block,
-- then _ppage_block_alloc returns a block of the order whose pages were all free, and the state
-- stays well formed: the pages free before are exactly those of the block and those free
-- afterwards, the block overlaps no free block, the number of free pages drops by its 2^order, and
-- no other descriptor than the block's joins the used lists.
pub ppage_block_alloc-Grants :
    (order k : ℕ) (m : Memory) (free : Free) (c : List Ptr)
    → IsPool m free c
    → order ≤ k
    → k < 10
    → free k ≢ []
    → Grants order free c (ppage_block_alloc_dscr order m)
ppage_block_alloc-Grants order k m free c pool h small ne =
    Grants-of order free c (alloc_from (10 - order) order free) (ppage_block_alloc_dscr order m)
      (alloc_from-ne_none (10 - order) order k free h (omega arith) ne)
      (λ p rest e. (
        alloc_from-Takes (10 - order) order free rest p e,
        alloc_from-free_pages order free rest p (omega arith) e,
      ))
      (ppage_block_alloc-Allocates order m free c pool)
