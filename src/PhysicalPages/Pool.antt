-- ===== src/PhysicalPages/Pool.antt =====
-- The free blocks of the physical pages allocator as a pool, the invariant that ties the
-- descriptors and lists of src/kernel/mm/physical_pages.c to it, and what allocation does to it.
pub mod Take
pub mod Split
pub mod Release
pub mod Alloc
pub mod Count
pub mod Pages
pub mod Grants
use atros.Base.{
  ℕ, zero, suc, ◌+◌, ◌*◌, ◌^◌, ◌≤◌, ◌<◌, ◌≡◌, ◌≢◌, List, [], ◌∷◌, ◌++◌, NotIn, In, Option, none,
  some, arith, ◌⊎◌, inl, inr, true,
}
use atros.LinkedLists.Links.{Ptr, null, update}
use atros.LinkedLists.Circular.Walk.{IsClist}
use atros.PhysicalPages.State.{Memory, sizeof_ppage}
use atros.PhysicalPages.Steps.{IsClosed}

-- The bytes of the descriptors of a block of an order.
abbrev pub span : ℕ → ℕ
span order = sizeof_ppage * 2 ^ order

-- `p` describes the first page of an aligned run of 2 ^ order pages in bounds.
pub record IsBlock (m : Memory) (p : Ptr) (order : ℕ) : Type 0 where
  pub index : ℕ
  pub place : p ≡ m.ppages_dscrs + sizeof_ppage * (index * 2 ^ order)
  pub above : m.first_ppn ≤ index * 2 ^ order
  pub below : index * 2 ^ order + 2 ^ order ≤ m.last_ppn + 1

-- The descriptors are an array in memory, away from NULL.
pub record IsArray (m : Memory) : Type 0 where
  pub base : 0 < m.ppages_dscrs
  pub fits : m.ppages_dscrs + sizeof_ppage * (m.last_ppn + 1) < 2 ^ 32

-- `free` are the blocks of each order, and `c` the descriptors that used lists may lead to.
pub record IsPool (m : Memory) (free : ℕ → List Ptr) (c : List Ptr) : Type 0 where
  pub array : IsArray m
  pub rings : (k : ℕ) → IsClist m.links (m.free_lists k) (free k)
  pub blocks : (k : ℕ) (p : Ptr) → In p (free k) → IsBlock m p k
  pub orders :
      (k : ℕ) (p : Ptr)
      → In p (free k)
      → ((m.page p).block_order ≡ k) × ((m.page p).block_head ≡ true) × ((m.page p).count ≡ 0)
  pub apart :
      (j k : ℕ) (p q : Ptr)
      → In p (free j)
      → In q (free k)
      → ((p ≡ q) × (j ≡ k)) ⊎ (p + span j ≤ q) ⊎ (q + span k ≤ p)
  pub closed : IsClosed m.links m.used_lists c
  pub used_apart : (k : ℕ) (p q : Ptr) → In p c → In q (free k) → (p < q) ⊎ (q + span k ≤ p)

-- `p` is out of the pool as a block of the order: no free block and no other used descriptor lies
-- in it.
pub record IsTaken (m : Memory) (free : ℕ → List Ptr) (c : List Ptr) (p : Ptr) (order : ℕ)
    : Type 0 where
  pub block : IsBlock m p order
  pub level : (m.page p).block_order ≡ order
  pub used : (m.page p).count ≡ 1
  pub listed : In p c
  pub free_apart : (k : ℕ) (q : Ptr) → In q (free k) → (p + span order ≤ q) ⊎ (q + span k ≤ p)
  pub lone : (q : Ptr) → In q c → (q ≡ p) ⊎ (q < p) ⊎ (p + span order ≤ q)

abbrev pub Free : Type 0
Free = ℕ → List Ptr

-- What splitting adds to the pool: the upper half of the block, at the end of its order.
abbrev pub give_back : ℕ → Option (Ptr × Free) → Option (Ptr × Free)
give_back order none = none
give_back order (some (p, rest)) = some (p, update rest order (rest order ++ (p + span order) ∷ []))

abbrev pub first_of : ℕ → Free → List Ptr → Option (Ptr × Free) → Option (Ptr × Free)
first_of order free [] above = give_back order above
first_of order free (x ∷ xs) above = some (x, update free order xs)

-- What allocation takes from the pool: the first block of the least order that has one, whose
-- upper halves go back, one to each order in between.
unfoldable pub alloc_from : ℕ → ℕ → Free → Option (Ptr × Free)
alloc_from zero order free = none
alloc_from (suc left) order free =
    first_of order free (free order) (alloc_from left (suc order) free)

-- A descriptor that differs from all of a list is not in it.
pub NotIn-of : (p : Ptr) (xs : List Ptr) → ((q : Ptr) → In q xs → p ≢ q) → NotIn p xs
NotIn-of p [] f = tt
NotIn-of p (x ∷ xs) f = (f x (inl (λ _. x)), NotIn-of p xs (λ q i. f q (inr i)))
