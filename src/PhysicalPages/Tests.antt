-- ===== src/PhysicalPages/Tests.antt =====
-- The theorems about src/kernel/mm/physical_pages.c at concrete states, and runs of its functions.
use atros.Base.{
  ℕ, ◌+◌, ◌-◌, ◌*◌, ◌/◌, ◌%◌, ◌^◌, ◌≤◌, ◌<◌, ◌≡◌, ◌⊎◌, refl, [], ◌∷◌, ok, panic, inl, inr, arith,
  if◌then◌else◌, ◌==◌, true, Cmd, pure, ◌>>=◌, ◌>>◌, Bool-cases, In,
}
use atros.LinkedLists.Links.{Ptr, update}
use atros.LinkedLists.Links.{get_prev, get_next, set_next, set_prev}
use atros.LinkedLists.Circular.{
  clist_is_empty, clist_push_tail, clist_pop_head, clist_delete_el, clist_is_singleton, unlink,
  clear_element,
}
use atros.PhysicalPages.State.{
  Memory, on_links, read, edit, push_free, push_used, delete_free, delete_used, pop_free,
  ppage_set_free, ppage_set_used, ppage_to_ppn, ppn_to_ppage, ppage_count, ppage_is_free,
}
use atros.PhysicalPages.Blocks.{
  ppage_block_alloc_dscr, ppages_alloc, order_for, find_buddy, block_alloc_at, split_block,
  take_block, ppage_block_free_dscr, check_block, merge_loop, merge_blocks,
}
use atros.PhysicalPages.Pool.{Free, IsBlock, IsPool, alloc_from}
use atros.PhysicalPages.Pool.Alloc.{Allocates, ppage_block_alloc-Allocates}
use atros.PhysicalPages.Pool.Grants.{Grants, ppage_block_alloc-Grants}
use atros.PhysicalPages.Address.{
  ppn_of, ppn_to_paddr, ppage_paddr_of, paddr_to_ppn, ppn_of-page, paddr_to_ppn-ppn_to_paddr,
}
use atros.PhysicalPages.Orders.{order_for_least, ppages_alloc_too_many, find_buddy_wrong}

-- Four pages, one free block of order 2, nothing used. The descriptors stand at address 1000.
abbrev four_pages : Memory
four_pages = record {
  ppages_dscrs = 1000;
  first_ppn = 0;
  last_ppn = 3;
  page = λ p. record { block_head = true; block_order = 2; count = 0; slab = 0; mapping = 0 };
  links = record { next = λ p. 1000; prev = λ p. 1000 };
  free_lists = λ k. if k == 2 then 1000 else 0;
  used_lists = λ k. 0;
}

abbrev one_block : Free
one_block k = if k == 2 then 1000 ∷ [] else []

In-one_block : (k : ℕ) (p : Ptr) → In p (one_block k) → (p ≡ 1000) × (k ≡ 2)
In-one_block k p i = ground arith

first-IsBlock : IsBlock four_pages 1000 2
first-IsBlock = record { index = 0; place = omega arith; above = omega arith; below = omega arith }

four_pages-IsPool : IsPool four_pages one_block []
four_pages-IsPool = record {
  array = omega arith;
  rings = λ k. elim (Bool-cases (k == 2)) [
    | inl e ↦ rw e (refl, (refl, refl), omega arith, omega arith)
    | inr e ↦ rw e refl
  ];
  blocks = λ k p i. let (e, h) = In-one_block k p i in rw (e, h) first-IsBlock;
  orders = λ k p i. ground (arith, In-one_block k p i);
  apart = λ j k p q i i'. ground (arith, In-one_block j p i, In-one_block k q i');
  closed = record { head = λ k. inl refl; back = λ p i. i; ne_null = λ p i. absurd i };
  used_apart = λ k p q i. absurd i;
}

ppage_block_alloc-Allocates_example :
    Allocates 0 [] (alloc_from 10 0 one_block) (ppage_block_alloc_dscr 0 four_pages)
ppage_block_alloc-Allocates_example =
    ppage_block_alloc-Allocates 0 four_pages one_block [] four_pages-IsPool

ppage_block_alloc-Grants_example : Grants 1 one_block [] (ppage_block_alloc_dscr 1 four_pages)
ppage_block_alloc-Grants_example =
    ppage_block_alloc-Grants 1 2 four_pages one_block [] four_pages-IsPool (omega arith)
      (omega arith) (λ e. cc)

ppn_of-page_example :
    (ppn_to_paddr (ppn_of 0x12345) ≡ ppage_paddr_of 0x12345)
    × (ppn_to_paddr (ppn_of 0x12345) ≤ 0x12345)
    × (0x12345 < ppn_to_paddr (ppn_of 0x12345) + 4096)
ppn_of-page_example = ppn_of-page 0x12345 (omega arith)

paddr_to_ppn-ppn_to_paddr_example : paddr_to_ppn (ppn_to_paddr 1023) ≡ 1023
paddr_to_ppn-ppn_to_paddr_example = paddr_to_ppn-ppn_to_paddr 1023 (omega arith)

order_for_least_example :
    (order_for 10 0 5 < 10)
    × (5 ≤ 2 ^ order_for 10 0 5)
    × ((order_for 10 0 5 ≡ 0) ⊎ (2 ^ (order_for 10 0 5 - 1) < 5))
order_for_least_example = order_for_least 5 (omega arith)

ppages_alloc_too_many_example : ppages_alloc 513 four_pages ≡ panic
ppages_alloc_too_many_example = ppages_alloc_too_many 513 four_pages (omega arith) (omega arith)

find_buddy_wrong_example :
    (find_buddy (3 * 2 ^ 2) 2 ≡ 3 % 2 * 2 ^ 2)
    × ((3 < 2) ⊎ (find_buddy (3 * 2 ^ 2) 2 + 2 ^ 2 ≤ 3 / 2 * 2 ^ 3))
find_buddy_wrong_example = find_buddy_wrong 3 2

-- Eight pages: the first four in use, the last four a free block of order 2.
abbrev eight_pages : Memory
eight_pages = record {
  ppages_dscrs = 1000;
  first_ppn = 0;
  last_ppn = 7;
  page = λ p. record {
    block_head = true;
    block_order = 2;
    count = if p == 1096 then 0 else 1;
    slab = 0;
    mapping = 0;
  };
  links = record { next = λ p. 1096; prev = λ p. 1096 };
  free_lists = λ k. if k == 2 then 1096 else 0;
  used_lists = λ k. 0;
}

-- A page is allocated and freed, then a block of two pages allocated, then two single pages: the
-- second single page is the first page of the block of two, since the used list of order 1 still
-- led to the freed page.
allocated_twice : Cmd Memory (Ptr × Ptr × Ptr)
unfolding ppage_block_alloc_dscr block_alloc_at split_block take_block ppage_block_free_dscr
    check_block merge_loop merge_blocks find_buddy clist_is_empty clist_push_tail clist_pop_head
    clist_delete_el clist_is_singleton unlink clear_element get_prev get_next set_next set_prev
    update on_links read edit push_free push_used delete_free delete_used pop_free ppage_set_free
    ppage_set_used ppage_to_ppn ppn_to_ppage ppage_count ppage_is_free
allocated_twice = do
  first ← ppage_block_alloc_dscr 0
  ppage_block_free_dscr first 0
  two ← ppage_block_alloc_dscr 1
  one ← ppage_block_alloc_dscr 0
  again ← ppage_block_alloc_dscr 0
  pure (two, one, again)

overlap : (m : Memory) × (allocated_twice eight_pages ≡ ok ((1144, 1120, 1144), m))
unfolding allocated_twice
overlap = (_, refl)
