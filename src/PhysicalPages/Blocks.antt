-- ===== src/PhysicalPages/Blocks.antt =====
-- Allocation and release of blocks of 2 ^ order pages (src/kernel/mm/physical_pages.c).
use atros.Base.{
  ℕ, zero, suc, ◌+◌, ◌-◌, ◌%◌, ◌^◌, true, false, ◌==◌, ltb, leb, not, ◌&&◌, if◌then◌else◌, Cmd,
  pure, ◌>>=◌, ◌>>◌, kassert, get, die, bit_and,
}
use atros.LinkedLists.Links.{Ptr, null}
use atros.LinkedLists.Circular.{clist_is_empty}
use atros.PhysicalPages.State.{
  Memory, max_ppage_block_order, read, edit, push_free, push_used, delete_free, delete_used,
  pop_free, ppage_set_free, ppage_set_used, ppage_to_ppn, ppn_to_ppage, ppage_count, ppage_is_free,
}

-- find_buddy of physical_pages.h: it masks the bit of the order, and does not flip it.
unfoldable pub find_buddy : ℕ → ℕ → ℕ
find_buddy addr order = bit_and addr (2 ^ order)

-- The case of _ppage_block_alloc in which a block of the order above is split.
unfoldable pub split_block : ℕ → Ptr → Cmd Memory Ptr
split_block order bigger = do
  ppn ← ppage_to_ppn bigger
  upper ← ppn_to_ppage ((ppn + 2 ^ order) % 2 ^ 32)
  edit upper (λ d. record d { block_head = true })
  edit upper (λ d. record d { block_order = order % 256 })
  ppage_set_free upper
  push_free order upper
  edit bigger (λ d. record d { block_order = (d.block_order + 255) % 256 })
  push_used order bigger
  pure bigger

-- The case in which the list of the order has a block.
unfoldable pub take_block : ℕ → Cmd Memory Ptr
take_block order = do
  block ← pop_free order
  push_used order block
  ppage_set_used block
  pure block

-- _ppage_block_alloc, with `left` orders from `order` up to MAX_PPAGE_BLOCK_ORDER: at the last the
-- assertion on the order fails.
unfoldable pub block_alloc_at : ℕ → ℕ → Cmd Memory Ptr
block_alloc_at zero order = die
block_alloc_at (suc left) order = do
  m ← get
  if clist_is_empty (m.free_lists order)
      then (do
        bigger ← block_alloc_at left (suc order)
        if bigger == null then pure null else split_block order bigger)
      else take_block order

unfoldable pub ppage_block_alloc_dscr : ℕ → Cmd Memory Ptr
ppage_block_alloc_dscr order = block_alloc_at (max_ppage_block_order - order) order

unfoldable pub ppage_block_alloc : ℕ → Cmd Memory ℕ
ppage_block_alloc order = do
  block ← ppage_block_alloc_dscr order
  if block == null then die else ppage_to_ppn block

-- One round of the merging loop of _ppage_block_free, where the buddy can be merged.
unfoldable pub merge_blocks : ℕ → Ptr → ℕ → Ptr → Cmd Memory Ptr
merge_blocks order block buddy_ppn buddy = do
  delete_free order buddy
  edit block (λ d. record d { block_head = false })
  edit buddy (λ d. record d { block_head = false })
  ppn ← ppage_to_ppn block
  merged ← ppn_to_ppage (bit_and ppn buddy_ppn)
  edit merged (λ d. record d { block_head = true })
  edit merged (λ d. record d { block_order = (order + 1) % 256 })
  pure merged

-- The merging loop, with `left` rounds before the order is MAX_PPAGE_BLOCK_ORDER - 1. The result
-- is the order and the block at which it stops.
unfoldable pub merge_loop : ℕ → ℕ → Ptr → Cmd Memory (ℕ × Ptr)
merge_loop zero order block = pure (order, block)
merge_loop (suc left) order block = do
  ppn ← ppage_to_ppn block
  d ← read block
  let buddy_ppn = find_buddy ppn d.block_order
  buddy ← ppn_to_ppage buddy_ppn
  free ← ppage_is_free buddy
  b ← read buddy
  if free && b.block_head && (b.block_order == order)
      then (do
        merged ← merge_blocks order block buddy_ppn buddy
        merge_loop left (suc order) merged)
      else pure (order, block)

-- The assertions on entry of _ppage_block_free.
unfoldable pub check_block : Ptr → ℕ → Cmd Memory (Unit {0})
check_block block order = do
  kassert (not (block == null))
  d ← read block
  kassert d.block_head
  kassert (d.block_order == order)
  kassert (ltb d.block_order max_ppage_block_order)
  n ← ppage_count block
  kassert (n == 1)
  kassert (d.mapping == null)
  kassert (d.slab == null)

unfoldable pub ppage_block_free_dscr : Ptr → ℕ → Cmd Memory (Unit {0})
ppage_block_free_dscr block order = do
  check_block block order
  delete_used order block
  ppage_set_free block
  (order', merged) ← merge_loop (max_ppage_block_order - 1 - order) order block
  push_free order' merged

unfoldable pub ppage_block_free : ℕ → ℕ → Cmd Memory (Unit {0})
ppage_block_free ppn order = do block ← ppn_to_ppage ppn; ppage_block_free_dscr block order

unfoldable pub ppage_unref : Ptr → Cmd Memory (Unit {0})
ppage_unref p = do
  kassert (not (p == null))
  d ← read p
  if ltb 1 d.count
      then edit p (λ d. record d { count = d.count - 1 })
      else if d.count == 1
      then ppage_block_free_dscr p d.block_order
      else die

unfoldable pub ppage_alloc : Cmd Memory ℕ
ppage_alloc = ppage_block_alloc 0

unfoldable pub ppage_free_dscr : Ptr → Cmd Memory (Unit {0})
ppage_free_dscr p = ppage_block_free_dscr p 0

unfoldable pub ppage_free : ℕ → Cmd Memory (Unit {0})
ppage_free ppn = do p ← ppn_to_ppage ppn; ppage_free_dscr p

-- The search of ppages_alloc, with `left` orders to go: the first order whose block is large
-- enough, or MAX_PPAGE_BLOCK_ORDER.
unfoldable pub order_for : ℕ → ℕ → ℕ → ℕ
order_for zero order n = order
order_for (suc left) order n =
    let rest = order_for left (suc order) n in if leb n (2 ^ order) then order else rest

unfoldable pub ppages_alloc : ℕ → Cmd Memory ℕ
ppages_alloc n =
    if leb (2 ^ max_ppage_block_order) n
    then die
    else ppage_block_alloc (order_for max_ppage_block_order 0 n)

unfoldable pub ppage_alloc_dscr : Cmd Memory Ptr
ppage_alloc_dscr = ppage_block_alloc_dscr 0

unfoldable pub ppage_set_slab : Ptr → Ptr → Cmd Memory (Unit {0})
ppage_set_slab p slab = do
  kassert (not (p == null))
  kassert (not (slab == null))
  edit p (λ d. record d { slab = slab })

unfoldable pub ppage_set_mapping : Ptr → ℕ → Cmd Memory (Unit {0})
ppage_set_mapping p vaddr = do kassert (not (p == null)); edit p (λ d. record d { mapping = vaddr })

-- The loop of ppages_set_slab, with `left` pages to go.
unfoldable pub set_slab_loop : ℕ → ℕ → Ptr → Cmd Memory (Unit {0})
set_slab_loop zero ppn slab = pure tt
set_slab_loop (suc left) ppn slab = do
  p ← ppn_to_ppage ppn
  ppage_set_slab p slab
  set_slab_loop left ((ppn + 1) % 2 ^ 32) slab

-- `vregion` is the region of the slab, and `region_pages` its number of pages.
unfoldable pub ppages_set_slab : ℕ → ℕ → Ptr → Ptr → ℕ → Cmd Memory (Unit {0})
ppages_set_slab ppn nbr_pages slab vregion region_pages = do
  m ← get
  kassert (leb ppn m.last_ppn)
  kassert (leb ((ppn + nbr_pages + 2 ^ 32 - 1) % 2 ^ 32) m.last_ppn)
  kassert (not (slab == null))
  kassert (not (vregion == null))
  kassert (region_pages == nbr_pages)
  set_slab_loop nbr_pages ppn slab
