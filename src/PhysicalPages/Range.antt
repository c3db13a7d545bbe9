-- ===== src/PhysicalPages/Range.antt =====
-- _range_ppages_set_status of src/kernel/mm/physical_pages.c: a range of pages is cut into blocks,
-- each as large as its alignment and the range allow; and the allocator of the boot phase.
pub mod Init
pub mod Fill
pub mod Loop
pub mod Order
use atros.Base.{
  ℕ, zero, suc, ◌+◌, ◌-◌, ◌*◌, ◌%◌, ◌^◌, Bool, true, false, ◌==◌, leb, ◌&&◌, if◌then◌else◌, Outcome,
  ok, panic, out_of_fuel, Cmd, pure, ◌>>=◌, ◌>>◌, get, die, and_then,
}
use atros.LinkedLists.Links.{Ptr, null, set_prev, set_next}
use atros.PhysicalPages.State.{
  Memory, on_links, edit, push_free, push_used, is_buddy_block, ppage_set_free, ppage_set_used,
  sizeof_ppage, max_ppage_block_order,
}

abbrev pub ppage_status_free : ℕ
ppage_status_free = 0

abbrev pub ppage_status_used : ℕ
ppage_status_used = 1

-- The test of the inner loop: a block of the order starts at the page and ends in the range.
unfoldable pub block_fits : ℕ → ℕ → ℕ → Bool
block_fits ppn last order = is_buddy_block ppn order && leb ((ppn + 2 ^ order - 1) % 2 ^ 32) last

-- The inner loop, from an order down. At order 0 the test holds for every page of the range.
unfoldable pub largest_order : ℕ → ℕ → ℕ → ℕ
largest_order zero ppn last = 0
largest_order (suc order) ppn last =
    let rest = largest_order order ppn last in
    if block_fits ppn last (suc order) then suc order else rest

unfoldable pub set_status : ℕ → Ptr → Cmd Memory (Unit {0})
set_status status p = if status == ppage_status_free then ppage_set_free p else ppage_set_used p

-- The descriptor of the first page of a block.
unfoldable pub init_head : ℕ → ℕ → Ptr → Cmd Memory (Unit {0})
init_head status order p = do
  set_status status p
  edit p (λ d. record d { block_head = true })
  edit p (λ d. record d { block_order = order % 256 })
  edit p (λ d. record d { slab = null })
  edit p (λ d. record d { mapping = null })
  if status == ppage_status_free then push_free order p else push_used order p

-- The descriptor of another page of a block.
unfoldable pub init_inner : ℕ → ℕ → Ptr → Cmd Memory (Unit {0})
init_inner status order p = do
  set_status status p
  edit p (λ d. record d { block_head = false })
  edit p (λ d. record d { block_order = order % 256 })
  edit p (λ d. record d { slab = null })
  edit p (λ d. record d { mapping = null })
  on_links (set_prev p null)
  on_links (set_next p null)

-- The loop over the other pages of a block, with `left` pages to go from page `i`.
unfoldable pub inner_loop : ℕ → ℕ → ℕ → ℕ → Cmd Memory (Unit {0})
inner_loop status order zero i = pure tt
inner_loop status order (suc left) i = do
  m ← get
  init_inner status order (m.ppages_dscrs + sizeof_ppage * i)
  inner_loop status order left (i + 1)

unfoldable pub init_block : ℕ → ℕ → ℕ → Cmd Memory (Unit {0})
init_block status order ppn = do
  m ← get
  init_head status order (m.ppages_dscrs + sizeof_ppage * ppn)
  inner_loop status order (2 ^ order - 1) (ppn + 1)

-- The outer loop. It runs on fuel.
unfoldable pub range_loop : ℕ → ℕ → ℕ → ℕ → Cmd Memory (Unit {0})
range_loop zero status ppn last = λ m. out_of_fuel
range_loop (suc fuel) status ppn last =
    if leb ppn last
    then (do
      init_block status (largest_order (max_ppage_block_order - 1) ppn last) ppn
      range_loop fuel status
          ((ppn + 2 ^ largest_order (max_ppage_block_order - 1) ppn last) % 2 ^ 32) last)
    else pure tt

-- One round for each page of the range, and the last test.
unfoldable pub range_ppages_set_status : ℕ → ℕ → ℕ → Cmd Memory (Unit {0})
range_ppages_set_status first last status =
    if status == ppage_status_free
    then range_loop (suc (last + 1 - first)) status first last
    else if status == ppage_status_used
    then range_loop (suc (last + 1 - first)) status first last
    else die

-- The bounds of the boot allocator.
pub record BootPages : Type 0 where
  pub first_free_ppn : ℕ
  pub last_free_ppn : ℕ

unfoldable pub boot_physical_pages_init : ℕ → ℕ → BootPages
boot_physical_pages_init first last = record { first_free_ppn = first; last_free_ppn = last }

unfoldable pub boot_physical_pages_alloc : ℕ → Cmd BootPages ℕ
boot_physical_pages_alloc nbr_ppages b =
    if leb ((b.first_free_ppn + nbr_ppages + 2 ^ 32 - 1) % 2 ^ 32) b.last_free_ppn
    then ok
        (b.first_free_ppn, record b { first_free_ppn = (b.first_free_ppn + nbr_ppages) % 2 ^ 32 })
    else panic
