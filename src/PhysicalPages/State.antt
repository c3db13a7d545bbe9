-- ===== src/PhysicalPages/State.antt =====
-- The state of src/kernel/mm/physical_pages.c: the descriptors, the two arrays of block lists and
-- the bounds; and the small functions on one descriptor. A descriptor is named by its address; its
-- `prev` and `next` stand in `links`, the store that the circular lists work on.
use atros.Base.{
  ℕ, ◌+◌, ◌-◌, ◌*◌, ◌/◌, ◌%◌, ◌^◌, Bool, ◌==◌, leb, not, if◌then◌else◌, ok, fault, Cmd, pure, ◌>>=◌,
  ◌>>◌, kassert, get, put, and_then,
}
use atros.LinkedLists.Links.{Links, Ptr, null, update}
use atros.LinkedLists.Circular.{clist_push_tail, clist_delete_el, clist_pop_head}

abbrev pub max_ppage_block_order : ℕ
max_ppage_block_order = 10

-- sizeof(Ppage): the two bit fields share a word.
abbrev pub sizeof_ppage : ℕ
sizeof_ppage = 24

pub record Ppage : Type 0 where
  pub block_head : Bool
  pub block_order : ℕ
  pub count : ℕ
  pub slab : Ptr
  pub mapping : ℕ

pub record Memory : Type 0 where
  pub ppages_dscrs : Ptr
  pub first_ppn : ℕ
  pub last_ppn : ℕ
  pub page : Ptr → Ppage
  pub links : Links
  pub free_lists : ℕ → Ptr
  pub used_lists : ℕ → Ptr

-- A list operation, run on the links of the descriptors.
unfoldable pub on_links : {A : Type 0} → Cmd Links A → Cmd Memory A
on_links c m = and_then (c m.links) (λ (a, l). ok (a, record m { links = l }))

unfoldable pub read : Ptr → Cmd Memory Ppage
read p m = if p == null then fault else ok (m.page p, m)

unfoldable pub edit : Ptr → (Ppage → Ppage) → Cmd Memory (Unit {0})
edit p f m =
    if p == null then fault else ok (tt, record m { page = update m.page p (f (m.page p)) })

unfoldable pub push_free : ℕ → Ptr → Cmd Memory (Unit {0})
push_free order el = do
  m ← get
  list ← on_links (clist_push_tail (m.free_lists order) el)
  m' ← get
  put (record m' { free_lists = update m'.free_lists order list })

unfoldable pub push_used : ℕ → Ptr → Cmd Memory (Unit {0})
push_used order el = do
  m ← get
  list ← on_links (clist_push_tail (m.used_lists order) el)
  m' ← get
  put (record m' { used_lists = update m'.used_lists order list })

unfoldable pub delete_free : ℕ → Ptr → Cmd Memory (Unit {0})
delete_free order el = do
  m ← get
  list ← on_links (clist_delete_el (m.free_lists order) el)
  m' ← get
  put (record m' { free_lists = update m'.free_lists order list })

unfoldable pub delete_used : ℕ → Ptr → Cmd Memory (Unit {0})
delete_used order el = do
  m ← get
  list ← on_links (clist_delete_el (m.used_lists order) el)
  m' ← get
  put (record m' { used_lists = update m'.used_lists order list })

unfoldable pub pop_free : ℕ → Cmd Memory Ptr
pop_free order = do
  m ← get
  (el, list) ← on_links (clist_pop_head (m.free_lists order))
  m' ← get
  put (record m' { free_lists = update m'.free_lists order list })
  pure el

unfoldable pub is_buddy_block : ℕ → ℕ → Bool
is_buddy_block ppn_block order = ppn_block % 2 ^ order == 0

unfoldable pub ppage_set_free : Ptr → Cmd Memory (Unit {0})
ppage_set_free p = edit p (λ d. record d { count = 0 })

unfoldable pub ppage_set_used : Ptr → Cmd Memory (Unit {0})
ppage_set_used p = edit p (λ d. record d { count = 1 })

-- The subtraction is that of 32-bit words.
unfoldable pub ppage_to_ppn : Ptr → Cmd Memory ℕ
ppage_to_ppn p = do
  kassert (not (p == null))
  m ← get
  pure ((p + 2 ^ 32 - m.ppages_dscrs) % 2 ^ 32 / sizeof_ppage)

unfoldable pub ppage_to_paddr : Ptr → Cmd Memory ℕ
ppage_to_paddr p = do kassert (not (p == null)); n ← ppage_to_ppn p; pure (n * 2 ^ 12 % 2 ^ 32)

unfoldable pub ppn_to_ppage : ℕ → Cmd Memory Ptr
ppn_to_ppage ppn = do
  m ← get
  kassert (leb m.first_ppn ppn)
  kassert (leb ppn m.last_ppn)
  pure (m.ppages_dscrs + sizeof_ppage * ppn)

unfoldable pub ppage_count : Ptr → Cmd Memory ℕ
ppage_count p = do kassert (not (p == null)); d ← read p; pure d.count

unfoldable pub ppage_ref : Ptr → Cmd Memory (Unit {0})
ppage_ref p = do
  kassert (not (p == null))
  edit p (λ d. record d { count = (d.count + 1) % 2 ^ 32 })

unfoldable pub ppage_is_free : Ptr → Cmd Memory Bool
ppage_is_free p = do kassert (not (p == null)); n ← ppage_count p; pure (n == 0)
