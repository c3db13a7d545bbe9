-- ===== src/PhysicalPages/Range/Init.antt =====
-- The descriptors of one block are set up: init_head and the loop over the other pages.
use atros.Base.{
  ℕ, zero, suc, ◌+◌, ◌*◌, ◌%◌, ◌≤◌, ◌<◌, ◌≡◌, ◌≢◌, refl, List, In, arith, ok, ◌⊎◌, inl, inr, true,
  false,
}
use atros.LinkedLists.Links.{
  Ptr, null, update, update_ne, with_prev, with_next, set_prev-ok, set_next-ok,
}
use atros.PhysicalPages.State.{
  Memory, Ppage, on_links, sizeof_ppage, ppage_set_free, ppage_set_used,
}
use atros.PhysicalPages.Steps.{edit-ok, edit-edit, push_free-ok, push_used-ok}
use atros.PhysicalPages.Range.{set_status, init_head, init_inner, inner_loop}
use atros.PhysicalPages.Pool.{Free, IsBlock, IsPool}
use atros.PhysicalPages.Pool.Release.{IsApart, IsPool-local, released, enlisted, u-ne_null, u-NotIn}

-- The descriptor of the first page of a block of an order, free (0) or used (1).
abbrev pub head_page : ℕ → ℕ → Ppage
head_page status order = record {
  block_head = true;
  block_order = order % 256;
  count = status;
  slab = null;
  mapping = null;
}

abbrev pub inner_page : ℕ → ℕ → Ppage
inner_page status order = record {
  block_head = false;
  block_order = order % 256;
  count = status;
  slab = null;
  mapping = null;
}

module _ (m : Memory) (free : Free) (c : List Ptr) (pool : IsPool m free c) (k : ℕ) (u : Ptr)
    (block : IsBlock m u k) (out : IsApart free c u k) where
  ne : u ≢ null
  ne = u-ne_null m free c pool k u block out (head_page 0 k)

  pub init_head_free :
      init_head 0 k u m ≡ ok (tt, released m free c pool k u block out (head_page 0 k))
  unfolding init_head set_status ppage_set_free
  init_head_free =
      let d0 : Ppage = record (m.page u) { count = 0 } in
      let d1 : Ppage = record d0 { block_head = true } in
      let d2 : Ppage = record d1 { block_order = k % 256 } in
      let d3 : Ppage = record d2 { slab = null } in
      rw (
        edit-ok m u (λ d. record d { count = 0 }) ne,
        edit-edit m u d0 (λ d. record d { block_head = true }) ne,
        edit-edit m u d1 (λ d. record d { block_order = k % 256 }) ne,
        edit-edit m u d2 (λ d. record d { slab = null }) ne,
        edit-edit m u d3 (λ d. record d { mapping = null }) ne,
        push_free-ok (record m { page = update m.page u (head_page 0 k) }) k (free k) u
            (pool.rings k) ne (u-NotIn m free c pool k u block out (head_page 0 k)),
      )

  pub init_head_used :
      init_head 1 k u m ≡ ok (tt, enlisted m free c pool k u block out (head_page 1 k))
  unfolding init_head set_status ppage_set_used
  init_head_used =
      let d0 : Ppage = record (m.page u) { count = 1 } in
      let d1 : Ppage = record d0 { block_head = true } in
      let d2 : Ppage = record d1 { block_order = k % 256 } in
      let d3 : Ppage = record d2 { slab = null } in
      rw (
        edit-ok m u (λ d. record d { count = 1 }) ne,
        edit-edit m u d0 (λ d. record d { block_head = true }) ne,
        edit-edit m u d1 (λ d. record d { block_order = k % 256 }) ne,
        edit-edit m u d2 (λ d. record d { slab = null }) ne,
        edit-edit m u d3 (λ d. record d { mapping = null }) ne,
        push_used-ok (record m { page = update m.page u (head_page 1 k) }) c k u pool.closed ne,
      )

abbrev cleared_inner : Memory → ℕ → ℕ → Ptr → Memory
cleared_inner m status order q = record m {
  page = update m.page q (inner_page status order);
  links = with_next (with_prev m.links q null) q null;
}

abbrev pub IsStatus : ℕ → Type 0
IsStatus status = (status ≡ 0) ⊎ (status ≡ 1)

set_status-ok :
    (m : Memory) (status : ℕ) (q : Ptr)
    → IsStatus status
    → q ≢ null
    → set_status status q m
      ≡ ok (tt, record m { page = update m.page q (record (m.page q) { count = status }) })
unfolding set_status ppage_set_free ppage_set_used
set_status-ok m status q (inl e) ne = rw e (edit-ok m q (λ d. record d { count = 0 }) ne)
set_status-ok m status q (inr e) ne = rw e (edit-ok m q (λ d. record d { count = 1 }) ne)

init_inner-ok :
    (m : Memory) (status order : ℕ) (q : Ptr)
    → IsStatus status
    → q ≢ null
    → init_inner status order q m ≡ ok (tt, cleared_inner m status order q)
unfolding init_inner on_links
init_inner-ok m status order q st ne =
    let d0 : Ppage = record (m.page q) { count = status } in
    let d1 : Ppage = record d0 { block_head = false } in
    let d2 : Ppage = record d1 { block_order = order % 256 } in
    let d3 : Ppage = record d2 { slab = null } in
    rw (
      set_status-ok m status q st ne,
      edit-edit m q d0 (λ d. record d { block_head = false }) ne,
      edit-edit m q d1 (λ d. record d { block_order = order % 256 }) ne,
      edit-edit m q d2 (λ d. record d { slab = null }) ne,
      edit-edit m q d3 (λ d. record d { mapping = null }) ne,
      set_prev-ok q ne m.links null,
      set_next-ok q ne (with_prev m.links q null) null,
    )

-- The array and its bounds are as they were.
abbrev pub SameShape : Memory → Memory → Type 0
SameShape m m' =
    (m'.ppages_dscrs ≡ m.ppages_dscrs) × (m'.first_ppn ≡ m.first_ppn) × (m'.last_ppn ≡ m.last_ppn)

-- No free block and no used descriptor stands between two addresses.
abbrev pub IsClear : Free → List Ptr → ℕ → ℕ → Type 0
IsClear free c lo hi =
    ((k : ℕ) (p : Ptr) → In p (free k) → (p < lo) ⊎ (hi ≤ p))
    × ((p : Ptr) → In p c → (p < lo) ⊎ (hi ≤ p))

cleared_inner-IsPool :
    (m : Memory) (free : Free) (c : List Ptr) (status order lo hi : ℕ) (q : Ptr)
    → IsPool m free c
    → IsClear free c lo hi
    → lo ≤ q
    → q < hi
    → IsPool (cleared_inner m status order q) free c
cleared_inner-IsPool m free c status order lo hi q pool (cf, cc') h h' =
    IsPool-local m free c q (update m.page q (inner_page status order))
      (with_next (with_prev m.links q null) q null) pool (λ k p i. ground (arith, cf k p i))
      (λ p i. ground (arith, cc' p i)) (λ p ne. update_ne m.page q p (inner_page status order) ne)
      (λ p ne. (update_ne m.links.next q p null ne, update_ne m.links.prev q p null ne))

pub inner_loop-IsPool :
    (left status order i lo hi : ℕ) (m : Memory) (free : Free) (c : List Ptr)
    → IsPool m free c
    → IsStatus status
    → IsClear free c lo hi
    → lo ≤ m.ppages_dscrs + sizeof_ppage * i
    → m.ppages_dscrs + sizeof_ppage * (i + left) ≤ hi
    → (m' : Memory) × (inner_loop status order left i m ≡ ok (tt, m'))
      × IsPool m' free c
      × SameShape m m'
unfolding inner_loop
inner_loop-IsPool zero status order i lo hi m free c pool st cl h h' =
    (m, refl, pool, (refl, refl, refl))
inner_loop-IsPool (suc left) status order i lo hi m free c pool st cl h h' =
    let q = m.ppages_dscrs + sizeof_ppage * i in
    let ne : q ≢ null = λ z. omega (arith, pool.array.base) in
    let m1 = cleared_inner m status order q in
    let (m', e, pool', shape) =
      inner_loop-IsPool left status order (i + 1) lo hi m1 free c
        (cleared_inner-IsPool m free c status order lo hi q pool cl h (omega arith)) st cl
        (omega arith) (omega arith) in
    (m', rw (init_inner-ok m status order q st ne) e, pool', shape)
