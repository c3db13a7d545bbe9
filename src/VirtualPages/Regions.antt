-- ===== src/VirtualPages/Regions.antt =====
-- The state and the functions of src/kernel/mm/virtual_pages.c.
use atros.Base.{
  ℕ, zero, suc, ◌+◌, ◌-◌, ◌*◌, ◌/◌, ◌%◌, ◌^◌, Bool, not, ◌&&◌, ◌||◌, ◌==◌, ltb, leb, if◌then◌else◌,
  Outcome, ok, panic, fault, out_of_fuel, Cmd, pure, ◌>>=◌, ◌>>◌, kassert, get, put, die, and_then,
  bit_and,
}
use atros.LinkedLists.Links.{Ptr, null, update}
use atros.LinkedLists.Simple.{
  Nexts, Sign, minus, equal, plus, Compare, follow, list_delete_el, list_insert_after,
  list_insert_ordered,
}

pub record Vregion : Type 0 where
  pub first_vpn : ℕ
  pub nbr_pages : ℕ

-- The slab allocator as the virtual pages see it: the state of its cache of regions, from which an
-- object is retrieved, or NULL.
pub record ObjsCache (C : Type 0) : Type 0 where
  pub retrieve_free_obj : C → Outcome (Ptr × C)

-- The regions at their addresses, their links, the two lists, and the cache.
pub record Regions (C : Type 0) : Type 0 where
  pub region : Ptr → Vregion
  pub next : Nexts
  pub free_vregions : Ptr
  pub used_vregions : Ptr
  pub cache : C

unfoldable pub vpn_to_vaddr : ℕ → ℕ
vpn_to_vaddr vpn = vpn * 2 ^ 12 % 2 ^ 32

unfoldable pub vaddr_to_vpn : ℕ → ℕ
vaddr_to_vpn vaddr = vaddr / 2 ^ 12

unfoldable pub vpage_vaddr_of : ℕ → ℕ
vpage_vaddr_of vaddr = bit_and vaddr (2 ^ 32 - 2 ^ 12)

unfoldable pub vregion_size : Vregion → ℕ
vregion_size v = v.nbr_pages * 2 ^ 12 % 2 ^ 32

unfoldable pub vregion_first_vpn : Vregion → ℕ
vregion_first_vpn v = v.first_vpn

unfoldable pub vregion_last_vpn : Vregion → ℕ
vregion_last_vpn v = (v.first_vpn + v.nbr_pages + 2 ^ 32 - 1) % 2 ^ 32

-- The third assertion of vregion_cmp: the regions are in the same order by first and last page.
unfoldable pub are_comparable : Vregion → Vregion → Bool
are_comparable a b =
    (leb (vregion_first_vpn a) (vregion_first_vpn b)
      && leb (vregion_last_vpn a) (vregion_last_vpn b))
    || (leb (vregion_first_vpn b) (vregion_first_vpn a)
        && leb (vregion_last_vpn b) (vregion_last_vpn a))

unfoldable pub vregion_sign : Vregion → Vregion → Sign
vregion_sign a b =
    if vregion_first_vpn b == vregion_first_vpn a
    then equal
    else if ltb (vregion_first_vpn a) (vregion_first_vpn b)
    then plus
    else minus

unfoldable pub vregion_cmp : (Ptr → Vregion) → Compare
vregion_cmp region p q =
    if p == null
    then panic
    else if q == null
    then panic
    else if are_comparable (region p) (region q)
    then ok (vregion_sign (region p) (region q))
    else panic

module _ {C : Type 0} where
  unfoldable pub on_next : {A : Type 0} → Cmd Nexts A → Cmd (Regions C) A
  on_next c s = and_then (c s.next) (λ (a, l). ok (a, record s { next = l }))

  unfoldable pub read_region : Ptr → Cmd (Regions C) Vregion
  read_region p s = if p == null then fault else ok (s.region p, s)

  unfoldable pub edit_region : Ptr → (Vregion → Vregion) → Cmd (Regions C) (Unit {0})
  edit_region p f s =
      if p == null then fault else ok (tt, record s { region = update s.region p (f (s.region p)) })

  unfoldable pub retrieve : ObjsCache C → Cmd (Regions C) Ptr
  retrieve objs s =
      and_then (objs.retrieve_free_obj s.cache) (λ (p, c). ok (p, record s { cache = c }))

  unfoldable pub vregion_split : ObjsCache C → Ptr → ℕ → Cmd (Regions C) Ptr
  vregion_split objs p n = do
    kassert (not (p == null))
    v ← read_region p
    kassert (ltb n v.nbr_pages)
    upper ← retrieve objs
    if upper == null then die else (do
      edit_region upper (λ u. record u { first_vpn = (vregion_first_vpn v + n) % 2 ^ 32 })
      v' ← read_region p
      edit_region upper (λ u. record u { nbr_pages = v'.nbr_pages - n })
      edit_region p (λ u. record u { nbr_pages = n })
      pure upper)

  unfoldable pub vregion_init : Ptr → ℕ → ℕ → Cmd (Regions C) (Unit {0})
  vregion_init p first_vpn nbr_pages = do
    kassert (not (p == null))
    edit_region p (λ u. record u { first_vpn = first_vpn })
    edit_region p (λ u. record u { nbr_pages = nbr_pages })

  -- The loop of _vregion_alloc, on fuel: the first region that is large enough, or NULL, and the
  -- one before it.
  unfoldable pub first_fit : ℕ → ℕ → Ptr → Ptr → Cmd (Regions C) (Ptr × Ptr)
  first_fit zero n prev current = λ s. out_of_fuel
  first_fit (suc fuel) n prev current = if current == null then pure (prev, null) else (do
    v ← read_region current
    if leb n v.nbr_pages
        then pure (prev, current)
        else (do next ← on_next (follow current); first_fit fuel n current next))

  unfoldable pub unlist_free : Ptr → Ptr → Cmd (Regions C) (Unit {0})
  unlist_free prev current = do
    s ← get
    list ← on_next (list_delete_el s.free_vregions prev current)
    s' ← get
    put (record s' { free_vregions = list })

  -- The part of a region that is too big goes back to the free list.
  unfoldable pub give_rest : ObjsCache C → ℕ → Ptr → Ptr → Cmd (Regions C) (Unit {0})
  give_rest objs n prev current = do
    v ← read_region current
    if ltb n v.nbr_pages
        then (do
          upper ← vregion_split objs current n
          kassert (not (upper == null))
          s ← get
          list ← on_next (list_insert_after s.free_vregions prev upper)
          s' ← get
          put (record s' { free_vregions = list }))
        else pure tt

  unfoldable pub enlist_used : ℕ → Ptr → Cmd (Regions C) (Unit {0})
  enlist_used fuel current = do
    s ← get
    list ← on_next (list_insert_ordered fuel (vregion_cmp s.region) s.used_vregions current)
    s' ← get
    put (record s' { used_vregions = list })

  -- _vregion_alloc. The fuel is for its two loops over the lists.
  unfoldable pub vregion_alloc_of : ℕ → ObjsCache C → ℕ → Cmd (Regions C) Ptr
  vregion_alloc_of fuel objs n = do
    s ← get
    kassert (not (s.free_vregions == null))
    (prev, current) ← first_fit fuel n null s.free_vregions
    if current == null then pure null else (do
      unlist_free prev current
      give_rest objs n prev current
      enlist_used fuel current
      pure current)
