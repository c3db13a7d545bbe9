-- ===== src/Kernel/Creation.antt =====
-- The functions of src/kernel/mm/slab.c and src/kernel/mm/virtual_pages.c that need one another: a new
-- slab takes an object of the cache of slabs, a region of virtual pages and physical pages, and a new
-- region takes an object of the cache of regions.
use atros.Base.{
  ℕ, zero, suc, ◌+◌, ◌-◌, ◌*◌, ◌%◌, ◌^◌, not, leb, ltb, ◌==◌, if◌then◌else◌, out_of_fuel, Cmd, pure,
  ◌>>=◌, ◌>>◌, kassert, get, die,
}
use atros.LinkedLists.Links.{Ptr, null}
use atros.PhysicalPages.Blocks.{ppages_alloc, ppages_set_slab}
use atros.VirtualPages.Regions.{
  ObjsCache, vregion_alloc_of, vregion_first_vpn, vregion_last_vpn, read_region, edit_region,
}
use atros.Paging.Entries.{map_pages}
use atros.Slabs.State.{Slabs, read_cache, read_slab}
use atros.Slabs.Objects.{initialize_slab}
use atros.Slabs.Caches.{
  retrieve_free_obj, objs_cache_add_slab, objs_cache_init, actual_size, slab_status_free,
  vpage_size,
}
use atros.Kernel.State.{Kernel, on_memory, on_machine, on_regions, on_slabs}
use atros.Kernel.BootPages.{kernel_page_flags}

abbrev pub min_free_objs_cache_slab : ℕ
min_free_objs_cache_slab = 2

abbrev pub min_free_objs_cache_vregion : ℕ
min_free_objs_cache_vregion = 2

-- VPAGES_PER_SLAB_CACHE_OBJS_CACHE, VPAGES_PER_SLAB_CACHE_SLAB and VPAGES_PER_SLAB_CACHE_VREGION.
abbrev pub vpages_per_slab : ℕ
vpages_per_slab = 1

unfoldable pub objs_cache_free : Ptr → Ptr → Cmd Kernel (Unit {0})
objs_cache_free c obj = do kassert (not (c == null)); kassert (not (obj == null)); die

-- The regions' cache of objects: the slabs, with the pointer that the kernel keeps.
abbrev pub regions_cache : Ptr → ObjsCache Slabs
regions_cache c = record { retrieve_free_obj = retrieve_free_obj c }

-- _vregion_alloc, on the kernel's cache.
unfoldable pub region_alloc : ℕ → ℕ → Cmd Kernel Ptr
region_alloc fuel n = do
  k ← get
  on_regions (vregion_alloc_of fuel (regions_cache k.cache_vregion) n)

-- The common part of _create_slab_for_cache_Vregion and _create_slab_for_cache_Slab, which differ
-- only in the cache that gets the slab.
unfoldable pub create_slab_for : ℕ → Ptr → Cmd Kernel (Unit {0})
create_slab_for fuel c = do
  k ← get
  a_vregion ← region_alloc fuel vpages_per_slab
  a_slab ← on_slabs (retrieve_free_obj k.cache_slab)
  kassert (not (a_vregion == null))
  kassert (not (a_slab == null))
  ppn ← on_memory (ppages_alloc vpages_per_slab)
  v ← on_regions (read_region a_vregion)
  on_machine (map_pages ppn (vregion_first_vpn v) vpages_per_slab kernel_page_flags)
  d ← on_slabs (read_cache c)
  _ ← on_slabs (initialize_slab a_slab a_vregion v d.actual_obj_size 0)
  on_slabs (objs_cache_add_slab c a_slab slab_status_free)

-- The two functions call each other when the reserve of the other cache has lost its last object
-- but one. The fuel is for that recursion and for the loops over the lists of regions.
unfoldable mutual
  pub create_slab_for_cache_vregion : ℕ → Cmd Kernel (Unit {0})
  create_slab_for_cache_vregion zero = λ k. out_of_fuel
  create_slab_for_cache_vregion (suc fuel) = do
    k ← get
    d ← on_slabs (read_cache k.cache_vregion)
    kassert (leb (min_free_objs_cache_vregion - 1) d.free_objs_count)
    kassert (d.pages_per_slab == vpages_per_slab)
    create_slab_for fuel k.cache_vregion
    d' ← on_slabs (read_cache k.cache_slab)
    if d'.free_objs_count == min_free_objs_cache_slab - 1
        then create_slab_for_cache_slab fuel
        else pure tt

  pub create_slab_for_cache_slab : ℕ → Cmd Kernel (Unit {0})
  create_slab_for_cache_slab zero = λ k. out_of_fuel
  create_slab_for_cache_slab (suc fuel) = do
    k ← get
    d ← on_slabs (read_cache k.cache_slab)
    kassert (leb (min_free_objs_cache_slab - 1) d.free_objs_count)
    kassert (d.pages_per_slab == vpages_per_slab)
    create_slab_for fuel k.cache_slab
    d' ← on_slabs (read_cache k.cache_vregion)
    if d'.free_objs_count == min_free_objs_cache_vregion - 1
        then create_slab_for_cache_vregion fuel
        else pure tt

unfoldable pub vregion_alloc : ℕ → ℕ → Cmd Kernel Ptr
vregion_alloc fuel nbr_pages = do
  k ← get
  d ← on_slabs (read_cache k.cache_vregion)
  kassert (leb min_free_objs_cache_vregion d.free_objs_count)
  if d.free_objs_count == min_free_objs_cache_vregion
      then create_slab_for_cache_vregion fuel
      else pure tt
  region_alloc fuel nbr_pages

-- The part of create_slab that needs a region.
unfoldable pub fill_slab : Ptr → Ptr → ℕ → ℕ → Cmd Kernel Ptr
fill_slab new_slab slab_vregion nbr_pages actual_obj_size = do
  ppn ← on_memory (ppages_alloc nbr_pages)
  v ← on_regions (read_region slab_vregion)
  on_machine (map_pages ppn (vregion_first_vpn v) nbr_pages kernel_page_flags)
  _ ← on_slabs (initialize_slab new_slab slab_vregion v actual_obj_size 0)
  d ← on_slabs (read_slab new_slab)
  k ← get
  on_memory
      (ppages_set_slab ppn nbr_pages new_slab d.vregion (k.regions.region d.vregion).nbr_pages)
  pure new_slab

-- The two reserves that objs_cache_alloc looks after before it takes an object.
unfoldable pub keep_reserves : ℕ → Cmd Kernel (Unit {0})
keep_reserves fuel = do
  k ← get
  d ← on_slabs (read_cache k.cache_slab)
  kassert (leb min_free_objs_cache_slab d.free_objs_count)
  if d.free_objs_count == min_free_objs_cache_slab then create_slab_for_cache_slab fuel else pure tt
  d' ← on_slabs (read_cache k.cache_vregion)
  if d'.free_objs_count == min_free_objs_cache_vregion
      then create_slab_for_cache_vregion fuel
      else pure tt

-- create_slab takes an object of the cache of slabs, and objs_cache_alloc creates a slab for a cache
-- that has no free object.
unfoldable mutual
  pub objs_cache_alloc : ℕ → Ptr → Cmd Kernel Ptr
  objs_cache_alloc zero c = λ k. out_of_fuel
  objs_cache_alloc (suc fuel) c = do
    kassert (not (c == null))
    keep_reserves fuel
    d ← on_slabs (read_cache c)
    if d.free_objs_count == 0
        then (do
          new_slab ← create_slab fuel d.pages_per_slab d.actual_obj_size
          if new_slab == null
              then die
              else on_slabs (objs_cache_add_slab c new_slab slab_status_free))
        else pure tt
    obj ← on_slabs (retrieve_free_obj c)
    if obj == null then die else pure obj

  pub create_slab : ℕ → ℕ → ℕ → Cmd Kernel Ptr
  create_slab zero nbr_pages actual_obj_size = λ k. out_of_fuel
  create_slab (suc fuel) nbr_pages actual_obj_size = do
    k ← get
    new_slab ← objs_cache_alloc fuel k.cache_slab
    if new_slab == null then pure null else (do
      slab_vregion ← vregion_alloc fuel nbr_pages
      if slab_vregion == null
          then (do objs_cache_free k.cache_slab new_slab; pure null)
          else fill_slab new_slab slab_vregion nbr_pages actual_obj_size)

unfoldable pub objs_cache_create : ℕ → Ptr → ℕ → ℕ → Cmd Kernel Ptr
objs_cache_create fuel name obj_size pages_per_slab =
    if leb (actual_size obj_size) (pages_per_slab * vpage_size % 2 ^ 32)
    then (do
      k ← get
      new_cache ← objs_cache_alloc fuel k.cache_objs_cache
      if new_cache == null then pure null else (do
        _ ← on_slabs (objs_cache_init new_cache name obj_size pages_per_slab)
        pure new_cache))
    else pure null

-- vregion_merge with the regions in the order of their first pages.
unfoldable pub merge_ordered : Ptr → Ptr → Cmd Kernel Ptr
merge_ordered vregion1 vregion2 = do
  v1 ← on_regions (read_region vregion1)
  v2 ← on_regions (read_region vregion2)
  if (vregion_last_vpn v1 + 1) % 2 ^ 32 == vregion_first_vpn v2
      then (do
        on_regions (
            edit_region vregion1
              (λ v. record v { nbr_pages = (v.nbr_pages + v2.nbr_pages) % 2 ^ 32 }))
        k ← get
        objs_cache_free k.cache_vregion vregion2
        pure vregion1)
      else pure null

unfoldable pub vregion_merge : Ptr → Ptr → Cmd Kernel Ptr
vregion_merge vregion1 vregion2 = do
  kassert (not (vregion1 == null))
  kassert (not (vregion2 == null))
  v1 ← on_regions (read_region vregion1)
  v2 ← on_regions (read_region vregion2)
  if ltb (vregion_first_vpn v2) (vregion_first_vpn v1)
      then merge_ordered vregion2 vregion1
      else merge_ordered vregion1 vregion2
