-- ===== src/Kernel/Startup.antt =====
-- The set-up of the slab and virtual pages allocators: virtual_page_boot_init of
-- src/kernel/mm/virtual_pages.c and objs_cache_boot_init of src/kernel/mm/slab.c.
pub mod Order
use atros.Base.{
  ℕ, zero, suc, ◌+◌, ◌-◌, ◌*◌, ◌%◌, ◌^◌, not, leb, ltb, ◌==◌, if◌then◌else◌, out_of_fuel, ok, Cmd,
  pure, ◌>>=◌, ◌>>◌, kassert, get, put, die,
}
use atros.LinkedLists.Links.{Ptr, null}
use atros.LinkedLists.Simple.{follow, link}
use atros.PhysicalPages.Blocks.{ppages_alloc, ppages_set_slab}
use atros.VirtualPages.Regions.{
  Regions, Vregion, vregion_first_vpn, vregion_last_vpn, vpn_to_vaddr, read_region, vregion_init,
  on_next,
}
use atros.Paging.Entries.{map_pages}
use atros.Slabs.State.{Slabs, read_cache, read_slab}
use atros.Slabs.Objects.{initialize_slab}
use atros.Slabs.Caches.{objs_cache_init, objs_cache_add_slab, actual_size, slab_status_partial}
use atros.Kernel.State.{
  Kernel, boot_virtual_pages_alloc, on_memory, on_boot_vpages, on_machine, on_regions, on_slabs,
}
use atros.Kernel.BootPages.{kernel_page_flags}
use atros.Kernel.Creation.{
  objs_cache_alloc, vpages_per_slab, min_free_objs_cache_slab, min_free_objs_cache_vregion,
}

-- The sizes of the structures of slab.h and virtual_pages.h: the name of a cache has 21 bytes, and
-- 19 words follow it.
abbrev pub sizeof_objs_cache : ℕ
sizeof_objs_cache = 100

abbrev pub sizeof_slab : ℕ
sizeof_slab = 20

abbrev pub sizeof_vregion : ℕ
sizeof_vregion = 12

-- The test of two neighbours: the first ends before the second starts.
unfoldable pub check_pair : {C : Type 0} → Vregion → Vregion → Cmd (Regions C) (Unit {0})
check_pair v w =
    if ltb (vregion_first_vpn w) (vregion_first_vpn v)
    then die
    else if leb (vregion_first_vpn w) (vregion_last_vpn v)
    then die
    else pure tt

-- The loop of virtual_page_boot_init over the used regions, on fuel.
unfoldable pub check_order : {C : Type 0} → ℕ → Ptr → Cmd (Regions C) (Unit {0})
check_order zero current = λ s. out_of_fuel
check_order (suc fuel) current = if current == null then pure tt else (do
  next ← on_next (follow current)
  v ← read_region current
  if next == null then pure tt else (do w ← read_region next; check_pair v w)
  check_order fuel next)

unfoldable pub virtual_page_boot_init : ℕ → Ptr → Ptr → Cmd Kernel (Unit {0})
virtual_page_boot_init fuel cache first_used_vregion = do
  kassert (not (cache == null))
  kassert (not (first_used_vregion == null))
  d ← on_slabs (read_cache cache)
  kassert (ltb min_free_objs_cache_vregion d.free_objs_count)
  k ← get
  put (record k {
    cache_vregion = cache;
    regions = record k.regions { used_vregions = first_used_vregion };
  })
  on_regions (check_order fuel first_used_vregion)
  free_vregions ← objs_cache_alloc fuel cache
  k' ← get
  put (record k' { regions = record k'.regions { free_vregions = free_vregions } })
  if free_vregions == null then die else pure tt
  on_regions (
      vregion_init free_vregions k'.boot_vpages.first_free_vpn
        ((k'.boot_vpages.last_free_vpn + 2 ^ 32 - k'.boot_vpages.first_free_vpn + 1) % 2 ^ 32))

-- The three first regions, one behind the other at `p`, and their links.
unfoldable pub boot_regions : Ptr → ℕ → ℕ → ℕ → Cmd (Regions Slabs) (Unit {0})
boot_regions p vpn1 vpn2 vpn3 = do
  vregion_init p vpn1 vpages_per_slab
  vregion_init (p + sizeof_vregion) vpn2 vpages_per_slab
  vregion_init (p + 2 * sizeof_vregion) vpn3 vpages_per_slab
  on_next (link p (p + sizeof_vregion))
  on_next (link (p + sizeof_vregion) (p + 2 * sizeof_vregion))
  on_next (link (p + 2 * sizeof_vregion) null)

-- A first slab: its first three objects are in use.
unfoldable pub boot_slab : Ptr → Ptr → ℕ → Cmd Kernel (Unit {0})
boot_slab p vregion obj_size = do
  v ← on_regions (read_region vregion)
  _ ← on_slabs (initialize_slab p vregion v (actual_size obj_size) 3)
  pure tt

unfoldable pub boot_set_slab : ℕ → Ptr → Cmd Kernel (Unit {0})
boot_set_slab ppn p = do
  d ← on_slabs (read_slab p)
  k ← get
  on_memory (ppages_set_slab ppn vpages_per_slab p d.vregion (k.regions.region d.vregion).nbr_pages)

-- The caches of caches, slabs and regions, one behind the other at `c`; the addresses of their names
-- are those of constants of the program.
unfoldable pub boot_caches : Ptr → Ptr → Ptr → Ptr → Cmd Slabs (Unit {0})
boot_caches c name1 name2 name3 = do
  _ ← objs_cache_init c name1 sizeof_objs_cache vpages_per_slab
  _ ← objs_cache_init (c + sizeof_objs_cache) name2 sizeof_slab vpages_per_slab
  _ ← objs_cache_init (c + 2 * sizeof_objs_cache) name3 sizeof_vregion vpages_per_slab
  pure tt

unfoldable pub set_caches : Ptr → Cmd Kernel (Unit {0})
set_caches c k = ok (
  tt,
  record k {
    cache_objs_cache = c;
    cache_slab = c + sizeof_objs_cache;
    cache_vregion = c + 2 * sizeof_objs_cache;
  },
)

-- Each cache gets its first slab.
unfoldable pub boot_add_slabs : Ptr → Cmd Kernel (Unit {0})
boot_add_slabs p = do
  k ← get
  on_slabs (objs_cache_add_slab k.cache_objs_cache p slab_status_partial)
  on_slabs (objs_cache_add_slab k.cache_slab (p + sizeof_slab) slab_status_partial)
  on_slabs (objs_cache_add_slab k.cache_vregion (p + 2 * sizeof_slab) slab_status_partial)

unfoldable pub map_boot_page : ℕ → ℕ → Cmd Kernel (Unit {0})
map_boot_page ppn vpn = on_machine (map_pages ppn vpn vpages_per_slab kernel_page_flags)

-- Step 4 of objs_cache_boot_init, on the three mapped pages.
unfoldable pub boot_objects : ℕ → ℕ → ℕ → ℕ → ℕ → ℕ → Ptr → Ptr → Ptr → Cmd Kernel Ptr
boot_objects vpn1 vpn2 vpn3 ppn1 ppn2 ppn3 name1 name2 name3 = do
  let c = vpn_to_vaddr vpn1
  let p = vpn_to_vaddr vpn2
  let v = vpn_to_vaddr vpn3
  on_regions (boot_regions v vpn1 vpn2 vpn3)
  boot_slab p v sizeof_objs_cache
  boot_slab (p + sizeof_slab) (v + sizeof_vregion) sizeof_slab
  boot_slab (p + 2 * sizeof_slab) (v + 2 * sizeof_vregion) sizeof_vregion
  boot_set_slab ppn1 p
  boot_set_slab ppn2 (p + sizeof_slab)
  boot_set_slab ppn3 (p + 2 * sizeof_slab)
  on_slabs (boot_caches c name1 name2 name3)
  set_caches c
  boot_add_slabs p
  pure v

unfoldable pub objs_cache_boot_init : ℕ → Ptr → Ptr → Ptr → Cmd Kernel (Unit {0})
objs_cache_boot_init fuel name1 name2 name3 = do
  vpn1 ← on_boot_vpages (boot_virtual_pages_alloc vpages_per_slab)
  vpn2 ← on_boot_vpages (boot_virtual_pages_alloc vpages_per_slab)
  vpn3 ← on_boot_vpages (boot_virtual_pages_alloc vpages_per_slab)
  ppn1 ← on_memory (ppages_alloc vpages_per_slab)
  ppn2 ← on_memory (ppages_alloc vpages_per_slab)
  ppn3 ← on_memory (ppages_alloc vpages_per_slab)
  map_boot_page ppn1 vpn1
  map_boot_page ppn2 vpn2
  map_boot_page ppn3 vpn3
  v ← boot_objects vpn1 vpn2 vpn3 ppn1 ppn2 ppn3 name1 name2 name3
  k ← get
  d ← on_slabs (read_cache k.cache_slab)
  kassert (ltb min_free_objs_cache_slab d.free_objs_count)
  virtual_page_boot_init fuel k.cache_vregion v
