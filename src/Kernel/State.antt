-- ===== src/Kernel/State.antt =====
-- The state of the whole memory management, src/kernel/mm with the page tables of
-- src/arch/x86/paging.c, and the allocator of virtual pages for the boot phase of
-- src/kernel/mm/virtual_pages.c.
use atros.Base.{ℕ, ◌+◌, ◌-◌, ◌%◌, ◌^◌, leb, if◌then◌else◌, Cmd, ok, panic, and_then}
use atros.LinkedLists.Links.{Ptr}
use atros.PhysicalPages.State.{Memory}
use atros.PhysicalPages.Range.{BootPages}
use atros.VirtualPages.Regions.{Regions}
use atros.Paging.Processor.{Machine}
use atros.Slabs.State.{Slabs}

-- _boot_first_free_vpn and _boot_last_free_vpn.
pub record BootVpages : Type 0 where
  pub first_free_vpn : ℕ
  pub last_free_vpn : ℕ

unfoldable pub boot_virtual_pages_init : ℕ → ℕ → BootVpages
boot_virtual_pages_init first last = record { first_free_vpn = first; last_free_vpn = last }

unfoldable pub boot_virtual_pages_alloc : ℕ → Cmd BootVpages ℕ
boot_virtual_pages_alloc nbr_vpages b =
    if leb ((b.first_free_vpn + nbr_vpages + 2 ^ 32 - 1) % 2 ^ 32) b.last_free_vpn
    then ok
        (b.first_free_vpn, record b { first_free_vpn = (b.first_free_vpn + nbr_vpages) % 2 ^ 32 })
    else panic

-- The physical pages, both boot allocators, the page tables, the regions of virtual pages with the
-- slabs as their `cache`, and the pointers to the three caches that the allocators themselves use.
-- cache_Vregion stands in slab.c and in virtual_pages.c, with the same value once both are set up.
pub record Kernel : Type 0 where
  pub memory : Memory
  pub boot_pages : BootPages
  pub boot_vpages : BootVpages
  pub machine : Machine
  pub regions : Regions Slabs
  pub cache_objs_cache : Ptr
  pub cache_slab : Ptr
  pub cache_vregion : Ptr

-- The operations of a part, run on the whole.
module _ {A : Type 0} where
  unfoldable pub on_memory : Cmd Memory A → Cmd Kernel A
  on_memory c k = and_then (c k.memory) (λ (a, m). ok (a, record k { memory = m }))

  unfoldable pub on_boot_pages : Cmd BootPages A → Cmd Kernel A
  on_boot_pages c k = and_then (c k.boot_pages) (λ (a, b). ok (a, record k { boot_pages = b }))

  unfoldable pub on_boot_vpages : Cmd BootVpages A → Cmd Kernel A
  on_boot_vpages c k = and_then (c k.boot_vpages) (λ (a, b). ok (a, record k { boot_vpages = b }))

  unfoldable pub on_machine : Cmd Machine A → Cmd Kernel A
  on_machine c k = and_then (c k.machine) (λ (a, m). ok (a, record k { machine = m }))

  unfoldable pub on_regions : Cmd (Regions Slabs) A → Cmd Kernel A
  on_regions c k = and_then (c k.regions) (λ (a, r). ok (a, record k { regions = r }))

  unfoldable pub on_slabs : Cmd Slabs A → Cmd Kernel A
  on_slabs c k =
      and_then (c k.regions.cache)
        (λ (a, s). ok (a, record k { regions = record k.regions { cache = s } }))
