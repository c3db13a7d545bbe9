-- ===== src/Kernel/Tests.antt =====
-- The theorems about the memory management of src/kernel/mm as a whole at concrete states.
use atros.Base.{false, ◌≡◌, refl, arith, ◌/◌}
use atros.PhysicalPages.State.{Memory}
use atros.Slabs.State.{Slabs}
use atros.Paging.Examples.{two_tables, two_tables-IsPaged}
use atros.Paging.Boot.{round_up}
use atros.Kernel.State.{Kernel}
use atros.Kernel.BootPages.{
  BootsPages, IsBooting, dscrs_pages, physical_page_boot_init, physical_page_boot_init-BootsPages,
}

abbrev no_memory : Memory
no_memory = record {
  ppages_dscrs = 0;
  first_ppn = 0;
  last_ppn = 0;
  page = λ p. record { block_head = false; block_order = 0; count = 0; slab = 0; mapping = 0 };
  links = record { next = λ p. 0; prev = λ p. 0 };
  free_lists = λ k. 0;
  used_lists = λ k. 0;
}

abbrev no_slabs : Slabs
no_slabs = record {
  objects = λ p. 0;
  slab = λ p. record { free_objs_count = 0; vregion = 0; free_objs_list = 0 };
  slab_links = record { next = λ p. 0; prev = λ p. 0 };
  cache = λ p. record {
    obj_size = 0;
    actual_obj_size = 0;
    pages_per_slab = 0;
    slab_size = 0;
    objs_per_slab = 0;
    wasted_memory_per_slab = 0;
    free_objs_count = 0;
    used_objs_count = 0;
    slabs_count = 0;
    free_slabs_count = 0;
    partial_slabs_count = 0;
    full_slabs_count = 0;
    free_slabs = 0;
    partial_slabs = 0;
    full_slabs = 0;
  };
  cache_links = record { next = λ p. 0; prev = λ p. 0 };
  caches_clist = 0;
  bytes = λ p. 0;
}

-- A kernel whose image ends at page 272, with the boot pages up to 4 MB.
abbrev booting : Kernel
booting = record {
  memory = no_memory;
  boot_pages = record { first_free_ppn = 272; last_free_ppn = 1023 };
  boot_vpages = record { first_free_vpn = 0xc0110; last_free_vpn = 0xc03ff };
  machine = two_tables;
  regions = record {
    region = λ p. record { first_vpn = 0; nbr_pages = 0 };
    next = λ p. 0;
    free_vregions = 0;
    used_vregions = 0;
    cache = no_slabs;
  };
  cache_objs_cache = 0;
  cache_slab = 0;
  cache_vregion = 0;
}

six_pages : dscrs_pages 0 1023 ≡ 6
unfolding dscrs_pages round_up
six_pages = refl

booting-IsBooting : IsBooting booting (dscrs_pages 0 1023)
booting-IsBooting = rw six_pages (record {
  ppages = omega arith;
  ppages_small = omega arith;
  vpages_above = omega arith;
  vpages = omega arith;
  vpages_below = omega arith;
  paged = two_tables-IsPaged;
  tables = λ v h h'. let e : v / 1024 ≡ 768 = omega arith in rw e (refl, refl);
  no_free = λ j. refl;
  no_used = λ j. refl;
})

physical_page_boot_init-BootsPages_example :
    BootsPages booting
      (0x100000 / 4096)
      1023
      (dscrs_pages 0 1023)
      (physical_page_boot_init 0x100000 0x110000 0 1023 booting)
physical_page_boot_init-BootsPages_example =
    physical_page_boot_init-BootsPages 0x100000 0x110000 1023 booting (omega arith) (omega arith)
      (omega arith) refl (omega arith) (omega arith) booting-IsBooting
