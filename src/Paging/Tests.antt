-- ===== src/Paging/Tests.antt =====
-- The theorems about src/arch/x86/paging.c at a concrete machine.
use atros.Base.{◌/◌, ◌≡◌, refl, ok, inl, arith}
use atros.Paging.Processor.{Machine, walk}
use atros.Paging.Entries.{virt_to_phys_addr, map_page, map_pages}
use atros.Paging.Translation.{or_null, IsWords, virt_to_phys_addr-walk}
use atros.Paging.Mapping.{IsPaged, Maps, map_page-Maps}
use atros.Paging.Range.{map_pages-Maps}
use atros.Paging.Examples.{two_tables, two_tables-IsRecursive, two_tables-IsPaged}
use atros.Paging.Boot.{paging_boot_init}
use atros.Paging.Boot.Layout.{IsLoaded, boot_translation, paging_boot_init-translation}

-- A directory at page 1 and a table at page 2, for the kernel space and the window; the image from
-- 1 MB to 1.5 MB is loaded.
abbrev zeros : Machine
zeros = record { phys = λ a. 0; cr3 = 0 }

loaded : IsLoaded 4096 8192 0x100000 0x180000
loaded = record {
  directory = omega arith;
  table = omega arith;
  apart = λ e. omega arith;
  start = omega arith;
  end = omega arith;
}

paging_boot_init-translation_example :
    IsPaged (paging_boot_init 4096 8192 0x100000 0x180000 zeros)
    × (walk (paging_boot_init 4096 8192 0x100000 0x180000 zeros) 0xc0123456
        ≡ boot_translation 0x100000 0x180000 0xc0123456)
paging_boot_init-translation_example =
    paging_boot_init-translation 4096 8192 0x100000 0x180000 zeros 0xc0123456 loaded (omega arith)
      (λ e. omega arith)

two_tables-IsWords : IsWords two_tables
two_tables-IsWords a = ground arith

virt_to_phys_addr-walk_example :
    virt_to_phys_addr 0xc0001234 two_tables ≡ ok (or_null (walk two_tables 0xc0001234), two_tables)
virt_to_phys_addr-walk_example =
    virt_to_phys_addr-walk two_tables 0xc0001234 two_tables-IsRecursive two_tables-IsWords
      (omega arith) (inl refl)

map_page-Maps_example : Maps two_tables 5 0xc0007 1 (map_page 5 0xc0007 3 two_tables)
map_page-Maps_example =
    map_page-Maps two_tables 5 0xc0007 3 two_tables-IsPaged (omega arith) (omega arith)
      (omega arith) (omega arith) (refl, refl)

map_pages-Maps_example : Maps two_tables 5 0xc0007 3 (map_pages 5 0xc0007 3 3 two_tables)
map_pages-Maps_example =
    map_pages-Maps 3 5 0xc0007 3 two_tables two_tables-IsPaged (omega arith) (omega arith)
      (omega arith) (omega arith)
      (λ v h h'. let e : v / 1024 ≡ 768 = omega arith in rw e (refl, refl))
