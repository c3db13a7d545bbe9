-- ===== src/Descriptors/Gdt.antt =====
-- src/arch/x86/gdt.c: the table of segment descriptors.
use atros.Base.{ℕ, ◌+◌, ◌-◌, ◌*◌, ◌/◌, ◌%◌, ◌^◌, ltb, if◌then◌else◌, bit_and, bit_or}
use atros.LinkedLists.Links.{update}

pub record GdtEntry : Type 0 where
  pub seg_limit_0_15 : ℕ
  pub base_addr_0_15 : ℕ
  pub base_addr_16_23 : ℕ
  pub flags1 : ℕ
  pub flags2 : ℕ
  pub base_addr_24_31 : ℕ

-- The table kgdt.
abbrev pub Gdt : Type 0
Gdt = ℕ → GdtEntry

abbrev pub nbr_gdt_entries : ℕ
nbr_gdt_entries = 16

abbrev pub gdt_kernel_cs_index : ℕ
gdt_kernel_cs_index = 1

abbrev pub gdt_kernel_ds_index : ℕ
gdt_kernel_ds_index = 2

abbrev pub gdt_user_cs_index : ℕ
gdt_user_cs_index = 3

abbrev pub gdt_user_ds_index : ℕ
gdt_user_ds_index = 4

-- The fields are cut to their width.
unfoldable pub gdt_entry : ℕ → ℕ → ℕ → ℕ → GdtEntry
gdt_entry base limit flags1 flags2 = record {
  seg_limit_0_15 = bit_and limit (2 ^ 16 - 1) % 2 ^ 16;
  base_addr_0_15 = bit_and base (2 ^ 16 - 1) % 2 ^ 16;
  base_addr_16_23 = bit_and (base / 2 ^ 16) (2 ^ 8 - 1) % 2 ^ 8;
  flags1 = flags1;
  flags2 = bit_or flags2 (bit_and (limit / 2 ^ 16) (2 ^ 8 - 1) % 2 ^ 8);
  base_addr_24_31 = bit_and (base / 2 ^ 24) (2 ^ 8 - 1) % 2 ^ 8;
}

unfoldable pub set_gdt_entry : ℕ → ℕ → ℕ → ℕ → ℕ → Gdt → Gdt
set_gdt_entry n base limit flags1 flags2 kgdt =
    if ltb n nbr_gdt_entries then update kgdt n (gdt_entry base limit flags1 flags2) else kgdt

-- The flags of a segment: GDT_CODE_SEGMENT + GDT_CODE_XR, GDT_DATA_SEGMENT + GDT_DATA_RW,
-- GDT_PRESENT, GDT_DPL3, and GDT_32B + GDT_GRANULARITY_4KB.
abbrev pub code_flags : ℕ
code_flags = 16 + 8 + 2

abbrev pub data_flags : ℕ
data_flags = 16 + 0 + 2

abbrev pub gdt_present : ℕ
gdt_present = 2 ^ 7

abbrev pub gdt_dpl3 : ℕ
gdt_dpl3 = 3 * 2 ^ 5

abbrev pub size_flags : ℕ
size_flags = 2 ^ 6 + 2 ^ 7

-- gdt_init without gdt_flush, which is assembly.
unfoldable pub gdt_init : Gdt → Gdt
gdt_init kgdt =
    let g0 = set_gdt_entry 0 0 0 0 0 kgdt in
    let g1 =
      set_gdt_entry gdt_kernel_cs_index 0 0xFFFFF (code_flags + gdt_present + 0) size_flags g0 in
    let g2 =
      set_gdt_entry gdt_kernel_ds_index 0 0xFFFFF (data_flags + gdt_present + 0) size_flags g1 in
    let g3 =
      set_gdt_entry gdt_user_cs_index 0 0xFFFFF (code_flags + gdt_present + gdt_dpl3) size_flags
        g2 in
    set_gdt_entry gdt_user_ds_index 0 0xFFFFF (data_flags + gdt_present + gdt_dpl3) size_flags g3
