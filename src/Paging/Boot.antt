-- ===== src/Paging/Boot.antt =====
-- paging_boot_init of src/arch/x86/paging.c. While it runs, the boot code maps the kernel space at a
-- fixed distance from the physical memory, so its writes are writes to physical words. The linker
-- gives the addresses of the directory, of the first table, and the bounds of the kernel image.
pub mod Fill
pub mod Layout
use atros.Base.{ℕ, zero, suc, ◌+◌, ◌-◌, ◌*◌, ◌/◌, ◌%◌, ◌^◌, leb, ◌==◌, if◌then◌else◌, bit_or}
use atros.LinkedLists.Links.{update}
use atros.PhysicalPages.Address.{paddr_to_ppn}
use atros.Paging.Processor.{Machine}
use atros.Paging.Entries.{page_present, page_read_write, rec_paging_entry}

-- ROUNDUP of math.h.
unfoldable pub round_up : ℕ → ℕ → ℕ
round_up x align = (x / align + (if x % align == 0 then 0 else 1)) * align % 2 ^ 32

abbrev pub Words : Type 0
Words = ℕ → ℕ

-- memset with 0 of a table of words.
unfoldable pub clear_words : ℕ → ℕ → Words → Words
clear_words zero a phys = phys
clear_words (suc n) a phys = clear_words n (a + 4) (update phys a 0)

unfoldable pub boot_entry : ℕ → ℕ
boot_entry paddr = bit_or (bit_or (bit_or paddr 0) page_read_write) page_present

-- Entries of the first page table, with `left` pages to go from page `i`.
unfoldable pub identity_entries : ℕ → ℕ → ℕ → Words → Words
identity_entries zero i first_kpgt phys = phys
identity_entries (suc left) i first_kpgt phys =
    identity_entries left (i + 1) first_kpgt
      (update phys (first_kpgt + 4 * i) (boot_entry (i * 2 ^ 12 % 2 ^ 32)))

-- The kernel directory and the first table are at the physical addresses `kpgd` and `first_kpgt`;
-- the kernel space starts at 3 GB, which is entry 768 of the directory. The image is not empty, so
-- its last page has a number.
unfoldable pub paging_boot_init : ℕ → ℕ → ℕ → ℕ → Machine → Machine
paging_boot_init kpgd first_kpgt boot_pa_start kernel_pa_end m =
    let cleared = clear_words 1024 first_kpgt (clear_words 1024 kpgd m.phys) in
    let kernel = update cleared (kpgd + 4 * (0xc0000000 / 2 ^ 22)) (boot_entry first_kpgt) in
    let recursive = update kernel (kpgd + 4 * rec_paging_entry) (boot_entry kpgd) in
    let first = paddr_to_ppn boot_pa_start in
    let last = paddr_to_ppn (round_up kernel_pa_end 4096) - 1 in
    let image = identity_entries (last + 1 - first) first first_kpgt recursive in
    record { phys = identity_entries 256 0 first_kpgt image; cr3 = kpgd }
