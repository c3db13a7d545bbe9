-- ===== src/Paging/Entries.antt =====
-- The functions of src/arch/x86/paging.c on entries, addresses and pages.
use atros.Base.{
  ℕ, zero, suc, ◌+◌, ◌-◌, ◌*◌, ◌/◌, ◌%◌, ◌^◌, ◌==◌, if◌then◌else◌, Cmd, pure, ◌>>=◌, ◌>>◌, die,
  bit_and, bit_or,
}
use atros.PhysicalPages.Address.{ppn_to_paddr}
use atros.VirtualPages.Regions.{vpn_to_vaddr}
use atros.Paging.Processor.{Machine, load, store}

abbrev pub page_present : ℕ
page_present = 1

abbrev pub page_read_write : ℕ
page_read_write = 2

abbrev pub page_4mb : ℕ
page_4mb = 128

abbrev pub rec_paging_entry : ℕ
rec_paging_entry = 1023

unfoldable pub get_pde_index_of : ℕ → ℕ
get_pde_index_of vaddr = vaddr / 2 ^ 22

unfoldable pub get_pte_index_of : ℕ → ℕ
get_pte_index_of vaddr = bit_and (vaddr / 2 ^ 12) (2 ^ 10 - 1)

unfoldable pub get_addr_of_pte : ℕ → ℕ
get_addr_of_pte pte = bit_and pte (2 ^ 32 - 1 - (2 ^ 12 - 1))

-- The mask is that of get_addr_of_pte, also for the entry of a 4 MB page.
unfoldable pub get_addr_of_pde : ℕ → ℕ
get_addr_of_pde pde = bit_and pde (2 ^ 32 - 1 - (2 ^ 12 - 1))

-- The virtual addresses of the entries, as 32-bit words.
unfoldable pub rec_pde_vaddr : ℕ → ℕ
rec_pde_vaddr pde_index =
    (rec_paging_entry * 2 ^ 22 + rec_paging_entry * 2 ^ 12 + pde_index * 4) % 2 ^ 32

unfoldable pub rec_pte_vaddr : ℕ → ℕ → ℕ
rec_pte_vaddr pde_index pte_index =
    (rec_paging_entry * 2 ^ 22 + pde_index * 2 ^ 12 + pte_index * 4) % 2 ^ 32

unfoldable pub set_pde : ℕ → ℕ → Cmd Machine (Unit {0})
set_pde pde_index pde = store (rec_pde_vaddr pde_index) pde

unfoldable pub get_pde : ℕ → Cmd Machine ℕ
get_pde pde_index = load (rec_pde_vaddr pde_index)

unfoldable pub set_pte : ℕ → ℕ → ℕ → Cmd Machine (Unit {0})
set_pte pde_index pte_index pte = store (rec_pte_vaddr pde_index pte_index) pte

unfoldable pub get_pte : ℕ → ℕ → Cmd Machine ℕ
get_pte pde_index pte_index = load (rec_pte_vaddr pde_index pte_index)

-- The part of virt_to_phys_addr for a page of a page table.
unfoldable pub phys_addr_of_pte : ℕ → ℕ → ℕ
phys_addr_of_pte vaddr pte =
    if bit_and pte page_present == 0
    then 0
    else (get_addr_of_pte pte + bit_and vaddr (2 ^ 12 - 1)) % 2 ^ 32

-- The result is NULL where there is no page.
unfoldable pub virt_to_phys_addr : ℕ → Cmd Machine ℕ
virt_to_phys_addr vaddr = do
  pde ← get_pde (get_pde_index_of vaddr)
  if bit_and pde page_present == 0
      then pure 0
      else if bit_and pde page_4mb == 0
      then (do
        pte ← get_pte (get_pde_index_of vaddr) (get_pte_index_of vaddr)
        pure (phys_addr_of_pte vaddr pte))
      else pure ((get_addr_of_pde pde + bit_and vaddr (2 ^ 22 - 1)) % 2 ^ 32)

-- The part of map_page for a page of 4 KB.
unfoldable pub map_small_page : ℕ → ℕ → ℕ → Cmd Machine (Unit {0})
map_small_page paddr vaddr flags = do
  pde ← get_pde (get_pde_index_of vaddr)
  if bit_and pde page_present == 0
      then die
      else set_pte (get_pde_index_of vaddr) (get_pte_index_of vaddr) (bit_or paddr flags)

unfoldable pub map_page : ℕ → ℕ → ℕ → Cmd Machine (Unit {0})
map_page ppn vpn flags =
    if vpn_to_vaddr vpn == 0
    then die
    else if bit_and flags page_4mb == 0
    then map_small_page (ppn_to_paddr ppn) (vpn_to_vaddr vpn) flags
    else die

unfoldable pub map_pages_loop : ℕ → ℕ → ℕ → ℕ → Cmd Machine (Unit {0})
map_pages_loop zero ppn vpn flags = pure tt
map_pages_loop (suc nbr_pages) ppn vpn flags = do
  map_page ppn vpn flags
  map_pages_loop nbr_pages ((ppn + 1) % 2 ^ 32) ((vpn + 1) % 2 ^ 32) flags

unfoldable pub map_pages : ℕ → ℕ → ℕ → ℕ → Cmd Machine (Unit {0})
map_pages ppn vpn nbr_pages flags = if vpn == 0 then die else map_pages_loop nbr_pages ppn vpn flags
