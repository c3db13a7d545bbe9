-- ===== src/PhysicalPages/Address.antt =====
-- Page numbers and addresses of src/kernel/mm/physical_pages.c. Addresses and page numbers are
-- 32-bit words.
use atros.Base.{ℕ, ◌+◌, ◌-◌, ◌*◌, ◌/◌, ◌%◌, ◌^◌, ◌<◌, ◌≤◌, ◌≡◌, bit_and, bit_and_align, arith}

abbrev pub ppage_shift : ℕ
ppage_shift = 12

abbrev pub ppage_size : ℕ
ppage_size = 4096

unfoldable pub ppage_paddr_of : ℕ → ℕ
ppage_paddr_of paddr = bit_and paddr (2 ^ 32 - 1 - (4096 - 1))

unfoldable pub paddr_to_ppn : ℕ → ℕ
paddr_to_ppn paddr = paddr / 2 ^ 12

unfoldable pub ppn_of : ℕ → ℕ
unfolding ppage_paddr_of paddr_to_ppn
ppn_of paddr = paddr_to_ppn (ppage_paddr_of paddr)

unfoldable pub ppn_to_paddr : ℕ → ℕ
ppn_to_paddr ppn = ppn * 2 ^ 12 % 2 ^ 32

-- (paddr & ~((1UL << PPAGE_SHIFT) - 1)) >> PPAGE_SHIFT, the page that paddr_to_ppage looks up.
unfoldable pub page_of_paddr : ℕ → ℕ
page_of_paddr paddr = bit_and paddr (2 ^ 32 - 1 - (4096 - 1)) / 2 ^ 12

pub page_mask : (a : ℕ) → a < 2 ^ 32 → bit_and a (2 ^ 32 - 1 - (4096 - 1)) ≡ a / 4096 * 4096
page_mask a h = bit_and_align 20 12 a (omega arith)

-- An address of a page is in the page that ppn_of names, at its offset from the page's address.
pub ppn_of-page :
    (paddr : ℕ)
    → paddr < 2 ^ 32
    → (ppn_to_paddr (ppn_of paddr) ≡ ppage_paddr_of paddr)
      × (ppn_to_paddr (ppn_of paddr) ≤ paddr)
      × (paddr < ppn_to_paddr (ppn_of paddr) + 4096)
unfolding ppn_of ppn_to_paddr
ppn_of-page paddr h = omega (arith, page_mask paddr h)

-- Page numbers of a 32-bit address space and page addresses correspond.
pub paddr_to_ppn-ppn_to_paddr : (ppn : ℕ) → ppn < 2 ^ 20 → paddr_to_ppn (ppn_to_paddr ppn) ≡ ppn
unfolding paddr_to_ppn ppn_to_paddr
paddr_to_ppn-ppn_to_paddr ppn h = omega arith
