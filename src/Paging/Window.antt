-- ===== src/Paging/Window.antt =====
-- The window on the page tables that the last entry of the page directory opens: the accesses of
-- src/arch/x86/paging.c through it reach the directory and the tables.
use atros.Base.{ℕ, ◌+◌, ◌*◌, ◌/◌, ◌%◌, ◌^◌, ◌<◌, ◌≡◌, refl, arith, ok, some}
use atros.LinkedLists.Links.{update}
use atros.Paging.Processor.{Machine, walk, load, store}
use atros.Paging.Entries.{get_pde, get_pte, set_pte, rec_pde_vaddr, rec_pte_vaddr}

abbrev pub pde_of : Machine → ℕ → ℕ
pde_of m d = m.phys (m.cr3 + 4 * d)

-- The frame that an entry names.
abbrev pub frame : ℕ → ℕ
frame e = e / 4096 * 4096

abbrev pub IsPresent : ℕ → Type 0
IsPresent e = e % 2 ≡ 1

-- The entry names a page table, not a page of 4 MB.
abbrev pub NamesTable : ℕ → Type 0
NamesTable e = e / 128 % 2 ≡ 0

-- The last entry of the page directory names the directory itself as a page table.
pub record IsRecursive (m : Machine) : Type 0 where
  pub aligned : m.cr3 % 4096 ≡ 0
  pub to_itself : frame (pde_of m 1023) ≡ m.cr3
  pub present : IsPresent (pde_of m 1023)
  pub small : NamesTable (pde_of m 1023)

rec_pte_vaddr_parts :
    (d t : ℕ)
    → d < 1024
    → t < 1024
    → (rec_pte_vaddr d t / 2 ^ 22 ≡ 1023)
      × (rec_pte_vaddr d t / 4096 % 1024 ≡ d)
      × (rec_pte_vaddr d t % 4096 ≡ 4 * t)
unfolding rec_pte_vaddr
rec_pte_vaddr_parts d t h h' = (omega arith, omega arith, omega arith)

walk-rec_pte_vaddr :
    (m : Machine) (d t : ℕ)
    → IsRecursive m
    → d < 1024
    → t < 1024
    → IsPresent (pde_of m d)
    → walk m (rec_pte_vaddr d t) ≡ some (frame (pde_of m d) + 4 * t)
unfolding walk
walk-rec_pte_vaddr m d t r h h' p =
    let (a, b, c) = rec_pte_vaddr_parts d t h h' in
    rw (a, b, c, r.present, r.small, r.to_itself, p) refl

pub get_pte-ok :
    (m : Machine) (d t : ℕ)
    → IsRecursive m
    → d < 1024
    → t < 1024
    → IsPresent (pde_of m d)
    → get_pte d t m ≡ ok (m.phys (frame (pde_of m d) + 4 * t), m)
unfolding get_pte load
get_pte-ok m d t r h h' p = rw (walk-rec_pte_vaddr m d t r h h' p) refl

pub set_pte-ok :
    (m : Machine) (d t w : ℕ)
    → IsRecursive m
    → d < 1024
    → t < 1024
    → IsPresent (pde_of m d)
    → set_pte d t w m ≡ ok (tt, record m { phys = update m.phys (frame (pde_of m d) + 4 * t) w })
unfolding set_pte store
set_pte-ok m d t w r h h' p = rw (walk-rec_pte_vaddr m d t r h h' p) refl

-- The address of a directory entry is that of an entry of the table that is the directory.
rec_pde_vaddr_lem : (d : ℕ) → rec_pde_vaddr d ≡ rec_pte_vaddr 1023 d
unfolding rec_pde_vaddr rec_pte_vaddr
rec_pde_vaddr_lem d = refl

pub get_pde-ok : (m : Machine) (d : ℕ) → IsRecursive m → d < 1024 → get_pde d m ≡ ok (pde_of m d, m)
unfolding get_pde load
get_pde-ok m d r h =
    rw (rec_pde_vaddr_lem d, walk-rec_pte_vaddr m 1023 d r (omega arith) h r.present, r.to_itself)
      refl
