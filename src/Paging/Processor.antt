-- ===== src/Paging/Processor.antt =====
-- The processor's side of paging, as the Intel manual describes it for 32-bit paging with 4 MB
-- pages: the address translation, and the access to a word at a virtual address. There is no
-- translation cache, so invlpg of paging.c does nothing here.
use atros.Base.{ℕ, ◌+◌, ◌*◌, ◌/◌, ◌%◌, ◌^◌, ◌==◌, if◌then◌else◌, Option, none, some, Cmd, ok, fault}
use atros.LinkedLists.Links.{update}

-- The words of the physical memory by their addresses, and the register CR3, which holds the
-- physical address of the page directory.
pub record Machine : Type 0 where
  pub phys : ℕ → ℕ
  pub cr3 : ℕ

-- The entry of a page table: the frame of a present page.
abbrev pub walk_pte : ℕ → ℕ → Option ℕ
walk_pte pte v = if pte % 2 == 0 then none else some (pte / 4096 * 4096 + v % 4096)

abbrev pub walk_pde : (ℕ → ℕ) → ℕ → ℕ → Option ℕ
walk_pde phys pde v =
    if pde % 2 == 0
    then none
    else if pde / 128 % 2 == 0
    then walk_pte (phys (pde / 4096 * 4096 + 4 * (v / 4096 % 1024))) v
    else some (pde / 2 ^ 22 * 2 ^ 22 + v % 2 ^ 22)

-- The physical address of a virtual one, if it is mapped.
unfoldable pub walk : Machine → ℕ → Option ℕ
walk m v = walk_pde m.phys (m.phys (m.cr3 + 4 * (v / 2 ^ 22))) v

abbrev pub load_at : Option ℕ → Cmd Machine ℕ
load_at none m = fault
load_at (some a) m = ok (m.phys a, m)

abbrev pub store_at : Option ℕ → ℕ → Cmd Machine (Unit {0})
store_at none w m = fault
store_at (some a) w m = ok (tt, record m { phys = update m.phys a w })

-- A read and a write of a word through a pointer.
unfoldable pub load : ℕ → Cmd Machine ℕ
load v m = load_at (walk m v) m

unfoldable pub store : ℕ → ℕ → Cmd Machine (Unit {0})
store v w m = store_at (walk m v) w m
