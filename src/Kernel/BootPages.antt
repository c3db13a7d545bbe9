-- ===== src/Kernel/BootPages.antt =====
-- physical_page_boot_init of src/kernel/mm/physical_pages.c: the array of descriptors gets memory of
-- the boot allocators, is mapped, and all pages are marked. What it prints is left out. The linker
-- gives the addresses of the kernel image.
use atros.Base.{
  ℕ, ◌+◌, ◌-◌, ◌*◌, ◌/◌, ◌%◌, ◌^◌, ◌≤◌, ◌<◌, ◌≡◌, refl, Cmd, ok, subst, ◌>>=◌, ◌>>◌, get, arith,
  Outcome, le→leb, inl, inr, eq_or_ne, ne→==,
}
use atros.LinkedLists.Links.{null}
use atros.PhysicalPages.State.{Memory, sizeof_ppage}
use atros.PhysicalPages.Address.{paddr_to_ppn}
use atros.PhysicalPages.Range.{boot_physical_pages_alloc}
use atros.PhysicalPages.Boot.{boot_physical_pages_alloc-ok}
use atros.VirtualPages.Regions.{vpn_to_vaddr}
use atros.Paging.Entries.{map_pages}
use atros.Paging.Mapping.{IsPaged, Maps}
use atros.Paging.Range.{HaveTables, map_pages-Maps}
use atros.Paging.Processor.{Machine}
use atros.Paging.Boot.{round_up}
use atros.Kernel.State.{
  Kernel, BootVpages, boot_virtual_pages_alloc, on_memory, on_boot_pages, on_boot_vpages,
  on_machine,
}
use atros.Kernel.Marks.{mark_ppages, Marks, IsUnlisted, mark_ppages-Marks}

-- PAGE_PRESENT | PAGE_READ_WRITE | PAGE_SUPERVISOR | PAGE_GLOBAL
abbrev pub kernel_page_flags : ℕ
kernel_page_flags = 259

-- nbr_pages_used_by_ppages_dscrs.
unfoldable pub dscrs_pages : ℕ → ℕ → ℕ
dscrs_pages first last =
    round_up ((last + 2 ^ 32 - first + 1) % 2 ^ 32 * sizeof_ppage % 2 ^ 32) 4096 / 4096

unfoldable pub set_bounds : ℕ → ℕ → Cmd Memory (Unit {0})
set_bounds first last m = ok (tt, record m { first_ppn = first; last_ppn = last })

unfoldable pub place_dscrs : ℕ → Cmd Memory (Unit {0})
place_dscrs vpn m = ok (tt, record m { ppages_dscrs = vpn_to_vaddr vpn })

unfoldable pub physical_page_boot_init : ℕ → ℕ → ℕ → ℕ → Cmd Kernel (Unit {0})
physical_page_boot_init boot_pa_start kernel_pa_end first last = do
  on_memory (set_bounds first last)
  ppn ← on_boot_pages (boot_physical_pages_alloc (dscrs_pages first last))
  vpn ← on_boot_vpages (boot_virtual_pages_alloc (dscrs_pages first last))
  on_memory (place_dscrs vpn)
  on_machine (map_pages ppn vpn (dscrs_pages first last) kernel_page_flags)
  k ← get
  on_memory (
      mark_ppages (paddr_to_ppn boot_pa_start) (paddr_to_ppn (round_up kernel_pa_end 4096))
        (paddr_to_ppn kernel_pa_end) k.boot_pages.first_free_ppn last)

-- A number is rounded up to a multiple of the page size.
round_up-next :
    (x : ℕ)
    → x + 4096 ≤ 2 ^ 32
    → (x ≤ round_up x 4096)
      × (round_up x 4096 < x + 4096)
      × (round_up x 4096 / 4096 * 4096 ≡ round_up x 4096)
unfolding round_up
round_up-next x h = elim (eq_or_ne (x % 4096) 0) [
  | inl e ↦ rw e (omega arith)
  | inr ne ↦ rw (ne→== (x % 4096) 0 ne) (omega (arith, ne))
]

-- The descriptors fit in their pages.
dscrs_pages-fits :
    (last : ℕ)
    → last < 2 ^ 20
    → (sizeof_ppage * (last + 1) ≤ dscrs_pages 0 last * 4096) × (0 < dscrs_pages 0 last)
unfolding dscrs_pages
dscrs_pages-fits last h =
    let e : (last + 2 ^ 32 - 0 + 1) % 2 ^ 32 * sizeof_ppage % 2 ^ 32 ≡ sizeof_ppage * (last + 1) =
      omega arith in
    rw e (omega (arith, round_up-next (sizeof_ppage * (last + 1)) (omega arith)))

boot_virtual_pages_alloc-ok :
    (n : ℕ) (b : BootVpages)
    → 0 < n
    → b.first_free_vpn + n ≤ b.last_free_vpn + 1
    → b.last_free_vpn + 1 < 2 ^ 32
    → boot_virtual_pages_alloc n b
      ≡ ok (b.first_free_vpn, record b { first_free_vpn = b.first_free_vpn + n })
unfolding boot_virtual_pages_alloc
boot_virtual_pages_alloc-ok n b pos h small =
    let e : (b.first_free_vpn + n + 2 ^ 32 - 1) % 2 ^ 32 ≡ b.first_free_vpn + n - 1 = omega arith in
    let e' : (b.first_free_vpn + n) % 2 ^ 32 ≡ b.first_free_vpn + n = omega arith in
    rw (e, le→leb (b.first_free_vpn + n - 1) b.last_free_vpn (omega arith), e') refl

-- The physical memory as it is when its pages are marked.
abbrev pub described : Kernel → ℕ → Memory
described k last = record k.memory {
  first_ppn = 0;
  last_ppn = last;
  ppages_dscrs = vpn_to_vaddr k.boot_vpages.first_free_vpn;
}

-- The set-up of the physical pages: the pages are marked, the array is mapped, and the pages of both
-- boot allocators that it took, `n` of each, are theirs no longer.
pub record BootsPages (k : Kernel) (image last n : ℕ) (r : Outcome (Unit {0} × Kernel))
    : Type 0 where
  pub after : Kernel
  pub done : r ≡ ok (tt, after)
  pub marks :
      Marks (described k last) image (k.boot_pages.first_free_ppn + n) last (ok (tt, after.memory))
  pub maps :
      Maps k.machine k.boot_pages.first_free_ppn k.boot_vpages.first_free_vpn n
        (ok (tt, after.machine))
  pub boot_pages :
      after.boot_pages ≡ record k.boot_pages { first_free_ppn = k.boot_pages.first_free_ppn + n }
  pub boot_vpages :
      after.boot_vpages ≡ record k.boot_vpages { first_free_vpn = k.boot_vpages.first_free_vpn + n }

-- The boot allocators have the pages asked for, at numbers that a page table can hold, and page
-- tables reach them; and no list of the physical pages has an element yet.
pub record IsBooting (k : Kernel) (n : ℕ) : Type 0 where
  pub ppages : k.boot_pages.first_free_ppn + n ≤ k.boot_pages.last_free_ppn + 1
  pub ppages_small : k.boot_pages.last_free_ppn < 2 ^ 20
  pub vpages_above : 0 < k.boot_vpages.first_free_vpn
  pub vpages : k.boot_vpages.first_free_vpn + n ≤ k.boot_vpages.last_free_vpn + 1
  pub vpages_below : k.boot_vpages.last_free_vpn < 1023 * 1024
  pub paged : IsPaged k.machine
  pub tables : HaveTables k.machine k.boot_vpages.first_free_vpn n
  pub no_free : (j : ℕ) → k.memory.free_lists j ≡ null
  pub no_used : (j : ℕ) → k.memory.used_lists j ≡ null

physical_page_boot_init-ok :
    (boot_pa_start kernel_pa_end last n : ℕ) (k : Kernel) (machine : Machine) (memory : Memory)
    → dscrs_pages 0 last ≡ n
    → boot_physical_pages_alloc n k.boot_pages
      ≡ ok (
        k.boot_pages.first_free_ppn,
        record k.boot_pages { first_free_ppn = k.boot_pages.first_free_ppn + n },
      )
    → boot_virtual_pages_alloc n k.boot_vpages
      ≡ ok (
        k.boot_vpages.first_free_vpn,
        record k.boot_vpages { first_free_vpn = k.boot_vpages.first_free_vpn + n },
      )
    → map_pages k.boot_pages.first_free_ppn k.boot_vpages.first_free_vpn n kernel_page_flags
        k.machine
      ≡ ok (tt, machine)
    → round_up kernel_pa_end 4096 ≡ kernel_pa_end
    → mark_ppages
        (paddr_to_ppn boot_pa_start)
        (paddr_to_ppn kernel_pa_end)
        (paddr_to_ppn kernel_pa_end)
        (k.boot_pages.first_free_ppn + n)
        last
        (described k last)
      ≡ ok (tt, memory)
    → physical_page_boot_init boot_pa_start kernel_pa_end 0 last k
      ≡ ok (
        tt,
        record k {
          memory = memory;
          boot_pages = record k.boot_pages { first_free_ppn = k.boot_pages.first_free_ppn + n };
          boot_vpages = record k.boot_vpages { first_free_vpn = k.boot_vpages.first_free_vpn + n };
          machine = machine;
        },
      )
unfolding physical_page_boot_init on_memory on_boot_pages on_boot_vpages on_machine set_bounds
    place_dscrs
physical_page_boot_init-ok boot_pa_start kernel_pa_end last n k machine memory en ep ev em er ek =
    rw (en, ep, ev, em, er, ek) refl

BootsPages-of :
    (boot_pa_start kernel_pa_end last n : ℕ) (k : Kernel)
    → dscrs_pages 0 last ≡ n
    → boot_physical_pages_alloc n k.boot_pages
      ≡ ok (
        k.boot_pages.first_free_ppn,
        record k.boot_pages { first_free_ppn = k.boot_pages.first_free_ppn + n },
      )
    → boot_virtual_pages_alloc n k.boot_vpages
      ≡ ok (
        k.boot_vpages.first_free_vpn,
        record k.boot_vpages { first_free_vpn = k.boot_vpages.first_free_vpn + n },
      )
    → round_up kernel_pa_end 4096 ≡ kernel_pa_end
    → Maps k.machine k.boot_pages.first_free_ppn k.boot_vpages.first_free_vpn n (
        map_pages k.boot_pages.first_free_ppn k.boot_vpages.first_free_vpn n kernel_page_flags
          k.machine)
    → Marks (described k last) (paddr_to_ppn boot_pa_start) (k.boot_pages.first_free_ppn + n) last (
        mark_ppages
          (paddr_to_ppn boot_pa_start)
          (paddr_to_ppn kernel_pa_end)
          (paddr_to_ppn kernel_pa_end)
          (k.boot_pages.first_free_ppn + n)
          last
          (described k last))
    → BootsPages k
        (paddr_to_ppn boot_pa_start)
        last
        n
        (physical_page_boot_init boot_pa_start kernel_pa_end 0 last k)
BootsPages-of boot_pa_start kernel_pa_end last n k en ep ev er maps marks = record {
  after = record k {
    memory = marks.after;
    boot_pages = record k.boot_pages { first_free_ppn = k.boot_pages.first_free_ppn + n };
    boot_vpages = record k.boot_vpages { first_free_vpn = k.boot_vpages.first_free_vpn + n };
    machine = maps.after;
  };
  done =
      physical_page_boot_init-ok boot_pa_start kernel_pa_end last n k maps.after marks.after en ep
        ev maps.done er marks.done;
  marks =
      subst
        (Marks (described k last) (paddr_to_ppn boot_pa_start) (k.boot_pages.first_free_ppn + n)
          last)
        marks.done marks;
  maps =
      subst (Maps k.machine k.boot_pages.first_free_ppn k.boot_vpages.first_free_vpn n) maps.done
        maps;
  boot_pages = refl;
  boot_vpages = refl;
}

-- For descriptors of the pages from 0 to `last`, below 2^20, no list of which has an element yet, an
-- image of the kernel behind the first MB that ends at a page boundary, before the first page of
-- the boot allocator, and boot allocators with as many pages as the descriptors need, the physical
-- ones not behind `last` and the virtual ones above page 0, before the window and in the reach of
-- well-formed page tables, physical_page_boot_init ends without a fault or a panic. It takes the pages from both boot
-- allocators, maps the one to the other, and leaves the pool of physical pages well formed, in which
-- exactly the pages between the first MB and the image and those that the boot allocator still has,
-- up to `last`, are free.
pub physical_page_boot_init-BootsPages :
    (boot_pa_start kernel_pa_end last : ℕ) (k : Kernel)
    → last < 2 ^ 20
    → 2 ^ 20 ≤ boot_pa_start
    → boot_pa_start ≤ kernel_pa_end
    → kernel_pa_end % 4096 ≡ 0
    → kernel_pa_end ≤ k.boot_pages.first_free_ppn * 4096
    → k.boot_pages.last_free_ppn ≤ last
    → IsBooting k (dscrs_pages 0 last)
    → BootsPages k
        (boot_pa_start / 4096)
        last
        (dscrs_pages 0 last)
        (physical_page_boot_init boot_pa_start kernel_pa_end 0 last k)
unfolding paddr_to_ppn vpn_to_vaddr
physical_page_boot_init-BootsPages boot_pa_start kernel_pa_end last k h1 h2 h3 h4 h5 h6 b =
    let n = dscrs_pages 0 last in
    let (room, pos) = dscrs_pages-fits last h1 in
    let base : k.boot_vpages.first_free_vpn * 2 ^ 12 % 2 ^ 32
        ≡ k.boot_vpages.first_free_vpn * 4096 =
      omega (arith, b.vpages, b.vpages_below) in
    let unlisted : IsUnlisted (described k last) = record {
      array = record {
        base = omega (arith, base, b.vpages_above);
        fits = omega (arith, base, b.vpages, b.vpages_below, room);
      };
      no_free = b.no_free;
      no_used = b.no_used;
    } in
    let maps =
      map_pages-Maps n k.boot_pages.first_free_ppn k.boot_vpages.first_free_vpn kernel_page_flags
        k.machine b.paged (omega arith, refl, refl) (omega (arith, b.ppages, b.ppages_small))
        b.vpages_above (omega (arith, b.vpages, b.vpages_below)) b.tables in
    let marks =
      mark_ppages-Marks (boot_pa_start / 4096) (kernel_pa_end / 4096)
        (k.boot_pages.first_free_ppn + n) last (described k last) unlisted refl refl (omega arith)
        (omega arith) (omega arith) (omega (arith, b.ppages)) in
    BootsPages-of boot_pa_start kernel_pa_end last n k refl
      (boot_physical_pages_alloc-ok n k.boot_pages pos b.ppages (omega (arith, b.ppages_small)))
      (boot_virtual_pages_alloc-ok n k.boot_vpages pos b.vpages (omega (arith, b.vpages_below)))
      (omega (arith, round_up-next kernel_pa_end (omega (arith, b.ppages, b.ppages_small)))) maps
      marks
