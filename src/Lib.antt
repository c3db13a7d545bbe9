-- ===== src/Lib.antt =====
-- Atros, a small kernel for the x86: a verification library of its data structures and allocators.
--
-- The kernel keeps its physical pages in a buddy allocator (src/kernel/mm/physical_pages.c) whose
-- free and used blocks stand in circular doubly linked lists (src/include/kernel/list.h). While the
-- kernel boots, pages come from a boot allocator of one range; then the descriptors of all pages are
-- set up range by range and the lists are built. Regions of virtual pages stand in simple lists, one
-- of free and one of used regions (src/kernel/mm/virtual_pages.c); the objects for new regions come
-- from the slab allocator (src/kernel/mm/slab.c), which keeps caches of objects of one size in slabs,
-- each a region of pages. Paging (src/arch/x86/paging.c) maps virtual pages to physical ones through
-- a page directory whose last entry names the directory itself. Beside these stand the functions on
-- strings and formatted output (src/libc), the console that prints on the screen, and the descriptor
-- tables of the processor.
--
-- Files and code:
--   Base            Boolean tests and lists over the native numbers, bit operations, and the
--                   commands of the models: a run ends in ok, in panic (panic() halts the machine),
--                   in a fault (a read or write through NULL, an index outside an array) or out of
--                   fuel. KASSERT is kassert: the assertions are compiled in every build.
--   Arithmetic      most_significant_bit_of of src/include/bits.h.
--   LinkedLists     list.h. Links holds the fields next and prev of all elements as functions of an
--                   address, and Circular the macros clist_*, statement by statement. A macro that
--                   assigns to its list argument returns the new value. The modules under Circular
--                   relate a ring to a list of addresses. Simple holds the macros list_* in the
--                   same way, over the field next alone; a comparison function is an argument
--                   that returns a sign or panics. Double holds the macros dlist_*.
--   PhysicalPages   physical_pages.c and physical_pages.h. Address holds the conversions, State the
--                   memory (descriptors at ppages_dscrs + 24 * page number, the links, the list
--                   arrays free_ppages_blocks_clists and used_ppages_blocks_clists, first_ppn and
--                   last_ppn) and the small functions, Blocks the functions on blocks
--                   (ppage_block_alloc_dscr is _ppage_block_alloc, ppage_block_free_dscr is
--                   _ppage_block_free), Range _range_ppages_set_status and the boot allocator.
--                   Pool gives the abstract view, for each order a list of free blocks, with the
--                   invariant IsPool that ties it to the memory. The used lists are in it only as
--                   a set of descriptors that they may lead to, since the code leaves a split
--                   block in the used list of its old order.
--   VirtualPages    virtual_pages.c and virtual_pages.h. Regions holds the state (the regions at their
--                   addresses, the links, the two lists, the cache) and the functions;
--                   vregion_alloc_of is _vregion_alloc, in the steps first_fit, unlist_free, give_rest
--                   and enlist_used. ObjsCache is the interface of the slab allocator: retrieving an
--                   object gives an address, or NULL. Used, Cut and Rest hold the lemmas on the
--                   steps; Alloc, Disjoint and Lowest put them together.
--   Libc            src/libc/string.c: Memory holds memcpy, memmove and memset over a memory of bytes,
--                   Strings strncpy and strcmp. A char is signed. src/libc/stdarg.c: Format holds
--                   u_to_nstr and i_to_nstr, Printf vsnprintf, whose arguments are a list of words.
--   Console         src/kernel/kprintf.c: the cursor, and the memory that holds the screen; the buffer
--                   is an address. Screen is about one character, Output about a whole run.
--   Paging          src/arch/x86/paging.c and src/include/x86/paging.h. Processor is the hardware side:
--                   a physical memory of words, the register CR3, and the walk from a virtual to a
--                   physical address that the manual of the processor documents; a read or write
--                   through a page that is not present faults. Entries holds the functions, which
--                   reach the tables through the recursive entry; Window, Translation, Mapping and
--                   Range relate them to the walk. Boot holds paging_boot_init, which writes physical
--                   words, since the boot code maps the kernel space at a fixed distance.
--   Slabs           slab.c and slab.h. State holds the slabs, the caches, and the links of free objects:
--                   the words at their addresses, where the store of a link (store_next) writes 4
--                   bytes and so changes the words that it overlaps. Objects the functions on a slab and Caches those on a cache;
--                   retrieve_free_obj is _retrieve_free_obj_from_objs_cache, with its two cases
--                   retrieve_partial and retrieve_free. Invariant says what a cache is: three lists
--                   of slabs by status, with counters. Setup is about initialize_slab; Steps, Counts,
--                   Retrieval, Sorted and Taken hold the lemmas that Taking puts together;
--                   Release is about free_obj_from_slab, Growth and Adding about
--                   objs_cache_add_slab, Fresh about objs_cache_init.
--   Descriptors     src/arch/x86/gdt.c and src/arch/x86/idt.c: Gdt and Idt hold the tables and the
--                   functions that fill them, Segments and Gates what the processor reads in them.
--   Interrupts      src/arch/x86/8259a.c, src/arch/x86/pit.c and src/arch/x86/interrupts.c. Ports is the
--                   hardware side: two interrupt controllers, the timer and the keyboard's bytes
--                   behind outb and inb. Controller holds the functions; Masks and Setup are about
--                   what they do to the devices.
--   BootInfo        src/arch/x86/boot/bootloader_info.c, over the words of the loader's structures.
--   Kernel          The parts of the memory management put together. State holds the state of all of
--                   them; Marks and BootPages are physical_page_boot_init; Creation holds the
--                   functions by which the slab and the virtual pages allocator call each other
--                   (create_slab, objs_cache_alloc, vregion_alloc, vregion_merge), Allocation the
--                   lemmas on them, Startup objs_cache_boot_init and virtual_page_boot_init. Mmu is
--                   src/arch/x86/mmu.c, most of whose bodies are commented out.
--
-- Numbers are natural numbers; where the code's 32-bit arithmetic can wrap, the definitions write
-- % 2 ^ 32, and % 256 for the field block_order. A descriptor has 24 bytes. Addresses of descriptors
-- are assumed to lie below 2 ^ 32 (IsArray).
--
-- Bounds and fuel: _ppage_block_alloc recurses at most MAX_PPAGE_BLOCK_ORDER - order times and stops
-- in its assertion at the last; the merging loop of _ppage_block_free runs at most until the order
-- is MAX_PPAGE_BLOCK_ORDER - 1. Both are structural. The outer loop of _range_ppages_set_status runs
-- on fuel, a round for each page of the range and one for the last test. The loops over simple lists
-- and the loop of strcmp run on a fuel that is an argument, and the theorems ask for more than the
-- elements or characters passed. The loop over the digits of a number has 32 rounds, enough for a
-- 32-bit value, and the loop of kprintf 1024, the size of its buffer.
--
-- The functions of Kernel that call one another run on a fuel that is an argument, as do the loops of
-- the interrupt dispatcher that wait for a key.
--
-- Not modelled: the texts of panic and kprintf calls (output only) and the DEBUG functions, which
-- only print; the translation lookaside buffer, so that
-- invlpg does nothing; load_pgd and enable_paging, which are assembly, and vpage_unmap, which is
-- empty; tss_init; the processor contexts, main and panic(), which ends a run; and all assembly.
pub mod Base
pub mod Arithmetic
pub mod LinkedLists
pub mod PhysicalPages
pub mod VirtualPages
pub mod Libc
pub mod Paging
pub mod Slabs
pub mod Descriptors
pub mod Console
pub mod Kernel
pub mod Interrupts
pub mod BootInfo
