-- ===== src/VirtualPages.antt =====
-- src/kernel/mm/virtual_pages.c, which keeps the free and the used regions of virtual pages in two
-- simple lists, and the allocation of a region.
pub mod Regions
pub mod Order
pub mod Search
pub mod Used
pub mod Cut
pub mod Rest
pub mod Alloc
pub mod Disjoint
pub mod Lowest
mod Tests
