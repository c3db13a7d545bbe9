-- ===== src/PhysicalPages.antt =====
-- src/kernel/mm/physical_pages.c, the allocator of physical pages.
pub mod Address
pub mod State
pub mod Blocks
pub mod Boot
pub mod Range
pub mod Steps
pub mod Pool
pub mod Orders
mod BootTests
mod Tests
