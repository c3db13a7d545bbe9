-- ===== src/Slabs.antt =====
-- src/kernel/mm/slab.c, the allocator of objects of one size: caches of slabs of objects.
pub mod State
pub mod Objects
pub mod Caches
pub mod Chains
pub mod Setup
pub mod Invariant
pub mod Steps
pub mod Counts
pub mod Retrieval
pub mod Sorted
pub mod Taken
pub mod Taking
pub mod Growth
pub mod Adding
pub mod Fresh
pub mod Release
mod Tests
