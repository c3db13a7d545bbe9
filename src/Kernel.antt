-- ===== src/Kernel.antt =====
-- The parts of src/kernel/mm put together: the state of the whole memory management, the set-up of
-- the physical pages, and the slab and virtual pages allocators as they call one another.
pub mod State
pub mod Marks
pub mod BootPages
pub mod Creation
pub mod Allocation
pub mod Startup
pub mod Mmu
mod Tests
