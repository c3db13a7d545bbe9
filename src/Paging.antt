-- ===== src/Paging.antt =====
-- src/arch/x86/paging.c: the page directory and the page tables, which the code reaches through a
-- window of the address space that the last directory entry opens on them.
pub mod Processor
pub mod Entries
pub mod Window
pub mod Translation
pub mod Mapping
pub mod Range
pub mod Boot
pub mod Examples
mod Tests
