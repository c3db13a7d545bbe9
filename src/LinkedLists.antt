-- ===== src/LinkedLists.antt =====
-- src/include/kernel/list.h: the intrusive lists of the kernel, over a store of links.
pub mod Links
pub mod Circular
pub mod Simple
pub mod Double
