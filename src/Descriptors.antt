-- ===== src/Descriptors.antt =====
-- The descriptor tables of src/arch/x86/gdt.c and src/arch/x86/idt.c.
pub mod Gdt
pub mod Idt
pub mod Segments
pub mod Gates
mod Tests
