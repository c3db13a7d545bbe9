-- ===== src/Libc.antt =====
-- src/libc/string.c and src/libc/stdarg.c: the buffers, strings and formatted output of the kernel's
-- C library.
pub mod Memory
pub mod Strings
pub mod Format
pub mod Printf
