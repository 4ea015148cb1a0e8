-- ===== src/Library.antt =====
-- Kernel/Library: the C library of the kernel.
pub mod Strings
