-- ===== src/Boot.antt =====
-- Kernel/Boot: what the kernel takes from the boot loader.
pub mod CommandLine
