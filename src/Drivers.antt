-- ===== src/Drivers.antt =====
-- Kernel/Drivers: the line discipline of terminals.
pub mod CircularQueue
pub mod Tty
