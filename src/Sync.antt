-- ===== src/Sync.antt =====
-- Kernel/Scheduler/Event and Kernel/Library/Locking: how threads wait for one another.
pub mod Event
pub mod Locks
mod Tests
