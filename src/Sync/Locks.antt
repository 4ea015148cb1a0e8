-- ===== src/Sync/Locks.antt =====
-- Kernel/Library/Locking: Mutex, RecursiveMutex, Semaphore and RecursiveSpinlock. Each operation of
-- the first three holds the lock's inner spinlock (`m_Lock`) from its first to its last access, so
-- it is one step; a thread is a number.
pub mod Mutex
pub mod RecursiveMutex
pub mod Semaphore
pub mod RecursiveSpinlock
