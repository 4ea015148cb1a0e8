-- ===== src/Scheduler.antt =====
-- Kernel/Scheduler and Kernel/API/Process.cpp: processes, their groups and sessions.
pub mod Process
