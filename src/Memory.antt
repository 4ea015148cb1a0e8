-- ===== src/Memory.antt =====
-- Kernel/Memory: physical memory zones and the page-frame allocator.
pub mod Zone
pub mod Bitmap
pub mod Frames
pub mod Pmm
pub mod Tree
pub mod AddressSpace
pub mod PageTables
pub mod PageMap
pub mod Mapping
