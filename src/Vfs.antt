-- ===== src/Vfs.antt =====
-- Kernel/VFS: open files, the tables through which processes reach them, and files kept in memory.
pub mod Map
pub mod FdTable
pub mod Ring
pub mod Fifo
pub mod Buffer
pub mod SynthFs
pub mod Inode
pub mod Description
pub mod Listing
pub mod Ext2
pub mod Entries
pub mod Resolver
pub mod Directories
pub mod Ext2Files
pub mod Calls
