-- ===== src/Lib.antt =====
-- A model of the core of the CryptixOS kernel, with the properties that make its parts correct.
--
-- The parts, the files here that model them and the code they model:
--   Memory/Zone          Kernel/Memory/MemoryZone.hpp: entries of the boot memory map
--                        (MemoryZone::Allocate is `allocate`).
--   Memory/Bitmap        The bitmap of the Prism library, as an interface.
--   Memory/Frames        Kernel/Memory/Allocator/BitmapAllocator.{hpp,cpp}: the page-frame
--                        allocator. FindFreeRegions is `find_free_regions` with the loop `scan`,
--                        AllocatePages `allocate_pages`, FreePages `free_pages`; Initialize is
--                        `initialize`, its two loops are `survey` and `release_zones`.
--   Memory/Pmm           Kernel/Memory/PMM.{hpp,cpp}: early allocation from the zones, and the
--                        switch to the page-frame allocator.
--   Memory/Tree          The red-black tree of the Prism library, as an interface.
--   Memory/AddressSpace  Kernel/Memory/AddressSpace.cpp, AddressRange.hpp, Region.hpp: the regions
--                        of a process. IsAvailable, Find, Erase, Insert, AllocateRegion and
--                        AllocateFixed have functions of their names.
--   Memory/PageTables    The page tables of an architecture, as an interface of which nothing is assumed.
--   Memory/PageMap       Kernel/Memory/PageMap.cpp: MapRange is `map_range` with the loop `map_from`, and
--                        so on for UnmapRange, RemapRange and SetFlagsRange.
--   Memory/Mapping       Kernel/API/MM.cpp with API/Posix/sys/mman.h: MMap is `mmap`, with its end in
--                        `settle`; MProtect is `mprotect`, MUnMap `munmap`.
--   Scheduler/Process    Kernel/API/Process.cpp and Kernel/Scheduler/Process.{hpp,cpp}: SetPGid is
--                        `set_pgid`, SetSid `set_sid`; the table of all processes is a function.
--   Sync/Event           Kernel/Scheduler/Event.{hpp,cpp}: Await, in `await` up to its call of
--                        Scheduler::Block, `block`, and `resume` after it, and Trigger.
--   Sync/Locks           Kernel/Library/Locking: Mutex, RecursiveMutex, Semaphore, and
--                        RecursiveSpinlock in single steps of its threads.
--   Vfs/Map              The hash map of the Prism library, as an interface.
--   Vfs/FdTable          Kernel/VFS/FileDescriptorTable.{hpp,cpp} and Process::DupFd of
--                        Kernel/Scheduler/Process.cpp.
--   Vfs/Ring             The ring buffer of the Prism library, as an interface.
--   Vfs/Fifo             Kernel/VFS/Fifo.{hpp,cpp}: pipes, a round of Read or Write per step.
--   Vfs/Buffer           The buffer of the Prism library, as an interface.
--   Vfs/SynthFs          Kernel/VFS/SynthFsINode.{hpp,cpp}: the bytes of files that are kept in memory.
--   Vfs/Directories      The same files and Kernel/VFS/TmpFs/TmpFs.cpp: their directories. CreateNode, Link,
--                        Unlink and RmDir have functions of their names; Symlink is `make_link`.
--   Vfs/Inode            What open files need of an inode, as an interface, and Kernel/VFS/File.{hpp,cpp}.
--   Vfs/Description      Kernel/VFS/FileDescriptor.{hpp,cpp}: Read, Write, Seek and Truncate of an open
--                        file have functions of their names.
--   Vfs/Calls            Kernel/API/VFS.cpp: Read, Write, LSeek, PRead, PWrite, FTruncate, Close and Dup2
--                        of open files have functions of their names; ValidateAddress of a process is
--                        `validate_address`.
--   Vfs/Listing          Kernel/VFS/FileDescriptor.{hpp,cpp} and API/Posix/dirent.h: GetDirEntries is `get_dir_entries`,
--                        GenerateDirEntries `generate_dir_entries`.
--   Vfs/Ext2             Kernel/VFS/Ext2Fs/Ext2FsAllocator.cpp, and AllocateBlock (`new_block`) and
--                        WriteINodeEntry of Ext2Fs.cpp.
--   Vfs/Ext2Files        ReadINode (`read_inode`) and GetINodeBlock of Kernel/VFS/Ext2Fs/Ext2Fs.cpp, and Read of
--                        Ext2FsINode.cpp (`read_file`).
--   Vfs/Entries          Kernel/VFS/DirectoryEntry.{hpp,cpp} and MountPoint.cpp: Lookup is `lookup`, with
--                        the entry that it makes in `cache`; FollowMounts and GetEffectiveParent have
--                        functions of their names. A reference to an entry is its number.
--   Vfs/Resolver         Kernel/VFS/PathResolver.{hpp,cpp} and VFS::ResolvePath: Resolve is `resolve` with
--                        its loop in `segments`, Step is `step`, ResolvePath `resolve_path`.
--   Boot/CommandLine     Kernel/Boot/CommandLine.cpp: ParseArguments is `parse_arguments`.
--   Drivers/CircularQueue  The circular queue of the Prism library, as an interface.
--   Drivers/Tty          Kernel/Drivers/TTY.{hpp,cpp}: SendBuffer is `send_buffer`, OnCanonChar
--                        `on_canon_char`, EraseChar and EraseWord `erase_char` and `erase_word`.
--   Library/Strings      Kernel/Library/KLibC/string.cpp: each function has one of its name here.
--   Common               Lists, Boolean tests, 64-bit words with their wrap-around, signed
--                        integers of 32 and 64 bits, errors, and Prism's arithmetic as an interface.
--
-- How they interact: the boot memory map is a list of zones. Pmm allocates from it directly until
-- its Initialize hands the map to the frame allocator, which from then on serves all requests. An
-- address space places regions in a tree and takes no frames itself; mmap and munmap join it with
-- the frame allocator and the page map. The locks put threads to sleep on events. A process reaches
-- its open files through a descriptor table, which holds references, so that numbers share descriptors; an open file goes through its File to an inode, for which
-- files in memory are one implementation here (Vfs/SynthFs/Files). A terminal takes what is typed and
-- hands it to readers line by line.
--
-- State is passed explicitly: an operation takes the state and returns the new one with its result.
-- A failed Assert is `panic`, an ErrorOr or errno is `err`. Operations run under a lock of their
-- object, so each is one step; the mutexes and the recursive spinlock are step relations over all threads,
-- in which any thread takes any step at any time.
--
-- Fuel: `scan` gets the distance to its limit, which it walks page by page; `release_pages` the size
-- of the zone, which a positive page size exhausts; `dup_fd`, and the calls over it, take their fuel from outside, and its
-- theorem says how much is enough, like those of `strlen`, `strcmp` and `strncmp`. The loops over a
-- range of pages get the size of the range, since a page has at least one byte; `grow`, which doubles
-- a capacity, gets 65 rounds, enough for all sizes up to 2 ^ 63; `parse_from` the length of the text;
-- `erase_while` one round more than the queue has characters. `generate` takes its fuel from outside,
-- with theorems on how much is enough and where none is. All other loops are recursion on a list or
-- on the number of their rounds.
--
-- The containers and the arithmetic of the Prism library are parameters, with the behaviour that the
-- kernel relies on as named laws; each has an implementation here that satisfies the laws, on which
-- the theorems are applied.
--
-- Not modelled: logging, drivers other than the terminal, architecture code with its page tables, file
-- systems other than the parts above, opening and creating files by path, the scheduler's queues and the parts of user space;
-- contents of memory other than files; the file of a region; times, owners and permissions of files.
mod Common
pub mod Boot
pub mod Drivers
pub mod Library
pub mod Memory
pub mod Scheduler
pub mod Sync
pub mod Vfs
