-- ===== src/Vfs/Ext2.antt =====
-- Kernel/VFS/Ext2Fs/Ext2FsAllocator.{hpp,cpp}, the counts of Ext2FsStructures.hpp, and
-- AllocateBlock, WriteINodeEntry of Ext2Fs.cpp: free blocks and inodes of an ext2 file system. The
-- disk is its group descriptors and its blocks, each as bits; reading and writing it does not fail.
pub mod Blocks
pub mod Inodes
mod Tests
use cryptix_os.Common.{
  ℕ, zero, suc, ◌+◌, ◌-◌, ◌*◌, ◌/◌, ◌%◌, ◌^◌, ◌≤◌, ◌<◌, min, ◌≡◌, refl, sym, ap, ◌∙◌, ◌≢◌, ◌↔◌, ◌⊎◌,
  inl, inr, Bool, true, false, not, ◌&&◌, ◌||◌, Option, none, some, List, [], ◌∷◌, ◌++◌, map, arith,
  dec_lt, ℕ_discrete, ltb, leb, ◌==◌, if◌then◌else◌, ltb→lt, lt→ltb, le→not-ltb, not-ltb→le, leb→le,
  ==_iff, tests, Bool-cases, Option-cases, length, get_elem?, set, length-append, All, Inserted,
  here, there, Inserted-All, All-Inserted, All-map, u64_mod, add64, sub64, mul64, add64-eq_add,
  sub64-eq_sub, mul64-eq_mul, sub64-add64, add64-lt, add64_add, add64_add_right, apart_of_disjoint,
  apart_scaled, Errno, eperm, enoent, esrch, ebadf, eagain, enomem, efault, eexist, enotdir, einval,
  epipe, enosys, eisdir, espipe, eoverflow, ℤ, pos, negsuc, i32_max, to_i32, to_i32_small,
  increment, to_u64, to_i64, add_i64, to_i64_small, add_i64-eq_add, is_negative, int_eq,
  pos_injective, Outcome, ok, err, panic, ◌>>=◌,
}

pub record Descriptor : Type 0 where
  pub block_bitmap : ℕ
  pub inode_bitmap : ℕ
  pub free_block_count : ℕ
  pub free_inode_count : ℕ

-- Ext2FsINodeMeta: SectorCount, and the other fields by their offsets.
pub record INodeMeta : Type 0 where
  pub sector_count : ℕ
  pub other : ℕ → ℕ

-- The fields of the super block and of the allocator, the block size of the device, and the disk:
-- group descriptors, blocks as bits, and the entries of inodes by their numbers.
pub record Ext2 : Type 0 where
  pub block_size : ℕ
  pub block_count : ℕ
  pub blocks_per_group : ℕ
  pub inodes_per_group : ℕ
  pub first_non_reserved : ℕ
  pub free_inodes : ℕ
  pub free_blocks : ℕ
  pub group_count : ℕ
  pub descriptors : ℕ → Descriptor
  pub blocks : ℕ → ℕ → Bool
  pub device_block : ℕ
  pub entries : ℕ → INodeMeta

-- Initialize, for a super block whose BlocksPerGroup is not 0.
pub initialize : Ext2 → Ext2
initialize fs = record fs { group_count = fs.block_count / fs.blocks_per_group }

-- u16 and u32 counts that go down by one.
pub decrement : ℕ → ℕ → ℕ
decrement width n = (n + (2 ^ width - 1)) % 2 ^ width

pub write_descriptor : Ext2 → ℕ → Descriptor → Ext2
write_descriptor fs g d = record fs { descriptors = λ h. if h == g then d else fs.descriptors h }

pub write_block : Ext2 → ℕ → (ℕ → Bool) → Ext2
write_block fs address bits = record fs { blocks = λ a. if a == address then bits else fs.blocks a }

pub set_bit : (ℕ → Bool) → ℕ → ℕ → Bool
set_bit bits i j = if j == i then true else bits j

-- The loop of LocateFreeGroup from group `g` on, with `n` groups to go.
pub locate_from : Ext2 → ℕ → ℕ → ℕ
locate_from fs zero g = 0
locate_from fs (suc n) g =
    let rest = locate_from fs n (suc g) in
    if ltb 0 (fs.descriptors g).free_block_count then g else rest

-- LocateFreeGroup
pub locate_free_group : Ext2 → ℕ
locate_free_group fs = locate_from fs (fs.group_count - 1) 1

-- The search of AllocateBlock for a clear bit, from `i` on with `n` bits to go.
pub first_clear : (ℕ → Bool) → ℕ → ℕ → Option ℕ
first_clear bits zero i = none
first_clear bits (suc n) i =
    let rest = first_clear bits n (suc i) in if bits i then rest else some i

-- The end of AllocateBlock. The number 0 for a block counts as none.
pub take_block : Ext2 → ℕ → Option ℕ → ℕ × Ext2
take_block fs g none =
    (0, write_descriptor fs g (record (fs.descriptors g) { free_block_count = 0 }))
take_block fs g (some i) =
    let d = fs.descriptors g in
    let found = add64 (mul64 g fs.blocks_per_group) i in
    let marked = write_block fs d.block_bitmap (set_bit (fs.blocks d.block_bitmap) i) in
    if found == 0 then (0, write_descriptor fs g (record d { free_block_count = 0 })) else (
      found,
      write_descriptor marked g (record d { free_block_count = decrement 16 d.free_block_count }),
    )

-- AllocateBlock
pub allocate_block : Ext2 → ℕ × Ext2
allocate_block fs =
    let g = locate_free_group fs in
    if g == 0
    then (0, fs)
    else take_block fs g
        (first_clear (fs.blocks (fs.descriptors g).block_bitmap) (fs.block_size * 8) 0)

-- The search of AllocateINodeInGroup in a byte: the number it ends with, and the bits. `base` is
-- the number of inodes in the groups before.
pub scan_bits : ℕ → ℕ → ℕ → ℕ → ℕ → (ℕ → Bool) → ℕ × (ℕ → Bool)
scan_bits first base zero i inode bits = (inode, bits)
scan_bits first base (suc n) i inode bits =
    let here = add64 base (suc i) in
    let used = scan_bits first base n (suc i) inode bits in
    let reserved = scan_bits first base n (suc i) here bits in
    if bits i
    then used
    else if ltb first here && ltb 11 here
    then (here, set_bit bits i)
    else reserved

-- bitmap.Raw()[i] == 0xff, for the byte that starts at bit `i`.
pub byte_full : (ℕ → Bool) → ℕ → ℕ → Bool
byte_full bits zero i = true
byte_full bits (suc n) i = let rest = byte_full bits n (suc i) in if bits i then rest else false

pub scan_bytes : ℕ → ℕ → ℕ → ℕ → (ℕ → Bool) → ℕ × (ℕ → Bool)
scan_bytes first base zero i bits = (0, bits)
scan_bytes first base (suc n) i bits =
    let r = scan_bits first base 8 i 0 bits in
    let skipped = scan_bytes first base n (i + 8) bits in
    let rest = scan_bytes first base n (i + 8) r.1 in
    if byte_full bits 8 i then skipped else if r.0 == 0 then rest else r

-- AllocateINodeInGroup
pub allocate_in_group : Ext2 → ℕ → ℕ × Ext2
allocate_in_group fs g =
    let address = (fs.descriptors g).inode_bitmap in
    let r =
      scan_bytes fs.first_non_reserved (mul64 g fs.inodes_per_group) fs.block_size 0
        (fs.blocks address) in
    if r.0 == 0 then (0, fs) else (r.0, write_block fs address r.1)

-- The loop of AllocateINode from group `g` on.
pub allocate_from : Ext2 → ℕ → ℕ → ℕ × Ext2
allocate_from fs zero g = (0, fs)
allocate_from fs (suc n) g =
    let d = fs.descriptors g in
    let r = allocate_in_group fs g in
    let rest = allocate_from fs n (suc g) in
    let taken =
      record (write_descriptor r.1 g
        (record d { free_inode_count = decrement 16 d.free_inode_count })) {
          free_inodes = decrement 32 fs.free_inodes;
        } in
    if d.free_block_count == 0 then rest else if r.0 == 0 then rest else (r.0, taken)

-- AllocateINode, which goes through as many groups as there are blocks.
pub allocate_inode : Ext2 → ℕ × Ext2
allocate_inode fs = allocate_from fs fs.block_count 0

-- WriteINodeEntry
pub write_inode_entry : Ext2 → INodeMeta → ℕ → Ext2
write_inode_entry fs meta inode = record fs {
  entries = λ k. if k == inode then meta else fs.entries k;
}

-- Ext2Fs::AllocateBlock: the block, the inode's fields and the file system. SectorCount is a u32.
pub new_block : Ext2 → INodeMeta → ℕ → ℕ × INodeMeta × Ext2
new_block fs meta inode =
    let r = allocate_block fs in
    let sectors = (meta.sector_count + fs.block_size / fs.device_block) % 2 ^ 32 in
    let grown = record meta { sector_count = sectors } in
    let counted = write_inode_entry r.1 grown inode in
    if r.0 == 0
    then (0, meta, r.1)
    else (r.0, grown, record counted { free_blocks = decrement 32 counted.free_blocks })
