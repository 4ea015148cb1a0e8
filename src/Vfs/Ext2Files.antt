-- ===== src/Vfs/Ext2Files.antt =====
-- ReadINode and GetINodeBlock of Kernel/VFS/Ext2Fs/Ext2Fs.cpp, and Ext2FsINode::Read: the bytes of
-- a file on an ext2 file system. The device is its bytes, and reading it does not fail. Block
-- numbers are 32-bit words and blocks have at most 2^31 bytes, so that addresses on the device do
-- not wrap around.
pub mod Content
pub mod Layout
mod Tests
use cryptix_os.Common.{
  ℕ, zero, suc, ◌+◌, ◌-◌, ◌*◌, ◌/◌, ◌%◌, ◌^◌, ◌≤◌, ◌<◌, min, ◌≡◌, refl, sym, ap, ◌∙◌, ◌≢◌, ◌↔◌, ◌⊎◌,
  inl, inr, Bool, true, false, not, ◌&&◌, ◌||◌, Option, none, some, List, [], ◌∷◌, ◌++◌, map, arith,
  dec_lt, ℕ_discrete, ltb, leb, ◌==◌, if◌then◌else◌, ltb→lt, lt→ltb, le→not-ltb, not-ltb→le, leb→le,
  ==_iff, tests, Bool-cases, Option-cases, length, get_elem?, set, length-append, All, Inserted,
  here, there, Inserted-All, All-Inserted, All-map, u64_mod, add64, sub64, mul64, add64-eq_add,
  sub64-eq_sub, mul64-eq_mul, sub64-add64, add64-lt, add64_add, add64_add_right, apart_of_disjoint,
  apart_scaled, Errno, eperm, enoent, esrch, ebadf, eagain, enomem, efault, eexist, enotdir, einval,
  epipe, enosys, eisdir, espipe, eoverflow, enolink, enotempty, ebusy, enospc, ℤ, pos, negsuc,
  i32_max, to_i32, to_i32_small, increment, to_u64, to_i64, add_i64, to_i64_small, add_i64-eq_add,
  is_negative, int_eq, pos_injective, Outcome, ok, err, panic,
}

-- m_BlockSize and the device.
pub record Disk : Type 0 where
  pub block_size : ℕ
  pub byte : ℕ → ℕ

-- Ext2FsINodeMeta: GetSize and Blocks.
pub record Meta : Type 0 where
  pub size : ℕ
  pub blocks : ℕ → ℕ

abbrev pub u32_mod : ℕ
u32_mod = 2 ^ 32

-- The bytes of the device from an address on.
pub read : Disk → ℕ → ℕ → List ℕ
read d address zero = []
read d address (suc n) = d.byte address ∷ read d (address + 1) n

-- A little-endian u32 of the device.
pub read32 : Disk → ℕ → ℕ
read32 d address =
    d.byte address
    + 256 * d.byte (address + 1)
    + 65536 * d.byte (address + 2)
    + 16777216 * d.byte (address + 3)

-- The words of a block that holds numbers of blocks: block number `b`, entry `i`.
pub entry : Disk → ℕ → ℕ → ℕ
unfolding read32
entry d b i = read32 d (b * d.block_size + i * 4)

-- The double indirect part of GetINodeBlock, from block `i` behind the direct ones on.
pub double_indirect : Disk → Meta → ℕ → ℕ
unfolding entry
double_indirect d m i =
    let level = d.block_size / 4 in
    let j = i - level * level in
    let single = entry d (m.blocks 14) (j / level) in
    let indirect = entry d (j / level) single in entry d indirect (j % level)

-- GetINodeBlock; the number of the block is passed as a u32.
pub get_inode_block : Disk → Meta → ℕ → ℕ
unfolding entry double_indirect
get_inode_block d m number =
    let index = number % u32_mod in
    let level = d.block_size / 4 in
    let i = index - 12 in
    let j = i - level in
    if ltb index 12
    then m.blocks index
    else if ltb i level
    then entry d (m.blocks 12) i
    else if ltb (j / level) level
    then entry d (entry d (m.blocks 13) (j / level)) (j % level)
    else double_indirect d m j

abbrev pub prepend : List ℕ → Option (List ℕ) → Option (List ℕ)
prepend xs none = none
prepend xs (some ys) = some (xs ++ ys)

-- The loop of ReadINode; none where the fuel runs out.
pub read_loop : ℕ → Disk → Meta → ℕ → ℕ → ℕ → Option (List ℕ)
unfolding read
read_loop zero d m offset head bytes = if ltb head bytes then none else some []
read_loop (suc fuel) d m offset head bytes =
    let place = add64 offset head in
    let below = place % d.block_size in
    let size = min (bytes - head) (d.block_size - below) in
    let block = get_inode_block d m (place / d.block_size) in
    let rest = read_loop fuel d m below (head + size) bytes in
    if ltb head bytes then prepend (read d (block * d.block_size + below) size) rest else some []

-- ReadINode: the bytes that it writes to `out`.
pub read_inode : ℕ → Disk → Meta → ℕ → ℕ → Option (List ℕ)
unfolding read_loop
read_inode fuel d m offset bytes =
    if ltb m.size offset
    then some []
    else read_loop fuel d m offset 0
        (if ltb m.size (add64 offset bytes) then sub64 m.size offset else bytes)

-- Ext2FsINode::Read
pub read_file : ℕ → Disk → Meta → ℕ → ℕ → Option (List ℕ)
unfolding read_inode
read_file fuel d m offset bytes = read_inode fuel d m offset (
    if ltb m.size (add64 offset bytes)
    then sub64 bytes (sub64 (add64 offset bytes) m.size)
    else bytes)
