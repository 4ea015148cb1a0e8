-- ===== src/Vfs/Ext2Files/Layout.antt =====
-- Which block of the device holds a block of a file, by the layout of ext2, and what ReadINode
-- reads by it.
use cryptix_os.Vfs.Ext2Files.{Disk, Meta, u32_mod, read, read32, entry, get_inode_block, read_inode}
use cryptix_os.Vfs.Ext2Files.Content.{
  content, get_elem-content, length-content, read-content, read_inode-content, read_inode_within,
}
use cryptix_os.Common.{
  ℕ, ◌+◌, ◌-◌, ◌*◌, ◌/◌, ◌%◌, ◌^◌, ◌≤◌, ◌<◌, min, ◌≡◌, refl, sym, ap, ◌∙◌, some, List, arith,
  lt→ltb, le→not-ltb, length, get_elem?, u64_mod,
}

-- The word at entry `i` of a block of the device that holds numbers of blocks: four bytes, the
-- least significant first.
abbrev pub word : Disk → ℕ → ℕ → ℕ
word d block i =
    let at = block * d.block_size + 4 * i in
    d.byte at + 2 ^ 8 * d.byte (at + 1) + 2 ^ 16 * d.byte (at + 2) + 2 ^ 24 * d.byte (at + 3)

-- Block `k` of the file is block `b` of the device. Blocks 0 to 11 stand in the inode; the next
-- ones in a table, whose block is the thirteenth number of the inode; the ones after that in tables
-- that a table lists, whose block is the fourteenth number. A table has a quarter of the block size
-- as its number of entries. (Blocks behind these, through the fifteenth number, are left out.)
pub data HasBlock (d : Disk) (m : Meta) : ℕ → ℕ → Type 0 where
  direct : (i : ℕ) → i < 12 → HasBlock d m i (m.blocks i)
  by_table : (i : ℕ) → i < d.block_size / 4 → HasBlock d m (12 + i) (word d (m.blocks 12) i)
  by_tables :
      (i j : ℕ)
      → i < d.block_size / 4
      → j < d.block_size / 4
      → HasBlock d m
          (12 + d.block_size / 4 + (i * (d.block_size / 4) + j))
          (word d (word d (m.blocks 13) i) j)

entry-word : (d : Disk) (block i : ℕ) → entry d block i ≡ word d block i
unfolding entry read32
entry-word d block i = let e : i * 4 ≡ 4 * i = omega arith in rw e (omega arith)

-- GetINodeBlock finds it.
get_inode_block-HasBlock :
    (d : Disk) (m : Meta) (k b : ℕ) → k < u32_mod → HasBlock d m k b → get_inode_block d m k ≡ b
unfolding get_inode_block
get_inode_block-HasBlock d m k b small (direct i h) =
    let e : i % u32_mod ≡ i = omega arith in rw (e, lt→ltb i 12 h, get_inode_block) refl
get_inode_block-HasBlock d m k b small (by_table i h) =
    let e : (12 + i) % u32_mod ≡ 12 + i = omega arith in
    let f : 12 + i - 12 ≡ i = omega arith in
    rw (e, le→not-ltb (12 + i) 12 (omega arith), f, lt→ltb i (d.block_size / 4) h, get_inode_block)
      (entry-word d (m.blocks 12) i)
get_inode_block-HasBlock d m k b small (by_tables i j h g) =
    let n = d.block_size / 4 in
    let number = 12 + n + (i * n + j) in
    let e : number % u32_mod ≡ number = omega arith in
    let f : number - 12 ≡ n + (i * n + j) = omega arith in
    let f' : n + (i * n + j) - n ≡ i * n + j = omega arith in
    let q : (i * n + j) / n ≡ i = grind arith in
    let r : (i * n + j) % n ≡ j = grind arith in
    rw
      (
        e,
        le→not-ltb number 12 (omega arith),
        f,
        le→not-ltb (n + (i * n + j)) n (omega arith),
        f',
        q,
        r,
        lt→ltb i n h,
        get_inode_block,
      )
      (entry-word d (entry d (m.blocks 13) i) j
        ∙ ap (λ x. word d x j) (entry-word d (m.blocks 13) i))

-- ReadINode from the start of the file on, with a unit of fuel for each byte, reads as many bytes
-- as the count, or as the file has when these are fewer, and the byte at each place `i` among them
-- is the one that the block of the device has which the layout gives for the block of `i`, at the
-- remainder of `i`. The place lies in a block that the inode, its table or its tables of tables
-- give; its number is a 32-bit word; sizes are 64-bit words.
pub read_inode_start :
    (fuel : ℕ) (d : Disk) (m : Meta) (bytes i b : ℕ)
    → 0 < d.block_size
    → m.size < u64_mod
    → bytes < u64_mod
    → bytes ≤ fuel
    → i < min bytes m.size
    → i / d.block_size < u32_mod
    → HasBlock d m (i / d.block_size) b
    → (out : List ℕ) × (read_inode fuel d m 0 bytes ≡ some out)
      × (length out ≡ min bytes m.size)
      × (get_elem? out i ≡ some (d.byte (b * d.block_size + i % d.block_size)))
read_inode_start fuel d m bytes i b some_ small small' enough within narrow held =
    let n = min bytes m.size in
    let found = get_inode_block-HasBlock d m (i / d.block_size) b narrow held in
    let z : 0 + i ≡ i = omega arith in
    (
      content d m 0 n,
      read_inode-content fuel d m bytes some_ small small' enough,
      length-content d m 0 n,
      get_elem-content d m 0 n i within ∙ rw (z, found) refl,
    )

-- ReadINode of some bytes inside one block of the file and inside the file, from any offset, reads
-- these bytes of the block of the device that the layout gives for it. The number of the file's
-- block is a 32-bit word.
pub read_inode_block :
    (fuel : ℕ) (d : Disk) (m : Meta) (offset bytes b : ℕ)
    → 0 < d.block_size
    → 0 < bytes
    → offset % d.block_size + bytes ≤ d.block_size
    → offset + bytes ≤ m.size
    → m.size < u64_mod
    → 0 < fuel
    → offset / d.block_size < u32_mod
    → HasBlock d m (offset / d.block_size) b
    → read_inode fuel d m offset bytes
      ≡ some (read d (b * d.block_size + offset % d.block_size) bytes)
read_inode_block fuel d m offset bytes b some_ more fits inside small enough narrow held =
    let k = offset / d.block_size in
    let below = offset % d.block_size in
    let split : k * d.block_size + below ≡ offset = grind arith in
    let found = get_inode_block-HasBlock d m k b narrow held in
    read_inode_within fuel d m offset bytes some_ more fits inside small enough
    ∙ ap some (
        ap (λ a. content d m a bytes) (sym split)
        ∙ sym (read-content d m k below bytes fits)
        ∙ ap (λ x. read d (x * d.block_size + below) bytes) found)
