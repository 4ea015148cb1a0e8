-- ===== src/Vfs/Ext2/Tests.antt =====
-- A file system of two groups, on which the laws are applied.
use cryptix_os.Vfs.Ext2.{Ext2, Descriptor, INodeMeta, new_block, write_inode_entry}
use cryptix_os.Vfs.Ext2.Blocks.{Available, Exhausted, grown, block_taken, new_block_cases}
use cryptix_os.Common.{ℕ, zero, suc, ◌+◌, ◌*◌, ◌≡◌, ◌⊎◌, arith, ltb}

abbrev group : ℕ → Descriptor
group zero = record {
  block_bitmap = 3;
  inode_bitmap = 4;
  free_block_count = 2;
  free_inode_count = 5;
}
group (suc g) = record {
  block_bitmap = 35;
  inode_bitmap = 36;
  free_block_count = 7;
  free_inode_count = 9;
}

abbrev one_sector : INodeMeta
one_sector = record { sector_count = 1; other = λ _. 0 }

-- The first four blocks and inodes of each group are taken.
abbrev small_disk : Ext2
small_disk = record {
  block_size = 4;
  block_count = 64;
  blocks_per_group = 32;
  inodes_per_group = 32;
  first_non_reserved = 11;
  free_inodes = 14;
  free_blocks = 9;
  group_count = 2;
  descriptors = group;
  blocks = λ a i. ltb i 4;
  device_block = 2;
  entries = λ _. one_sector;
}

new_block_cases_example :
    ((left : Ext2) × (new_block small_disk one_sector 12 ≡ (0, one_sector, left))
      × Exhausted small_disk left)
    ⊎ ((g b : ℕ) × Available small_disk g b
        × new_block small_disk one_sector 12 ≡ (
          g * 32 + b,
          grown small_disk one_sector,
          write_inode_entry (block_taken small_disk g b) (grown small_disk one_sector) 12,
        ))
new_block_cases_example = new_block_cases small_disk one_sector 12 (omega arith) (omega arith)
