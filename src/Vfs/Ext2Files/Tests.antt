-- ===== src/Vfs/Ext2Files/Tests.antt =====
-- A small disk with blocks of 8 bytes, on which the laws are applied.
use cryptix_os.Vfs.Ext2Files.{Disk, Meta, read, read_inode}
use cryptix_os.Vfs.Ext2Files.Content.{content, read_inode_beyond}
use cryptix_os.Vfs.Ext2Files.Layout.{HasBlock, direct, read_inode_start, read_inode_block}
use cryptix_os.Common.{
  ◌+◌, ◌*◌, ◌%◌, ℕ, List, min, length, get_elem?, ◌≡◌, some, ◌++◌, arith, ◌==◌, if◌then◌else◌,
}

-- Every byte of the disk is its address.
abbrev disk : Disk
disk = record { block_size = 8; byte = λ address. address }

-- Three blocks, 5, 3 and 9.
abbrev file : Meta
file = record { size = 20; blocks = λ i. if i == 0 then 5 else if i == 1 then 3 else 9 }

file-1 : HasBlock disk file 1 3
file-1 = direct 1 (omega arith)

read_inode_start_example :
    (out : List ℕ) × (read_inode 12 disk file 0 12 ≡ some out)
    × (length out ≡ min 12 20)
    × (get_elem? out 10 ≡ some (disk.byte (3 * 8 + 10 % 8)))
read_inode_start_example =
    read_inode_start 12 disk file 12 10 3 (omega arith) (omega arith) (omega arith) (omega arith)
      (omega arith) (omega arith) file-1

read_inode_block_example : read_inode 1 disk file 10 5 ≡ some (read disk (3 * 8 + 10 % 8) 5)
read_inode_block_example =
    read_inode_block 1 disk file 10 5 3 (omega arith) (omega arith) (omega arith) (omega arith)
      (omega arith) (omega arith) (omega arith) file-1

read_inode_beyond_example :
    read_inode 10 disk file 8 10 ≡ some (content disk file 8 8 ++ content disk file 8 2)
read_inode_beyond_example =
    read_inode_beyond 10 disk file 1 10 (omega arith) (omega arith) (omega arith) (omega arith)
      (omega arith)
