-- ===== src/Vfs/SynthFs/Tests.antt =====
-- A file in memory, on which the laws are applied.
use cryptix_os.Vfs.Buffer.{list_buffer}
use cryptix_os.Vfs.Inode
use cryptix_os.Vfs.SynthFs.{Node}
use cryptix_os.Vfs.SynthFs.Files.{synth_inode, read-seek-write}
use cryptix_os.Vfs.Description
use cryptix_os.Vfs.Description.{Description}
use cryptix_os.Common.{ℕ, ◌*◌, ◌≡◌, refl, some, List, [], ◌∷◌, arith, pos, ok}

abbrev eight_bytes : Node list_buffer
eight_bytes = record {
  mode = 8 * 4096;
  metadata_size = 8;
  link_count = 1;
  buffer = 1 ∷ 2 ∷ 3 ∷ 4 ∷ 5 ∷ 6 ∷ 7 ∷ 8 ∷ [];
}

abbrev opened : Description (synth_inode list_buffer)
opened = record {
  file = some (Inode.new_file (synth_inode list_buffer) eight_bytes);
  access_mode = 3;
  offset = 6;
}

abbrev three_bytes : List ℕ
three_bytes = 97 ∷ 98 ∷ 99 ∷ []

read-seek-write_example :
    (d : Description (synth_inode list_buffer)) × (Description.write
        (synth_inode list_buffer)
        opened
        three_bytes
        (pos 6)
      ≡ (ok (pos 3), d))
    × ((Description.seek (synth_inode list_buffer) d (pos 0) (pos 6)).0 ≡ ok (pos 6))
    × (Description.read
          (synth_inode list_buffer)
          (Description.seek (synth_inode list_buffer) d (pos 0) (pos 6)).1
          3
          (pos 6)
        ≡ (ok (pos 3), three_bytes, d))
read-seek-write_example =
    read-seek-write list_buffer opened eight_bytes three_bytes refl refl refl refl (omega arith)
      (omega arith)
