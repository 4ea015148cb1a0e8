-- ===== src/Vfs/Directories/Tests.antt =====
-- A directory with one file, on which the laws are applied.
use cryptix_os.Boot.CommandLine.{String, same_string}
use cryptix_os.Vfs.Directories.{
  Node, TmpFs, find_child, lookup, create_node, create_directory, link, unlink, rmdir,
}
use cryptix_os.Vfs.Directories.Laws.{Created, create_node-Created}
use cryptix_os.Vfs.Directories.Links.{unlink-link}
use cryptix_os.Vfs.Directories.Removal.{rmdir-create_directory}
use cryptix_os.Common.{ℕ, ◌≡◌, refl, none, some, [], ◌∷◌, arith, ◌==◌, if◌then◌else◌, add64, ok}

-- "a" and "b"
abbrev a_text : String
a_text = 97 ∷ []

abbrev b_text : String
b_text = 98 ∷ []

-- A directory of the mode 0755 with the file "a", and this file.
abbrev directory : Node
directory = record {
  mode = 16877;
  metadata_size = 21;
  link_count = 2;
  device = 0;
  target = [];
  children = (a_text, 3) ∷ [];
}

abbrev file : Node
file = record {
  mode = 33188;
  metadata_size = 4096;
  link_count = 1;
  device = 0;
  target = [];
  children = [];
}

abbrev files : TmpFs
files = record {
  next_index = 4;
  max_count = 100;
  free_count = 98;
  node = λ i. if i == 2 then some directory else if i == 3 then some file else none;
}

create_node-Created_example :
    Created files 2 directory b_text 33188 0 refl
      (create_node files 2 b_text 33188 0).0
      (create_node files 2 b_text 33188 0).1
create_node-Created_example = create_node-Created files 2 directory b_text 33188 0 refl refl

rmdir-create_directory_example :
    (t : TmpFs) × (u : TmpFs) × ((create_directory files 2 b_text 493 ≡ (ok 4, t))
      × (rmdir t 2 b_text 4 ≡ (ok tt, u))
      × ((e : ℕ) → u.node e ≡ files.node e)
      × (u.free_count ≡ 98)
      × (u.next_index ≡ 5))
unfolding find_child same_string
rmdir-create_directory_example =
    rmdir-create_directory files 2 directory b_text 493 refl refl refl refl (omega arith)
      (omega arith)

unlink-link_example :
    (t : TmpFs) × ((link files 2 3 ≡ (ok 3, t))
      × (t.node 3 ≡ some (record file { link_count = 2 }))
      × ((e : ℕ) (name : String) → lookup t e name ≡ lookup files e name)
      × ((name : String)
          → find_child directory.children name ≡ none
          → unlink t 2 name 3 ≡ (ok tt, t)))
unfolding add64
unlink-link_example = unlink-link files 2 3 file directory (omega arith) refl refl refl
