-- ===== src/Vfs/Directories.antt =====
-- Kernel/VFS/SynthFsINode.{hpp,cpp} with TmpFs::AllocateNode and FreeINode: the directories of the
-- file systems that are kept in memory. A node is known by its number, as pointers are not reused
-- here. Owners, times and the cache of entries play no part.
pub mod Laws
pub mod Links
pub mod Removal
mod Tests
use cryptix_os.Boot.CommandLine.{String, same_string}
use cryptix_os.Vfs.SynthFs.{is_directory_mode, is_regular_mode, directory_entry_size, default_size}
use cryptix_os.Common.{
  ℕ, zero, suc, ◌+◌, ◌-◌, ◌*◌, ◌/◌, ◌%◌, ◌^◌, ◌≤◌, ◌<◌, min, ◌≡◌, refl, sym, ap, ◌∙◌, ◌≢◌, ◌↔◌, ◌⊎◌,
  inl, inr, Bool, true, false, not, ◌&&◌, ◌||◌, Option, none, some, List, [], ◌∷◌, ◌++◌, map, arith,
  dec_lt, ℕ_discrete, ltb, leb, ◌==◌, if◌then◌else◌, ltb→lt, lt→ltb, le→not-ltb, not-ltb→le, leb→le,
  ==_iff, tests, Bool-cases, Option-cases, length, get_elem?, set, length-append, All, Inserted,
  here, there, Inserted-All, All-Inserted, All-map, u64_mod, add64, sub64, mul64, add64-eq_add,
  sub64-eq_sub, mul64-eq_mul, sub64-add64, add64-lt, add64_add, add64_add_right, apart_of_disjoint,
  apart_scaled, Errno, eperm, enoent, esrch, ebadf, eagain, enomem, efault, eexist, enotdir, einval,
  epipe, enosys, eisdir, espipe, eoverflow, enolink, enotempty, ebusy, enospc, ℤ, pos, negsuc,
  i32_max, to_i32, to_i32_small, increment, to_u64, to_i64, add_i64, to_i64_small, add_i64-eq_add,
  is_negative, int_eq, pos_injective, Outcome, ok, err, panic,
}

pub record Node : Type 0 where
  pub mode : ℕ
  pub metadata_size : ℕ
  pub link_count : ℕ
  pub device : ℕ
  pub target : String
  -- m_Children, Prism's map, as a list of its entries.
  pub children : List (String × ℕ)

-- A TmpFs. Numbers of nodes that are not in use have none.
pub record TmpFs : Type 0 where
  pub next_index : ℕ
  pub max_count : ℕ
  pub free_count : ℕ
  pub node : ℕ → Option Node

unfoldable pub find_child : List (String × ℕ) → String → Option ℕ
find_child [] name = none
find_child ((k, i) ∷ es) name =
    let rest = find_child es name in if same_string k name then some i else rest

-- m_Children[name] = inode
pub assign_child : List (String × ℕ) → String → ℕ → List (String × ℕ)
assign_child [] name i = (name, i) ∷ []
assign_child ((k, j) ∷ es) name i =
    let rest = assign_child es name i in if same_string k name then (k, i) ∷ es else (k, j) ∷ rest

pub erase_child : List (String × ℕ) → String → List (String × ℕ)
erase_child [] name = []
erase_child ((k, j) ∷ es) name =
    let rest = erase_child es name in if same_string k name then es else (k, j) ∷ rest

abbrev pub set_node : TmpFs → ℕ → Option Node → TmpFs
set_node fs i x = record fs { node = λ j. if j == i then x else fs.node j }

-- mode & ~S_IFMT | type << 12
pub with_type : ℕ → ℕ → ℕ
with_type mode type = mode / 65536 * 65536 + type * 4096 + mode % 4096

-- S_IFREG, S_IFDIR and S_IFLNK
abbrev pub regular_type : ℕ
regular_type = 8

abbrev pub directory_type : ℕ
directory_type = 4

abbrev pub link_type : ℕ
link_type = 10

pub has_group_bit : ℕ → Bool
has_group_bit mode = mode / 1024 % 2 == 1

-- mode | S_ISGID
pub set_group_bit : ℕ → ℕ
unfolding has_group_bit
set_group_bit mode = if has_group_bit mode then mode else mode + 1024

-- The constructor: `a ?: b` is a, as a number, unless it is 0.
pub new_node : ℕ → Node
new_node mode = record {
  mode = mode;
  metadata_size = if is_directory_mode mode then 1 else directory_entry_size * 2;
  link_count = if is_directory_mode mode then 2 else 1;
  device = 0;
  target = [];
  children = [];
}

-- AllocateNode
pub allocate_node : TmpFs → ℕ → Outcome ℕ × TmpFs
unfolding new_node
allocate_node fs mode =
    if leb fs.max_count fs.next_index || fs.free_count == 0 then (err enospc, fs) else (
      ok fs.next_index,
      record (set_node fs fs.next_index (some (new_node mode))) {
        next_index = fs.next_index + 1;
        free_count = fs.free_count - 1;
      },
    )

-- FreeINode
pub free_inode : TmpFs → ℕ → TmpFs
free_inode fs i = record (set_node fs i none) { free_count = fs.free_count + 1 }

-- Lookup
pub lookup : TmpFs → ℕ → String → Outcome ℕ
unfolding find_child
lookup fs d name = elim (fs.node d) [
  | none ↦ panic
  | some x ↦ elim (find_child (x.children) name) [ none ↦ err enoent | some i ↦ ok i ]
]

-- The new node in CreateNode, in a directory of the mode `parent_mode`.
pub created : ℕ → ℕ → ℕ → Node
unfolding new_node set_group_bit has_group_bit
created parent_mode mode device =
    let x = new_node mode in
    record x {
      metadata_size = if is_regular_mode mode then default_size else x.metadata_size;
      mode =
          if has_group_bit parent_mode && is_directory_mode mode then set_group_bit mode else mode;
      device = device;
    }

-- The directory after CreateNode has inserted the node `i`.
pub grown : Node → String → ℕ → Node
unfolding assign_child
grown x name i = record x {
  metadata_size = add64 x.metadata_size directory_entry_size;
  children = assign_child x.children name i;
}

-- CreateNode in the directory `d`.
pub create_node : TmpFs → ℕ → String → ℕ → ℕ → Outcome ℕ × TmpFs
unfolding find_child allocate_node created grown
create_node fs d name mode device = elim (fs.node d) [
  | none ↦ (panic, fs)
  | some x ↦ elim (find_child (x.children) name) [
    | some _ ↦ (err eexist, fs)
    | none ↦
        let (answer, fs1) = allocate_node fs mode in
        elim answer [
          | err e ↦ (err e, fs1)
          | panic ↦ (panic, fs1)
          | ok i ↦ (
            ok i,
            set_node (set_node fs1 i (some (created x.mode mode device))) d (some (grown x name i)),
          )
        ]
  ]
]

-- CreateFile
pub create_file : TmpFs → ℕ → String → ℕ → Outcome ℕ × TmpFs
unfolding create_node with_type
create_file fs d name mode = create_node fs d name (with_type mode regular_type) 0

-- What becomes of a node when its link count changes.
abbrev pub with_links : TmpFs → ℕ → (ℕ → ℕ) → TmpFs
with_links fs i change = elim (fs.node i) [
  | none ↦ fs
  | some x ↦ set_node fs i (some (record x { link_count = change x.link_count }))
]

-- CreateDirectory
pub create_directory : TmpFs → ℕ → String → ℕ → Outcome ℕ × TmpFs
unfolding create_node with_type
create_directory fs d name mode =
    let (answer, fs1) = create_node fs d name (with_type mode directory_type) 0 in
    elim answer [
      | ok i ↦ (ok i, with_links fs1 d (λ n. add64 n 1))
      | err e ↦ (err e, fs1)
      | panic ↦ (panic, fs1)
    ]

-- Symlink; 511 is 0777.
pub make_link : TmpFs → ℕ → String → String → Outcome ℕ × TmpFs
unfolding create_node with_type
make_link fs d name target =
    let (answer, fs1) = create_node fs d name (with_type 511 link_type) 0 in
    elim answer [
      | ok i ↦ elim (fs1.node i) [
        | none ↦ (panic, fs1)
        | some x ↦ (ok i, set_node fs1 i (some (record x { target = target })))
      ]
      | err e ↦ (err e, fs1)
      | panic ↦ (panic, fs1)
    ]

-- Link of the node `i` into the directory `d`; the new name is only bound in the cache.
pub link : TmpFs → ℕ → ℕ → Outcome ℕ × TmpFs
link fs d i = elim (fs.node i) [
  | none ↦ (panic, fs)
  | some x ↦ if is_directory_mode x.mode then (err eperm, fs) else elim (fs.node d) [
    | none ↦ (panic, fs)
    | some y ↦
        let fs1 =
          set_node fs d
            (some (record y { metadata_size = add64 y.metadata_size directory_entry_size })) in
        (ok i, with_links fs1 i (λ n. add64 n 1))
  ]
]

-- Rename of the node `i` into the directory `d`.
pub rename : TmpFs → ℕ → ℕ → String → Outcome {0} Unit × TmpFs
unfolding assign_child
rename fs i d name = elim (fs.node d) [
  | none ↦ (panic, fs)
  | some y ↦ (ok tt, set_node fs d (some (record y { children = assign_child y.children name i })))
]

-- The links that the node must still have to be kept: LinkCount != 0 + IsDirectory.
pub is_unlinked : Node → Bool
is_unlinked x = x.link_count == (if is_directory_mode x.mode then 1 else 0)

pub erase_at : TmpFs → ℕ → String → TmpFs
unfolding erase_child
erase_at fs d name = elim (fs.node d) [
  | none ↦ fs
  | some y ↦ set_node fs d (some (record y { children = erase_child y.children name }))
]

-- The end of Unlink, when the name is a child: `i` is the node of the entry.
pub drop_name : TmpFs → ℕ → Node → String → ℕ → Outcome {0} Unit × TmpFs
unfolding erase_at is_unlinked free_inode
drop_name fs d y name i =
    let fs1 =
      set_node fs d
        (some (record y { metadata_size = sub64 y.metadata_size directory_entry_size })) in
    elim (fs1.node i) [
      | none ↦ (panic, fs1)
      | some x ↦
          let x1 = record x { link_count = sub64 x.link_count 1 } in
          let fs2 = set_node fs1 i (some x1) in
          if is_unlinked x1 then (ok tt, free_inode (erase_at fs2 d name) i) else (ok tt, fs2)
    ]

-- Unlink of the entry `name` of the node `i`.
pub unlink : TmpFs → ℕ → String → ℕ → Outcome {0} Unit × TmpFs
unfolding find_child drop_name
unlink fs d name i = elim (fs.node d) [
  | none ↦ (panic, fs)
  | some y ↦ elim (find_child (y.children) name) [
    | none ↦ (ok tt, fs)
    | some _ ↦ drop_name fs d y name i
  ]
]

pub has_children : Node → Bool
has_children x = elim (x.children) [ [] ↦ false | _ ∷ _ ↦ true ]

-- RmDir
pub rmdir : TmpFs → ℕ → String → ℕ → Outcome {0} Unit × TmpFs
unfolding has_children unlink
rmdir fs d name i = elim (fs.node i) [
  | none ↦ (panic, fs)
  | some x ↦
      if has_children x
      then (err enotempty, fs)
      else unlink (with_links fs d (λ n. sub64 n 1)) d name i
]
