-- ===== src/Vfs/Listing.antt =====
-- Kernel/VFS/FileDescriptor.{hpp,cpp} and API/Posix/dirent.h: the directory entries that are read
-- through a descriptor. The deque of records is Prism's and taken as a list; a record is not null.
pub mod Copy
pub mod Generate
mod Tests
use cryptix_os.Common.Prism.{MathOps}
use cryptix_os.Common.{
  ℕ, zero, suc, ◌+◌, ◌-◌, ◌*◌, ◌/◌, ◌%◌, ◌^◌, ◌≤◌, ◌<◌, min, ◌≡◌, refl, sym, ap, ◌∙◌, ◌≢◌, ◌↔◌, ◌⊎◌,
  inl, inr, Bool, true, false, not, ◌&&◌, ◌||◌, Option, none, some, List, [], ◌∷◌, ◌++◌, map, arith,
  dec_lt, ℕ_discrete, ltb, leb, ◌==◌, if◌then◌else◌, ltb→lt, lt→ltb, le→not-ltb, not-ltb→le, leb→le,
  ==_iff, tests, Bool-cases, Option-cases, length, get_elem?, set, length-append, All, Inserted,
  here, there, Inserted-All, All-Inserted, All-map, u64_mod, add64, sub64, mul64, add64-eq_add,
  sub64-eq_sub, mul64-eq_mul, sub64-add64, add64-lt, add64_add, add64_add_right, apart_of_disjoint,
  apart_scaled, Errno, eperm, enoent, esrch, ebadf, eagain, enomem, efault, eexist, enotdir, einval,
  epipe, enosys, eisdir, espipe, eoverflow, ℤ, pos, negsuc, i32_max, to_i32, to_i32_small,
  increment, to_u64, to_i64, add_i64, to_i64_small, add_i64-eq_add, is_negative, int_eq,
  pos_injective, Outcome, ok, err, panic, ◌>>=◌,
}

-- dirent: 1048 bytes, of which d_name takes the last 1024.
pub record Dirent : Type 0 where
  pub ino : ℕ
  pub off : ℕ
  pub reclen : ℕ
  pub type : ℕ
  pub name : List ℕ

abbrev pub sizeof_dirent : ℕ
sizeof_dirent = 1048

abbrev pub dirent_length : ℕ
dirent_length = sizeof_dirent - 1024

-- What a directory has of a child, or of itself: st_ino and st_mode.
pub record Stats : Type 0 where
  pub ino : ℕ
  pub mode : ℕ

-- A child of a directory; without an inode it is none.
pub record Child : Type 0 where
  pub name : List ℕ
  pub inode : Option Stats

-- The directory behind the descriptor's entry, mounts and links followed.
pub record Directory : Type 0 where
  pub self : Stats
  pub parent : Option Stats
  pub children : List Child

-- DirectoryEntries, m_DirectoryIterator as the children still to come, and m_Offset.
pub record Listing : Type 0 where
  pub entries : List Dirent
  pub should_regenerate : Bool
  pub iterator : List Child
  pub offset : ℕ

-- IF2DT, cut to the unsigned char of d_type.
pub type_of_mode : ℕ → ℕ
type_of_mode mode = mode / 4096 % 16

-- CopyAndPop: the size of the record that was copied, the record, and those behind it.
pub copy_and_pop : List Dirent → ℕ → ℕ × List Dirent × List Dirent
copy_and_pop [] capacity = (0, [], [])
copy_and_pop (e ∷ es) capacity =
    if ltb capacity e.reclen then (0, [], e ∷ es) else (e.reclen, e ∷ [], es)

-- What the loop of GetDirEntries ends with: `bytes`, `offset`, the records copied, and those left.
pub record Copied : Type 0 where
  pub bytes : ℕ
  pub offset : ℕ
  pub out : List Dirent
  pub left : List Dirent

-- The loop of GetDirEntries. Each round takes a record or is the last.
pub copy_entries : ℕ → ℕ → ℕ → List Dirent → List Dirent → Copied
copy_entries length bytes offset out [] = record {
  bytes = if ltb offset length then offset else bytes;
  offset = offset;
  out = out;
  left = [];
}
copy_entries length bytes offset out (e ∷ es) =
    let (copied, taken, left) = copy_and_pop (e ∷ es) (length - offset) in
    let rest = copy_entries length offset (add64 offset copied) (out ++ taken) es in
    if not (ltb offset length)
    then record { bytes = bytes; offset = offset; out = out; left = e ∷ es }
    else if copied == 0
    then record { bytes = offset; offset = offset; out = out ++ taken; left = left }
    else rest

-- The sum of d_reclen over the records.
pub total : ℕ → List Dirent → ℕ
total n [] = n
total n (e ∷ es) = total (add64 n e.reclen) es

-- The bound of that loop.
pub copy_length : ℕ → List Dirent → ℕ
copy_length max_size es = sub64 (min max_size (total 0 es)) sizeof_dirent

pub is_empty : List Dirent → Bool
is_empty [] = true
is_empty (_ ∷ _) = false

-- GetDirEntries from the second test of IsEmpty on: the result, what is put in the buffer, the
-- listing.
pub hand_out_list : Listing → List Dirent → ℕ → Outcome ℕ × List Dirent × Listing
hand_out_list l [] max_size = (ok 0, [], l)
hand_out_list l (e ∷ es) max_size =
    let c = copy_entries (copy_length max_size (e ∷ es)) 0 0 [] (e ∷ es) in
    if ltb max_size e.reclen then (err einval, [], l) else (
      ok (if l.should_regenerate then 0 else c.bytes),
      c.out,
      record l { entries = c.left; should_regenerate = is_empty c.left },
    )

pub hand_out : Listing → ℕ → Outcome ℕ × List Dirent × Listing
hand_out l max_size = hand_out_list l l.entries max_size

pub hand_out_generated : Option Listing → ℕ → Option (Outcome ℕ × List Dirent × Listing)
hand_out_generated none max_size = none
hand_out_generated (some l) max_size = some (hand_out l max_size)

pub keep_flag : Bool → Option Listing → Option Listing
keep_flag flag none = none
keep_flag flag (some l) = some (record l { should_regenerate = flag })

-- Where GenerateDirEntries goes on; from the start, when the iterator is at the end.
pub resume : Directory → List Child → ℕ → List Child × ℕ
resume d [] offset = (d.children, 0)
resume d (c ∷ cs) offset = (c ∷ cs, offset)

-- How a round of GenerateDirEntries goes on: without an inode, at the first two offsets, for a
-- child.
pub visit :
    Option Stats
    → ℕ
    → Option Listing
    → Option Listing
    → Option Listing
    → (Stats → Option Listing)
    → Option Listing
visit none offset skipped self parent child = skipped
visit (some stats) offset skipped self parent child =
    if offset == 0 then self else if offset == 1 then parent else child stats

module _ (M : MathOps) where
  open M use {align_up}

  -- Push, which DirectoryEntries::Size follows; nothing reads that size.
  pub push : List Dirent → List ℕ → ℕ → Stats → List Dirent
  push es name offset stats =
      let reclen = align_up (dirent_length + length name + 1) 8 in
      es
      ++ (record {
        ino = stats.ino;
        off = reclen;
        reclen = reclen % 2 ^ 16;
        type = type_of_mode stats.mode;
        name = name;
      }
          ∷ [])

  -- "." and ".."
  abbrev pub dot : List ℕ
  dot = 46 ∷ []

  abbrev pub dot_dot : List ℕ
  dot_dot = 46 ∷ 46 ∷ []

  pub parent_of : Directory → Stats
  parent_of d = elim d.parent [ some p ↦ p | none ↦ d.self ]

  -- The loop of GenerateDirEntries; none when the fuel does not do. The iterator moves on in a
  -- round for a child alone.
  pub generate : ℕ → Directory → List Dirent → List Child → ℕ → Option Listing
  generate zero d es iterator offset = none
  generate (suc fuel) d es [] offset =
      some (record { entries = es; should_regenerate = false; iterator = []; offset = offset })
  generate (suc fuel) d es (c ∷ cs) offset =
      let skipped = generate fuel d es (c ∷ cs) (add64 offset 1) in
      let self = generate fuel d (push es dot offset d.self) (c ∷ cs) (add64 offset 1) in
      let parent =
        generate fuel d (push es dot_dot offset (parent_of d)) (c ∷ cs) (add64 offset 1) in
      let child : Stats → Option Listing =
        λ stats. generate fuel d (push es c.name offset stats) cs (add64 offset 1) in
      visit c.inode offset skipped self parent child

  -- GenerateDirEntries, with ShouldRegenerate left as it is.
  pub generate_dir_entries : ℕ → Directory → Listing → Option Listing
  generate_dir_entries fuel d l =
      let (iterator, offset) = resume d l.iterator l.offset in
      keep_flag l.should_regenerate (generate fuel d [] iterator offset)

  -- GetDirEntries for a directory.
  pub get_dir_entries : ℕ → Directory → Listing → ℕ → Option (Outcome ℕ × List Dirent × Listing)
  get_dir_entries fuel d l max_size =
      if is_empty l.entries
      then hand_out_generated (generate_dir_entries fuel d l) max_size
      else some (hand_out l max_size)
