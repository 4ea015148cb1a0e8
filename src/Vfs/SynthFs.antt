-- ===== src/Vfs/SynthFs.antt =====
-- Kernel/VFS/SynthFsINode.{hpp,cpp} with the mode tests of API/Posix/sys/stat.h: the nodes of the
-- file systems that are kept in memory, as far as the bytes of a file go. The lock makes an
-- operation one step. Times, owners and block counts play no part, and the caller's buffer is not
-- null.
pub mod Content
pub mod Files
mod Tests
use cryptix_os.Vfs.Buffer.{BufferOps}
use cryptix_os.Memory.Pmm.{page_bytes}
use cryptix_os.Common.{
  ℕ, zero, suc, ◌+◌, ◌-◌, ◌*◌, ◌/◌, ◌%◌, ◌^◌, ◌≤◌, ◌<◌, min, ◌≡◌, refl, sym, ap, ◌∙◌, ◌≢◌, ◌↔◌, ◌⊎◌,
  inl, inr, Bool, true, false, not, ◌&&◌, ◌||◌, Option, none, some, List, [], ◌∷◌, ◌++◌, map, arith,
  dec_lt, ℕ_discrete, ltb, leb, ◌==◌, if◌then◌else◌, ltb→lt, lt→ltb, le→not-ltb, not-ltb→le, leb→le,
  ==_iff, tests, Bool-cases, Option-cases, length, get_elem?, set, length-append, All, Inserted,
  here, there, Inserted-All, All-Inserted, All-map, u64_mod, add64, sub64, mul64, add64-eq_add,
  sub64-eq_sub, mul64-eq_mul, sub64-add64, add64-lt, add64_add, add64_add_right, apart_of_disjoint,
  apart_scaled, Errno, eperm, enoent, esrch, ebadf, eagain, enomem, efault, eexist, enotdir, einval,
  epipe, enosys, eisdir, espipe, eoverflow, ℤ, pos, negsuc, i32_max, to_i32, to_i32_small,
  increment, to_u64, to_i64, add_i64, to_i64_small, add_i64-eq_add, is_negative, int_eq,
  pos_injective, Outcome, ok, err, panic, ◌>>=◌,
}

-- The file type of a mode: S_IFDIR is 4 << 12, S_IFREG is 8 << 12.
abbrev pub file_type : ℕ → ℕ
file_type mode = mode / 4096 % 16

abbrev pub is_directory_mode : ℕ → Bool
is_directory_mode mode = file_type mode == 4

pub is_regular_mode : ℕ → Bool
is_regular_mode mode = file_type mode == 8

abbrev pub directory_entry_size : ℕ
directory_entry_size = 20

abbrev pub default_size : ℕ
default_size = 4096

-- The loop of Write that doubles the capacity; none where it does not end.
pub grow : ℕ → ℕ → ℕ → Option ℕ
grow zero need capacity = none
grow (suc fuel) need capacity =
    let rest = grow fuel need (mul64 capacity 2) in
    if ltb capacity need then rest else some capacity

module _ (B : BufferOps) where
  open B use {Buffer, size, resize}

  pub record Node : Type 0 where
    pub mode : ℕ
    pub metadata_size : ℕ
    pub link_count : ℕ
    pub buffer : Buffer

  -- The constructor: `a ?: b` is a, as a number, unless it is 0.
  pub new_node : ℕ → Node
  new_node mode = record {
    mode = mode;
    metadata_size = if is_directory_mode mode then 1 else directory_entry_size * 2;
    link_count = if is_directory_mode mode then 2 else 1;
    buffer = B.empty;
  }

  -- The part of CreateNode that makes the new node.
  pub create_node : ℕ → Node
  create_node mode =
      if is_regular_mode mode
      then record (new_node mode) {
        metadata_size = default_size;
        buffer = resize (new_node mode).buffer default_size;
      }
      else new_node mode

  pub resize_buffer : Node → ℕ → Node
  resize_buffer f n = let b = resize f.buffer n in record f { metadata_size = size b; buffer = b }

  -- How many bytes are read, and these bytes. The Assert on the offset is a panic.
  pub read : Node → ℤ → ℕ → Outcome (ℕ × List ℕ)
  read f (negsuc n) bytes = panic
  read f (pos offset) bytes =
      let n = min bytes (sub64 (size f.buffer) offset) in ok (n, B.read f.buffer offset n)

  -- The part of Write behind the loop.
  pub fill : Node → ℕ → List ℕ → Option ℕ → Option (Outcome ℕ × Node)
  fill f offset bytes none = none
  fill f offset bytes (some capacity) =
      let r = resize_buffer f capacity in
      some (ok (length bytes), record r { buffer = B.write r.buffer offset bytes })

  -- Every capacity above 0 is large enough after 64 doublings or has become 0, and then stays 0.
  pub write : Node → ℤ → List ℕ → Option (Outcome ℕ × Node)
  write f (negsuc n) bytes = some (panic, f)
  write f (pos offset) bytes =
      let start = if size f.buffer == 0 then page_bytes else size f.buffer in
      fill f offset bytes (grow 65 (add64 offset (length bytes)) start)

  -- ShrinkToFit does not change the contents.
  pub truncate : Node → ℕ → Outcome ℤ × Node
  truncate f n = if n == size f.buffer then (ok (pos 0), f) else (ok (pos 0), resize_buffer f n)
