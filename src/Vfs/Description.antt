-- ===== src/Vfs/Description.antt =====
-- Kernel/VFS/FileDescriptor.{hpp,cpp}: an open file. The lock makes a call one step. Where m_File
-- is null and the code goes through it all the same, the outcome is a panic.
pub mod Seek
pub mod Access
mod Tests
use cryptix_os.Vfs.Inode
use cryptix_os.Vfs.Inode.{InodeOps, File, FileKind}
use cryptix_os.Common.{
  ℕ, zero, suc, ◌+◌, ◌-◌, ◌*◌, ◌/◌, ◌%◌, ◌^◌, ◌≤◌, ◌<◌, min, ◌≡◌, refl, sym, ap, ◌∙◌, ◌≢◌, ◌↔◌, ◌⊎◌,
  inl, inr, Bool, true, false, not, ◌&&◌, ◌||◌, Option, none, some, List, [], ◌∷◌, ◌++◌, map, arith,
  dec_lt, ℕ_discrete, ltb, leb, ◌==◌, if◌then◌else◌, ltb→lt, lt→ltb, le→not-ltb, not-ltb→le, leb→le,
  ==_iff, tests, Bool-cases, Option-cases, length, get_elem?, set, length-append, All, Inserted,
  here, there, Inserted-All, All-Inserted, All-map, u64_mod, add64, sub64, mul64, add64-eq_add,
  sub64-eq_sub, mul64-eq_mul, sub64-add64, add64-lt, add64_add, add64_add_right, apart_of_disjoint,
  apart_scaled, Errno, eperm, enoent, esrch, ebadf, eagain, enomem, efault, eexist, enotdir, einval,
  epipe, enosys, eisdir, espipe, eoverflow, ℤ, pos, negsuc, i32_max, to_i32, to_i32_small,
  increment, to_u64, to_i64, add_i64, to_i64_small, add_i64-eq_add, is_negative, int_eq,
  pos_injective, Outcome, ok, err, panic, ◌>>=◌,
}

-- FileAccessMode: eRead is bit 0, eWrite is bit 1.
abbrev pub mode_read : ℕ
mode_read = 1

abbrev pub mode_write : ℕ
mode_write = 2

abbrev pub can_read : ℕ → Bool
can_read mode = mode % 2 == 1

abbrev pub can_write : ℕ → Bool
can_write mode = mode / 2 % 2 == 1

-- SEEK_SET, SEEK_CUR, SEEK_END
pub data Whence : Type 0 where
  seek_set seek_cur seek_end seek_other : Whence

pub seek_whence : ℤ → Whence
seek_whence whence =
    if int_eq whence (pos 0)
    then seek_set
    else if int_eq whence (pos 1)
    then seek_cur
    else if int_eq whence (pos 2)
    then seek_end
    else seek_other

abbrev pub i64_max : ℕ
i64_max = 2 ^ 63 - 1

-- n >= NumericLimits<off_t>::Max()
pub at_max : ℤ → Bool
at_max (pos n) = leb i64_max n
at_max (negsuc n) = false

-- The result of File::Read and File::Write with `ValueOr(0)`; a failed Assert stays one.
pub value_or_zero : Outcome ℤ → Outcome ℤ
value_or_zero (ok n) = ok n
value_or_zero (err e) = ok (pos 0)
value_or_zero panic = panic

-- What is read, apart from its count.
pub count_of : Outcome (ℤ × List ℕ) → Outcome ℤ
count_of (ok r) = ok r.0
count_of (err e) = err e
count_of panic = panic

pub bytes_of : Outcome (ℤ × List ℕ) → List ℕ
bytes_of (ok r) = r.1
bytes_of (err e) = []
bytes_of panic = []

module _ (I : InodeOps) where
  pub record Description : Type 0 where
    pub file : Option (File I)
    pub access_mode : ℕ
    pub offset : ℕ

  pub start_at : ℕ → ℤ → ℤ
  start_at m_offset offset = if is_negative offset then to_i64 m_offset else offset

  -- The end of Read and Write: the offset moves by the count, which the call returns.
  pub moved : Description → ℤ → Outcome ℤ → Outcome ℤ × Description
  moved d offset (ok n) = (ok n, record d { offset = to_u64 (add_i64 offset n) })
  moved d offset (err e) = (err e, d)
  moved d offset panic = (panic, d)

  -- Read: the result, the bytes put in the caller's buffer, the descriptor.
  pub read_file : Description → Option (File I) → ℕ → ℤ → Outcome ℤ × List ℕ × Description
  read_file d none count offset = (err enoent, [], d)
  read_file d (some file) count offset =
      let start = start_at d.offset offset in
      let r = Inode.read I file count start in
      let (result, d') = moved d start (value_or_zero (count_of r)) in
      if file.kind.directory then (err eisdir, [], d) else (result, bytes_of r, d')

  pub read : Description → ℕ → ℤ → Outcome ℤ × List ℕ × Description
  read d count offset =
      if can_read d.access_mode then read_file d d.file count offset else (err ebadf, [], d)

  pub write_file : Description → Option (File I) → List ℕ → ℤ → Outcome ℤ × Description
  write_file d none bytes offset = (err enoent, d)
  write_file d (some file) bytes offset =
      let start = start_at d.offset offset in
      let r = Inode.write I file bytes start in
      moved (record d { file = some r.1 }) start (value_or_zero r.0)

  pub write : Description → List ℕ → ℤ → Outcome ℤ × Description
  write d bytes offset =
      if can_write d.access_mode then write_file d d.file bytes offset else (err ebadf, d)

  pub seek_by : Description → File I → Whence → ℤ → Outcome ℤ × Description
  seek_by d file seek_set offset =
      if is_negative offset
      then (err einval, d)
      else (ok (to_i64 (to_u64 offset)), record d { offset = to_u64 offset })
  seek_by d file seek_cur offset =
      let next = add64 d.offset (to_u64 offset) in
      if at_max (to_i64 next)
      then (err eoverflow, d)
      else if is_negative (to_i64 next)
      then (err einval, d)
      else (ok (to_i64 next), record d { offset = next })
  seek_by d file seek_end offset =
      let next = add64 (Inode.size I file) (to_u64 offset) in
      if ltb i64_max (add64 d.offset (Inode.size I file))
      then (err eoverflow, d)
      else (ok (to_i64 next), record d { offset = next })
  seek_by d file seek_other offset = (err einval, d)

  -- Seek; IsPipe is always false.
  pub seek_file : Description → Option (File I) → ℤ → ℤ → Outcome ℤ × Description
  seek_file d none whence offset = (panic, d)
  seek_file d (some file) whence offset =
      if file.kind.socket || file.kind.fifo
      then (err espipe, d)
      else seek_by d file (seek_whence whence) offset

  pub seek : Description → ℤ → ℤ → Outcome ℤ × Description
  seek d whence offset = seek_file d d.file whence offset

  -- Truncate takes an off_t, and File and INode a usize.
  pub truncate_file : Description → Option (File I) → ℤ → Outcome ℤ × Description
  truncate_file d none n = (panic, d)
  truncate_file d (some file) n =
      let r = Inode.truncate I file (to_u64 n) in
      if file.kind.directory
      then (err eisdir, d)
      else if not (can_write d.access_mode) || not file.kind.regular
      then (err ebadf, d)
      else (r.0, record d { file = some r.1 })

  pub truncate : Description → ℤ → Outcome ℤ × Description
  truncate d n = truncate_file d d.file n
