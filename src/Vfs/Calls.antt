-- ===== src/Vfs/Calls.antt =====
-- Kernel/API/VFS.cpp: the calls that take the number of an open file, with Process::ValidateAddress
-- of Kernel/Scheduler/Process.cpp and Kernel/Library/UserBuffer.hpp. Descriptors are shared: the
-- table of the process holds references to them. Bytes in user memory are arguments and results of
-- a call.
pub mod Kept
pub mod Runs
pub mod Sharing
pub mod Offsets
pub mod Closing
mod Tests
use cryptix_os.Memory.AddressSpace.{Region, contains}
use cryptix_os.Vfs.Map.{MapOps}
use cryptix_os.Vfs.FdTable.{FdTable, get_fd, close_fd, dup_fd}
use cryptix_os.Vfs.Inode.{InodeOps}
use cryptix_os.Vfs.Description
use cryptix_os.Vfs.Description.{Description, can_read}
use cryptix_os.Common.{
  ℕ, zero, suc, ◌+◌, ◌-◌, ◌*◌, ◌/◌, ◌%◌, ◌^◌, ◌≤◌, ◌<◌, min, ◌≡◌, refl, sym, ap, ◌∙◌, ◌≢◌, ◌↔◌, ◌⊎◌,
  inl, inr, Bool, true, false, not, ◌&&◌, ◌||◌, Option, none, some, List, [], ◌∷◌, ◌++◌, map, arith,
  dec_lt, ℕ_discrete, ltb, leb, ◌==◌, if◌then◌else◌, ltb→lt, lt→ltb, le→not-ltb, not-ltb→le, leb→le,
  ==_iff, tests, Bool-cases, Option-cases, length, get_elem?, set, length-append, All, Inserted,
  here, there, Inserted-All, All-Inserted, All-map, u64_mod, add64, sub64, mul64, add64-eq_add,
  sub64-eq_sub, mul64-eq_mul, sub64-add64, add64-lt, add64_add, add64_add_right, apart_of_disjoint,
  apart_scaled, Errno, eperm, enoent, esrch, ebadf, eagain, enomem, efault, eexist, enotdir, einval,
  epipe, enosys, eisdir, espipe, eoverflow, enolink, enotempty, ebusy, enospc, ℤ, pos, negsuc,
  i32_max, to_i32, to_i32_small, increment, to_u64, to_i64, add_i64, to_i64_small, add_i64-eq_add,
  is_negative, int_eq, pos_injective, Outcome, ok, err, panic, ◌>>=◌,
}

-- ValidateAddress. It answers as soon as a region contains the address, and goes on to the next
-- region when one does not, so that the size and the access mode behind these tests play no part.
pub validate_address : List Region → ℕ → Bool
validate_address [] address = false
validate_address (r ∷ rs) address =
    let rest = validate_address rs address in
    if contains r.virtual_range address then true else rest

-- ForUserBuffer with Arch::InUserRange; the test for the higher half is Prism's.
pub for_user_buffer : (ℕ → Bool) → ℕ → Outcome {0} Unit
for_user_buffer is_higher_half buffer =
    if not (buffer == 0) && is_higher_half buffer then err efault else ok tt

-- The i32 that CloseFd answers, as what Close returns.
pub close_value : Outcome {0} Unit → Outcome ℤ
close_value (ok _) = ok (pos 0)
close_value (err _) = ok (negsuc 0)
close_value panic = panic

module _ (is_higher_half : ℕ → Bool) (I : InodeOps) (M : MapOps ℤ)
    (O : MapOps (Description I)) where
  -- What a process reaches its open files through: its table, the descriptors by their references,
  -- and the regions of its address space.
  pub record OpenFiles : Type 0 where
    pub table : FdTable M
    pub descriptions : O.Map
    pub regions : List Region

  -- The descriptor of a reference, with the reference.
  pub referenced : OpenFiles → ℤ → Option (ℤ × Description I)
  referenced s r = elim (O.find s.descriptions r) [ none ↦ none | some d ↦ some (r, d) ]

  -- GetFileHandle, which takes an i32.
  pub get_file_handle : OpenFiles → ℤ → Option (ℤ × Description I)
  unfolding referenced
  get_file_handle s fd = elim (get_fd M s.table (to_i32 fd)) [
    | none ↦ none
    | some r ↦ referenced s r
  ]

  -- The object behind a reference changes.
  pub put : OpenFiles → ℤ → Description I → OpenFiles
  put s r d = record s { descriptions = O.assign s.descriptions r d }

  -- The end of Read and PRead: descriptor.Read into a buffer, from an offset.
  pub read_into : OpenFiles → ℤ → Description I → ℕ → ℕ → ℤ → Outcome ℤ × List ℕ × OpenFiles
  unfolding for_user_buffer put
  read_into s r d out count offset =
      let (result, bytes, d') = Description.read I d count offset in
      elim (for_user_buffer is_higher_half out) [
        | ok _ ↦ (result, bytes, put s r d')
        | err e ↦ (err e, [], s)
        | panic ↦ (panic, [], s)
      ]

  -- The end of Write and PWrite.
  pub write_from : OpenFiles → ℤ → Description I → ℕ → List ℕ → ℤ → Outcome ℤ × OpenFiles
  unfolding for_user_buffer put
  write_from s r d buffer bytes offset =
      let (result, d') = Description.write I d bytes offset in
      elim (for_user_buffer is_higher_half buffer) [
        | ok _ ↦ (result, put s r d')
        | err e ↦ (err e, s)
        | panic ↦ (panic, s)
      ]

  -- Read
  pub read_handle : OpenFiles → Option (ℤ × Description I) → ℕ → ℕ → Outcome ℤ × List ℕ × OpenFiles
  unfolding read_into
  read_handle s none out count = (err ebadf, [], s)
  read_handle s (some (r, d)) out count =
      if can_read d.access_mode
      then read_into s r d out count (to_i64 d.offset)
      else (err ebadf, [], s)

  pub read : OpenFiles → ℤ → ℕ → ℕ → Outcome ℤ × List ℕ × OpenFiles
  unfolding get_file_handle read_handle validate_address
  read s fd out count =
      if validate_address s.regions out
      then read_handle s (get_file_handle s fd) out count
      else (err efault, [], s)

  -- Write of the bytes at a buffer
  pub write_handle : OpenFiles → Option (ℤ × Description I) → ℕ → List ℕ → Outcome ℤ × OpenFiles
  unfolding write_from
  write_handle s none buffer bytes = (err ebadf, s)
  write_handle s (some (r, d)) buffer bytes = write_from s r d buffer bytes (to_i64 d.offset)

  pub write : OpenFiles → ℤ → ℕ → List ℕ → Outcome ℤ × OpenFiles
  unfolding get_file_handle write_handle validate_address
  write s fd buffer bytes =
      if validate_address s.regions buffer
      then write_handle s (get_file_handle s fd) buffer bytes
      else (err efault, s)

  -- PRead
  pub pread_handle :
      OpenFiles → Option (ℤ × Description I) → ℕ → ℕ → ℤ → Outcome ℤ × List ℕ × OpenFiles
  unfolding read_into validate_address
  pread_handle s none out count offset = (err ebadf, [], s)
  pread_handle s (some (r, d)) out count offset =
      if validate_address s.regions out
      then read_into s r d out count offset
      else (err efault, [], s)

  pub pread : OpenFiles → ℤ → ℕ → ℕ → ℤ → Outcome ℤ × List ℕ × OpenFiles
  unfolding get_file_handle pread_handle
  pread s fd out count offset = pread_handle s (get_file_handle s fd) out count offset

  -- PWrite
  pub pwrite_handle :
      OpenFiles → Option (ℤ × Description I) → ℕ → List ℕ → ℤ → Outcome ℤ × OpenFiles
  unfolding write_from validate_address
  pwrite_handle s none buffer bytes offset = (err ebadf, s)
  pwrite_handle s (some (r, d)) buffer bytes offset =
      if validate_address s.regions buffer
      then write_from s r d buffer bytes offset
      else (err efault, s)

  pub pwrite : OpenFiles → ℤ → ℕ → List ℕ → ℤ → Outcome ℤ × OpenFiles
  unfolding get_file_handle pwrite_handle
  pwrite s fd buffer bytes offset = pwrite_handle s (get_file_handle s fd) buffer bytes offset

  -- LSeek; Seek takes an i32 as its first argument.
  pub lseek_handle : OpenFiles → Option (ℤ × Description I) → ℤ → ℤ → Outcome ℤ × OpenFiles
  unfolding put
  lseek_handle s none offset whence = (err ebadf, s)
  lseek_handle s (some (r, d)) offset whence =
      let (result, d') = Description.seek I d (to_i32 whence) offset in (result, put s r d')

  pub lseek : OpenFiles → ℤ → ℤ → ℤ → Outcome ℤ × OpenFiles
  unfolding get_file_handle lseek_handle
  lseek s fd offset whence = lseek_handle s (get_file_handle s fd) offset whence

  -- FTruncate
  pub ftruncate_handle : OpenFiles → Option (ℤ × Description I) → ℤ → Outcome ℤ × OpenFiles
  unfolding put
  ftruncate_handle s none n = (err ebadf, s)
  ftruncate_handle s (some (r, d)) n =
      let (result, d') = Description.truncate I d n in (result, put s r d')

  pub ftruncate : OpenFiles → ℤ → ℤ → Outcome ℤ × OpenFiles
  unfolding get_file_handle ftruncate_handle
  ftruncate s fd n =
      if is_negative n then (err einval, s) else ftruncate_handle s (get_file_handle s fd) n

  -- Close, and Process::CloseFd, which takes an i32. Where CloseFd fails it answers the number -1,
  -- which Close returns as a value.
  pub close : OpenFiles → ℤ → Outcome ℤ × OpenFiles
  unfolding close_value
  close s fd =
      let (result, t) = close_fd M s.table (to_i32 fd) in
      (close_value result, record s { table = t })

  -- Dup2, with fuel for the loop of DupFd; Dup calls it with -1.
  pub dup2 : ℕ → OpenFiles → ℤ → ℤ → Option (Outcome ℤ × OpenFiles)
  dup2 fuel s old_number new_number = elim (dup_fd M fuel s.table old_number new_number) [
    | none ↦ none
    | some (result, t) ↦ some (result, record s { table = t })
  ]

  pub dup : ℕ → OpenFiles → ℤ → Option (Outcome ℤ × OpenFiles)
  unfolding dup2
  dup fuel s old_number = dup2 fuel s old_number (negsuc 0)

  pub dup3 : ℕ → OpenFiles → ℤ → ℤ → Option (Outcome ℤ × OpenFiles)
  unfolding dup2
  dup3 fuel s old_number new_number =
      if int_eq old_number new_number
      then some (err einval, s)
      else dup2 fuel s old_number new_number
