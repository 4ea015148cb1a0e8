-- ===== src/Vfs/Calls/Closing.antt =====
-- Close.
use mathlib.Core.Path.{subst}
use cryptix_os.Vfs.Map.{MapOps}
use cryptix_os.Vfs.FdTable.{get_fd}
use cryptix_os.Vfs.FdTable.Laws.{close_fd_others, close_fd_cases}
use cryptix_os.Vfs.FdTable.Dup.{dup_fd_closed}
use cryptix_os.Vfs.Inode.{InodeOps}
use cryptix_os.Vfs.Description.{Description}
use cryptix_os.Vfs.Calls.{
  OpenFiles, validate_address, referenced, get_file_handle, read_handle, read, write_handle, write,
  pread_handle, pread, pwrite_handle, pwrite, lseek_handle, lseek, ftruncate_handle, ftruncate,
  close, dup2,
}
use cryptix_os.Common.{
  ℕ, ◌≡◌, refl, ◌≢◌, ◌⊎◌, inl, inr, Bool, false, none, some, List, [], if◌then◌else◌, Bool-cases,
  ebadf, efault, einval, ℤ, pos, negsuc, to_i32, is_negative, int_eq, ok, err,
}

module _ (higher : ℕ → Bool) (I : InodeOps) (M : MapOps ℤ) (O : MapOps (Description I)) where
  -- The calls on the number fail, with an error that says so unless another test comes first, and
  -- change nothing; Close answers -1.
  pub record Closed (fd : ℤ) (s : OpenFiles higher I M O) : Type 0 where
    read_refused :
        (out count : ℕ)
        → read higher I M O s fd out count
          ≡ (err (if validate_address s.regions out then ebadf else efault), [], s)
    write_refused :
        (buffer : ℕ) (bytes : List ℕ)
        → write higher I M O s fd buffer bytes
          ≡ (err (if validate_address s.regions buffer then ebadf else efault), s)
    pread_refused :
        (out count : ℕ) (offset : ℤ) → pread higher I M O s fd out count offset ≡ (err ebadf, [], s)
    pwrite_refused :
        (buffer : ℕ) (bytes : List ℕ) (offset : ℤ)
        → pwrite higher I M O s fd buffer bytes offset ≡ (err ebadf, s)
    lseek_refused : (offset whence : ℤ) → lseek higher I M O s fd offset whence ≡ (err ebadf, s)
    ftruncate_refused :
        (n : ℤ) → ftruncate higher I M O s fd n ≡ (err (if is_negative n then einval else ebadf), s)
    close_refused : close higher I M O s fd ≡ (ok (negsuc 0), s)
    dup2_refused :
        (fuel : ℕ) (new : ℤ)
        → int_eq fd new ≡ false
        → dup2 higher I M O fuel s fd new ≡ some (err ebadf, s)

  unused-Closed :
      (s : OpenFiles higher I M O) (fd : ℤ) → get_fd M s.table (to_i32 fd) ≡ none → Closed fd s
  unfolding get_file_handle read read_handle write write_handle pread pread_handle pwrite
      pwrite_handle lseek lseek_handle ftruncate ftruncate_handle close dup2
  unused-Closed s fd e =
      let h : get_file_handle higher I M O s fd ≡ none = rw (get_file_handle, e) refl in
      record {
        read_refused = λ out count. elim (Bool-cases (validate_address s.regions out)) [
          | inl v ↦ rw (read, v, h) refl
          | inr v ↦ rw (read, v) refl
        ];
        write_refused = λ buffer bytes. elim (Bool-cases (validate_address s.regions buffer)) [
          | inl v ↦ rw (write, v, h) refl
          | inr v ↦ rw (write, v) refl
        ];
        pread_refused = λ out count offset. rw (pread, h) refl;
        pwrite_refused = λ buffer bytes offset. rw (pwrite, h) refl;
        lseek_refused = λ offset whence. rw (lseek, h) refl;
        ftruncate_refused = λ n. elim (Bool-cases (is_negative n)) [
          | inl m ↦ rw (ftruncate, m) refl
          | inr m ↦ rw (ftruncate, m, h) refl
        ];
        close_refused = elim (close_fd_cases M s.table (to_i32 fd)) [
          | inl (_, c) ↦ rw (close, c) refl
          | inr (used, _, _) ↦ absurd (used e)
        ];
        dup2_refused =
            λ fuel new other. rw (dup2, dup_fd_closed M fuel s.table fd new other e) refl;
      }

  close_others :
      (s : OpenFiles higher I M O) (fd j : ℤ)
      → to_i32 fd ≢ to_i32 j
      → get_file_handle higher I M O (close higher I M O s fd).1 j
        ≡ get_file_handle higher I M O s j
  unfolding close get_file_handle referenced
  close_others s fd j n =
      rw (get_file_handle, close_fd_others M s.table (to_i32 fd) (to_i32 j) n) refl

  -- Close answers 0 and takes the number from its descriptor, or answers the value -1, without an
  -- error, and changes nothing. Either way every later Read, Write, PRead, PWrite, LSeek and
  -- FTruncate on the number, and a Dup2 of it to another one, fails and changes nothing, a second
  -- Close answers -1, and each number that is another one as an i32 reaches what it reached before.
  pub close-Closed :
      (s : OpenFiles higher I M O) (fd : ℤ)
      → (((close higher I M O s fd).0 ≡ ok (pos 0))
          ⊎ (close higher I M O s fd ≡ (ok (negsuc 0), s)))
        × Closed fd (close higher I M O s fd).1
        × ((j : ℤ)
            → to_i32 fd ≢ to_i32 j
            → get_file_handle higher I M O (close higher I M O s fd).1 j
              ≡ get_file_handle higher I M O s j)
  unfolding close
  close-Closed s fd = elim (close_fd_cases M s.table (to_i32 fd)) [
    | inl (unused, c) ↦
        let left : s ≡ (close higher I M O s fd).1 = rw (close, c) refl in
        (
          inr (rw (close, c) refl),
          subst (Closed fd) left (unused-Closed s fd unused),
          close_others s fd,
        )
    | inr (_, done, gone) ↦ (
      inl (rw (close, done) refl),
      unused-Closed (close higher I M O s fd).1 fd gone,
      close_others s fd,
    )
  ]
