-- ===== src/Vfs/Calls/Sharing.antt =====
-- Two numbers of one descriptor.
use cryptix_os.Vfs.Map.{MapOps}
use cryptix_os.Vfs.FdTable.{get_fd, dup_fd}
use cryptix_os.Vfs.FdTable.Dup.{start, lead, dup_fd_others, dup_fd_bound}
use cryptix_os.Vfs.Inode.{InodeOps}
use cryptix_os.Vfs.Description.{Description}
use cryptix_os.Vfs.Calls.{
  OpenFiles, referenced, get_file_handle, read, write, pread, pwrite, lseek, ftruncate, dup2,
}
use cryptix_os.Common.{
  ℕ, ◌+◌, ◌<◌, ◌≡◌, refl, ap, ◌∙◌, inl, inr, Bool, none, some, List, Option-cases, ℤ, i32_max,
  to_i32, ok,
}
use cryptix_os.Vfs.Calls.Kept.{IsOpen}
use cryptix_os.Vfs.Calls.Runs.{Joined, Run, Run-Joined}

module _ (higher : ℕ → Bool) (I : InodeOps) (M : MapOps ℤ) (O : MapOps (Description I)) where
  handle-IsOpen :
      (s : OpenFiles higher I M O) (fd r : ℤ) {h : ℤ × Description I}
      → get_file_handle higher I M O s fd ≡ some h
      → get_fd M s.table (to_i32 fd) ≡ some r
      → IsOpen higher I M O s r
  unfolding get_file_handle referenced
  handle-IsOpen s fd r opened used = elim (Option-cases (O.find s.descriptions r)) [
    | inl e ↦
        let closed : get_file_handle higher I M O s fd ≡ none =
          rw (get_file_handle, used, referenced, e) refl in
        absurd (cc)
    | inr h ↦ h
  ]

  dup2-opens :
      (fuel : ℕ) (s t : OpenFiles higher I M O) (old new number : ℤ) {h : ℤ × Description I}
      → get_file_handle higher I M O s old ≡ some h
      → start new < i32_max
      → M.above s.table.table < i32_max
      → lead new + M.above s.table.table < fuel
      → dup2 higher I M O fuel s old new ≡ some (ok number, t)
      → (r : ℤ) × Joined higher I M O old number r t
  unfolding dup2
  dup2-opens fuel s t old new number opened small top enough e =
      elim (Option-cases (dup_fd M fuel s.table old new)) [
        | inl f ↦
            let out : dup2 higher I M O fuel s old new ≡ none = rw (dup2, f) refl in absurd (cc)
        | inr ((res, u), f) ↦
            let done : dup2 higher I M O fuel s old new ≡ some (res, record s { table = u }) =
              rw (dup2, f) refl in
            let same : t ≡ record s { table = u } = cc in
            let right : res ≡ ok number = cc in
            let (r, at_old, narrow, at_new, _) =
              dup_fd_bound M fuel s.table u old new number small top enough
                (f ∙ ap (λ o. some (o, u)) right) in
            rw same (
              r,
              record {
                first =
                    dup_fd_others M fuel s.table u old new (to_i32 old) small top enough f at_old;
                second = rw narrow at_new;
                object = handle-IsOpen s old r opened at_old;
              },
            )
      ]

  -- The two numbers reach one descriptor, and six calls on one are these calls on the other.
  pub record Same (a b : ℤ) (s : OpenFiles higher I M O) : Type 0 where
    handle :
        (h : ℤ × Description I) × (get_file_handle higher I M O s a ≡ some h)
        × (get_file_handle higher I M O s b ≡ some h)
    read_same : (out count : ℕ) → read higher I M O s a out count ≡ read higher I M O s b out count
    write_same :
        (buffer : ℕ) (bytes : List ℕ)
        → write higher I M O s a buffer bytes ≡ write higher I M O s b buffer bytes
    pread_same :
        (out count : ℕ) (offset : ℤ)
        → pread higher I M O s a out count offset ≡ pread higher I M O s b out count offset
    pwrite_same :
        (buffer : ℕ) (bytes : List ℕ) (offset : ℤ)
        → pwrite higher I M O s a buffer bytes offset ≡ pwrite higher I M O s b buffer bytes offset
    lseek_same :
        (offset whence : ℤ)
        → lseek higher I M O s a offset whence ≡ lseek higher I M O s b offset whence
    ftruncate_same : (n : ℤ) → ftruncate higher I M O s a n ≡ ftruncate higher I M O s b n

  Joined-handle :
      {a b r : ℤ} {s : OpenFiles higher I M O}
      → Joined higher I M O a b r s
      → (h : ℤ × Description I) × (get_file_handle higher I M O s a ≡ some h)
        × (get_file_handle higher I M O s b ≡ some h)
  unfolding get_file_handle referenced
  Joined-handle {a} {b} {r} {s} j =
      let (d, e) = j.object in
      (
        (r, d),
        rw (get_file_handle, j.first, referenced, e) refl,
        rw (get_file_handle, j.second, referenced, e) refl,
      )

  Joined-Same : {a b r : ℤ} {s : OpenFiles higher I M O} → Joined higher I M O a b r s → Same a b s
  unfolding read write pread pwrite lseek ftruncate
  Joined-Same {a} {b} {r} {s} j =
      let (h, e, f) = Joined-handle j in
      record {
        handle = (h, e, f);
        read_same = λ out count. rw (e, f) refl;
        write_same = λ buffer bytes. rw (e, f) refl;
        pread_same = λ out count offset. rw (e, f) refl;
        pwrite_same = λ buffer bytes offset. rw (e, f) refl;
        lseek_same = λ offset whence. rw (e, f) refl;
        ftruncate_same = λ n. rw (e, f) refl;
      }

  -- After Dup2 (or Dup, with -1 as the new number) has answered a number, and after any sequence of
  -- Read, Write, PRead, PWrite, LSeek, FTruncate and Dup2 on any numbers, Close of other numbers
  -- than the two, and Insert of new descriptors, with which the calls that open files end: the old
  -- number and the new one reach one descriptor, and each Read, Write, PRead, PWrite, LSeek or
  -- FTruncate on the one has the result, and leaves the state, of that call on the other. The old
  -- number is open; the numbers in use and the one from which the search starts are below 2^31, and
  -- the fuel of the loop reaches beyond them, here and at each Dup2 of the sequence; an Insert of
  -- the sequence finds the table's next number not in use.
  pub dup2-Same :
      (fuel : ℕ) (s t u : OpenFiles higher I M O) (old new number : ℤ) {h : ℤ × Description I}
      → get_file_handle higher I M O s old ≡ some h
      → start new < i32_max
      → M.above s.table.table < i32_max
      → lead new + M.above s.table.table < fuel
      → dup2 higher I M O fuel s old new ≡ some (ok number, t)
      → Run higher I M O old number t u
      → Same old number u
  dup2-Same fuel s t u old new number opened small top enough e run =
      let (_, j) = dup2-opens fuel s t old new number opened small top enough e in
      Joined-Same (Run-Joined higher I M O run j)
