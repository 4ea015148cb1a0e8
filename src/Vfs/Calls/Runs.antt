-- ===== src/Vfs/Calls/Runs.antt =====
-- Sequences of calls, and what they leave of two numbers of one descriptor.
use cryptix_os.Vfs.Map.{MapOps}
use cryptix_os.Vfs.FdTable.{FdTable, get_fd, insert, dup_fd, close_fd}
use cryptix_os.Vfs.FdTable.Laws.{close_fd_others, insert_others}
use cryptix_os.Vfs.FdTable.Dup.{start, lead, dup_fd_others}
use cryptix_os.Vfs.Inode.{InodeOps}
use cryptix_os.Vfs.Description.{Description}
use cryptix_os.Vfs.Calls.{
  OpenFiles, put, get_file_handle, read, write, pread, pwrite, lseek, ftruncate, close, dup2,
}
use cryptix_os.Common.{
  is_negative, negsuc, ℕ, ◌+◌, ◌<◌, ◌≡◌, refl, ◌∙◌, ◌≢◌, inl, inr, Bool, none, some, List,
  Option-cases, ℤ, i32_max, to_i32, Outcome,
}
use cryptix_os.Vfs.Calls.Kept.{
  IsOpen, Kept, put-Kept, read-Kept, write-Kept, pread_handle-Kept, pwrite_handle-Kept,
  lseek_handle-Kept, ftruncate-Kept,
}

module _ (higher : ℕ → Bool) (I : InodeOps) (M : MapOps ℤ) (O : MapOps (Description I)) where
  -- One call of the process, on any numbers; `a` and `b` are not closed. An Insert, with which a
  -- call that opens a file ends, is that of a new object under a number that is not in use. A dup2
  -- is one whose loop stays among the numbers of an i32.
  pub data Step (a b : ℤ) (s : OpenFiles higher I M O) : OpenFiles higher I M O → Type 0 where
    by_read : (fd : ℤ) (out count : ℕ) → Step a b s (read higher I M O s fd out count).2
    by_write :
        (fd : ℤ) (buffer : ℕ) (bytes : List ℕ) → Step a b s (write higher I M O s fd buffer bytes).1
    by_pread :
        (fd : ℤ) (out count : ℕ) (offset : ℤ)
        → Step a b s (pread higher I M O s fd out count offset).2
    by_pwrite :
        (fd : ℤ) (buffer : ℕ) (bytes : List ℕ) (offset : ℤ)
        → Step a b s (pwrite higher I M O s fd buffer bytes offset).1
    by_lseek : (fd offset whence : ℤ) → Step a b s (lseek higher I M O s fd offset whence).1
    by_ftruncate : (fd n : ℤ) → Step a b s (ftruncate higher I M O s fd n).1
    by_close :
        (fd : ℤ)
        → to_i32 fd ≢ to_i32 a
        → to_i32 fd ≢ to_i32 b
        → Step a b s (close higher I M O s fd).1
    by_insert :
        (r : ℤ) (d : Description I)
        → O.find s.descriptions r ≡ none
        → get_fd M s.table s.table.next_index ≡ none
        → Step a b s (record (put higher I M O s r d) { table = (insert M s.table r (negsuc 0)).1 })
    by_dup2 :
        (fuel : ℕ) (old new : ℤ) {result : Outcome ℤ} {t : OpenFiles higher I M O}
        → start new < i32_max
        → M.above s.table.table < i32_max
        → lead new + M.above s.table.table < fuel
        → dup2 higher I M O fuel s old new ≡ some (result, t)
        → Step a b s t

  pub data Run (a b : ℤ) (s : OpenFiles higher I M O) : OpenFiles higher I M O → Type 0 where
    start_run : Run a b s s
    next : {t u : OpenFiles higher I M O} → Run a b s t → Step a b t u → Run a b s u

  -- Both numbers refer to the object of `r`.
  pub record Joined (a b r : ℤ) (s : OpenFiles higher I M O) : Type 0 where
    pub first : get_fd M s.table (to_i32 a) ≡ some r
    pub second : get_fd M s.table (to_i32 b) ≡ some r
    pub object : IsOpen higher I M O s r

  Kept-Joined :
      {a b r : ℤ} {s t : OpenFiles higher I M O}
      → Kept higher I M O s t
      → Joined a b r s
      → Joined a b r t
  Kept-Joined {a} {b} {r} {s} {t} k j = record {
    first = rw k.table_same j.first;
    second = rw k.table_same j.second;
    object = k.still_open r j.object;
  }

  -- An operation on the table that leaves the numbers `a` and `b`.
  table-Joined :
      {a b r : ℤ} {s : OpenFiles higher I M O} (t : FdTable M)
      → get_fd M t (to_i32 a) ≡ get_fd M s.table (to_i32 a)
      → get_fd M t (to_i32 b) ≡ get_fd M s.table (to_i32 b)
      → Joined a b r s
      → Joined a b r (record s { table = t })
  table-Joined t e f j = record { first = e ∙ j.first; second = f ∙ j.second; object = j.object }

  close-Joined :
      {a b r : ℤ} (s : OpenFiles higher I M O) (fd : ℤ)
      → to_i32 fd ≢ to_i32 a
      → to_i32 fd ≢ to_i32 b
      → Joined a b r s
      → Joined a b r (close higher I M O s fd).1
  unfolding close
  close-Joined {a} {b} s fd n m j =
      let k = to_i32 fd in
      table-Joined (close_fd M s.table k).1 (close_fd_others M s.table k (to_i32 a) n)
        (close_fd_others M s.table k (to_i32 b) m) j

  dup2-Joined :
      {a b r : ℤ} (fuel : ℕ) (s : OpenFiles higher I M O) (old new : ℤ) {result : Outcome ℤ}
      {t : OpenFiles higher I M O}
      → start new < i32_max
      → M.above s.table.table < i32_max
      → lead new + M.above s.table.table < fuel
      → dup2 higher I M O fuel s old new ≡ some (result, t)
      → Joined a b r s
      → Joined a b r t
  unfolding dup2
  dup2-Joined {a} {b} {r} fuel s old new {result} {t} small top enough e j =
      elim (Option-cases (dup_fd M fuel s.table old new)) [
        | inl f ↦
            let out : dup2 higher I M O fuel s old new ≡ none = rw (dup2, f) refl in absurd (cc)
        | inr ((res, u), f) ↦
            let done : dup2 higher I M O fuel s old new ≡ some (res, record s { table = u }) =
              rw (dup2, f) refl in
            let same : t ≡ record s { table = u } = cc in
            rw same (record {
              first = dup_fd_others M fuel s.table u old new (to_i32 a) small top enough f j.first;
              second =
                  dup_fd_others M fuel s.table u old new (to_i32 b) small top enough f j.second;
              object = j.object;
            })
      ]

  insert-Joined :
      {a b k : ℤ} (s : OpenFiles higher I M O) (r : ℤ) (d : Description I)
      → get_fd M s.table s.table.next_index ≡ none
      → Joined a b k s
      → Joined a b k (record (put higher I M O s r d) { table = (insert M s.table r (negsuc 0)).1 })
  unfolding is_negative
  insert-Joined {a} {b} {k} s r d free j = record {
    first = insert_others M s.table r (negsuc 0) (to_i32 a) refl free j.first;
    second = insert_others M s.table r (negsuc 0) (to_i32 b) refl free j.second;
    object = (put-Kept higher I M O s r d).still_open k j.object;
  }

  Step-Joined :
      {a b r : ℤ} {s t : OpenFiles higher I M O} → Step a b s t → Joined a b r s → Joined a b r t
  unfolding pread pwrite lseek
  Step-Joined {s} (by_read fd out count) j = Kept-Joined (read-Kept higher I M O s fd out count) j
  Step-Joined {s} (by_write fd buffer bytes) j =
      Kept-Joined (write-Kept higher I M O s fd buffer bytes) j
  Step-Joined {s} (by_pread fd out count offset) j =
      Kept-Joined
        (pread_handle-Kept higher I M O s (get_file_handle higher I M O s fd) out count offset) j
  Step-Joined {s} (by_pwrite fd buffer bytes offset) j =
      Kept-Joined
        (pwrite_handle-Kept higher I M O s (get_file_handle higher I M O s fd) buffer bytes offset)
        j
  Step-Joined {s} (by_lseek fd offset whence) j =
      Kept-Joined
        (lseek_handle-Kept higher I M O s (get_file_handle higher I M O s fd) offset whence) j
  Step-Joined {s} (by_ftruncate fd n) j = Kept-Joined (ftruncate-Kept higher I M O s fd n) j
  Step-Joined {s} (by_close fd n m) j = close-Joined s fd n m j
  Step-Joined {s} (by_insert r d new free) j = insert-Joined s r d free j
  Step-Joined {s} (by_dup2 fuel old new small top enough e) j =
      dup2-Joined fuel s old new small top enough e j

  pub Run-Joined :
      {a b r : ℤ} {s t : OpenFiles higher I M O} → Run a b s t → Joined a b r s → Joined a b r t
  Run-Joined start_run j = j
  Run-Joined (next run step) j = Step-Joined step (Run-Joined run j)
