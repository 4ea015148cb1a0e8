-- ===== src/Vfs/Calls/Offsets.antt =====
-- Reading at an offset, and seeking to it first.
use cryptix_os.Vfs.Map.{MapOps}
use cryptix_os.Vfs.FdTable.{get_fd}
use cryptix_os.Vfs.Inode
use cryptix_os.Vfs.Inode.{InodeOps, File}
use cryptix_os.Vfs.Description.{Description, can_read}
use cryptix_os.Vfs.Description.Access.{read_ok, seek_set_ok}
use cryptix_os.Vfs.Calls.{
  OpenFiles, validate_address, for_user_buffer, referenced, get_file_handle, put, read_into,
  read_handle, read, pread_handle, pread, lseek_handle, lseek,
}
use cryptix_os.Common.{
  ℕ, ◌+◌, ◌^◌, ◌<◌, ◌≡◌, refl, sym, ap, ◌∙◌, inl, inr, Bool, true, false, Option, none, some, List,
  arith, Option-cases, ℤ, pos, to_i32, to_i32_small, to_i64, to_i64_small, ok,
}

module _ (higher : ℕ → Bool) (I : InodeOps) (M : MapOps ℤ) (O : MapOps (Description I)) where
  referenced_lem :
      (s : OpenFiles higher I M O) (k : ℤ) {r : ℤ} {d : Description I}
      → referenced higher I M O s k ≡ some (r, d)
      → k ≡ r
  unfolding referenced
  referenced_lem s k e = elim (Option-cases (O.find s.descriptions k)) [
    | inl f ↦
        let no_object : referenced higher I M O s k ≡ none = rw (referenced, f) refl in absurd (cc)
    | inr (d', f) ↦
        let object : referenced higher I M O s k ≡ some (k, d') = rw (referenced, f) refl in cc
  ]

  get_file_handle-get_fd :
      (s : OpenFiles higher I M O) (fd : ℤ) {r : ℤ} {d : Description I}
      → get_file_handle higher I M O s fd ≡ some (r, d)
      → get_fd M s.table (to_i32 fd) ≡ some r
  unfolding get_file_handle
  get_file_handle-get_fd s fd {r} {d} e = elim (Option-cases (get_fd M s.table (to_i32 fd))) [
    | inl f ↦
        let closed : get_file_handle higher I M O s fd ≡ none = rw (get_file_handle, f) refl in
        absurd (cc)
    | inr (k, f) ↦
        let opened : get_file_handle higher I M O s fd ≡ referenced higher I M O s k =
          rw (get_file_handle, f) refl in
        f ∙ ap some (referenced_lem s k (sym opened ∙ e))
  ]

  -- An object that has changed is what its numbers reach.
  get_file_handle-put :
      (s : OpenFiles higher I M O) (fd r : ℤ) (d d' : Description I)
      → get_file_handle higher I M O s fd ≡ some (r, d)
      → get_file_handle higher I M O (put higher I M O s r d') fd ≡ some (r, d')
  unfolding get_file_handle referenced put
  get_file_handle-put s fd r d d' e =
      rw
        (
          get_file_handle,
          get_file_handle-get_fd s fd e,
          referenced,
          O.find-assign s.descriptions r d',
        )
        refl

  read_into_ok :
      (s : OpenFiles higher I M O) (r : ℤ) (d : Description I) (file : File I) (out count at n : ℕ)
      (bytes : List ℕ)
      → d.file ≡ some file
      → can_read d.access_mode ≡ true
      → file.kind.directory ≡ false
      → for_user_buffer higher out ≡ ok tt
      → Inode.read I file count (pos at) ≡ ok (pos n, bytes)
      → at + n < 2 ^ 63
      → read_into higher I M O s r d out count (pos at)
        ≡ (ok (pos n), bytes, put higher I M O s r (record d { offset = at + n }))
  unfolding read_into
  read_into_ok s r d file out count at n bytes f c k b h fits =
      let r' = read_ok I d file count at n bytes f c k h fits in rw (read_into, b, r') refl

  -- PRead at an offset reads what LSeek to that offset and Read after it read, and like these two
  -- it leaves the descriptor at the end of what was read. The number is open for reading, on a file
  -- that is no directory, pipe or socket; the buffer lies in user memory that the process has; the
  -- end of what the node hands out is below 2^63.
  pub pread-read_lseek :
      (s : OpenFiles higher I M O) (fd r : ℤ) (d : Description I) (file : File I)
      (out count at n : ℕ) (bytes : List ℕ)
      → get_file_handle higher I M O s fd ≡ some (r, d)
      → d.file ≡ some file
      → can_read d.access_mode ≡ true
      → file.kind.directory ≡ false
      → file.kind.socket ≡ false
      → file.kind.fifo ≡ false
      → validate_address s.regions out ≡ true
      → for_user_buffer higher out ≡ ok tt
      → Inode.read I file count (pos at) ≡ ok (pos n, bytes)
      → at + n < 2 ^ 63
      → let sought = (lseek higher I M O s fd (pos at) (pos 0)).1 in
        let by_offset = pread higher I M O s fd out count (pos at) in
        let by_seek = read higher I M O sought fd out count in
        let final : Option (ℤ × Description I) = some (r, record d { offset = at + n }) in
        (by_offset.0 ≡ ok (pos n))
        × (by_seek.0 ≡ ok (pos n))
        × (by_offset.1 ≡ bytes)
        × (by_seek.1 ≡ bytes)
        × (get_file_handle higher I M O by_offset.2 fd ≡ final)
        × (get_file_handle higher I M O by_seek.2 fd ≡ final)
  unfolding pread pread_handle lseek lseek_handle read read_handle put
  pread-read_lseek s fd r d file out count at n bytes e f c k so fi v b h fits =
      let d' : Description I = record d { offset = at } in
      let t = put higher I M O s r d' in
      let whence : to_i32 (pos 0) ≡ pos 0 = to_i32_small 0 (omega arith) in
      let seek = seek_set_ok I d file at f so fi (omega arith) in
      let sought : lseek higher I M O s fd (pos at) (pos 0) ≡ (ok (pos at), t) =
        rw (lseek, e, lseek_handle, whence, seek) refl in
      let found = get_file_handle-put s fd r d d' e in
      let place : to_i64 at ≡ pos at = to_i64_small at (omega arith) in
      let direct : pread higher I M O s fd out count (pos at)
          ≡ (ok (pos n), bytes, put higher I M O s r (record d { offset = at + n })) =
        rw (pread, e, pread_handle, v)
          (read_into_ok s r d file out count at n bytes f c k b h fits) in
      let after : read higher I M O t fd out count
          ≡ (ok (pos n), bytes, put higher I M O t r (record d' { offset = at + n })) =
        rw (read, v, found, read_handle, c, place)
          (read_into_ok t r d' file out count at n bytes f c k b h fits) in
      rw (sought, direct, after)
        (
          refl,
          refl,
          refl,
          refl,
          get_file_handle-put s fd r d _ e,
          get_file_handle-put t fd r d' _ found,
        )
