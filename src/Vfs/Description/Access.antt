-- ===== src/Vfs/Description/Access.antt =====
-- Reading, writing and truncating through a descriptor.
use cryptix_os.Vfs.Inode
use cryptix_os.Vfs.Inode.{InodeOps, File, FileKind, plain}
use cryptix_os.Vfs.Description.{
  Description, can_read, can_write, count_of, bytes_of, value_or_zero, moved, start_at, read,
  read_file, write, write_file, seek, seek_file, seek_by, seek_whence, truncate, truncate_file,
}
use cryptix_os.Common.{
  ℕ, ◌+◌, ◌%◌, ◌^◌, ◌<◌, ◌≡◌, ap, inl, inr, true, false, some, List, [], arith, Bool-cases, u64_mod,
  ebadf, ℤ, pos, to_u64, to_i64, add_i64, to_i64_small, add_i64-eq_add, is_negative, int_eq, ok,
  err, panic,
}

moved_small : (at n : ℕ) → at + n < 2 ^ 63 → to_u64 (add_i64 (pos at) (pos n)) ≡ at + n
unfolding to_u64
moved_small at n h =
    let sum : add_i64 (pos at) (pos n) ≡ pos (at + n) = add_i64-eq_add at n h in
    rw sum (omega arith)

module _ (I : InodeOps) where
  pub read_ok :
      (d : Description I) (file : File I) (count at n : ℕ) (bytes : List ℕ)
      → d.file ≡ some file
      → can_read d.access_mode ≡ true
      → file.kind.directory ≡ false
      → Inode.read I file count (pos at) ≡ ok (pos n, bytes)
      → at + n < 2 ^ 63
      → read I d count (pos at) ≡ (ok (pos n), bytes, record d { offset = at + n })
  unfolding read read_file start_at moved count_of bytes_of value_or_zero is_negative
  read_ok d file count at n bytes e r k h fits =
      let sum : to_u64 (add_i64 (pos at) (pos n)) ≡ at + n = moved_small at n fits in
      simp (e, r, k, h, sum)

  pub write_ok :
      (d : Description I) (file file' : File I) (at n : ℕ) (bytes : List ℕ)
      → d.file ≡ some file
      → can_write d.access_mode ≡ true
      → Inode.write I file bytes (pos at) ≡ (ok (pos n), file')
      → at + n < 2 ^ 63
      → write I d bytes (pos at) ≡ (ok (pos n), record d { file = some file'; offset = at + n })
  unfolding write write_file start_at moved value_or_zero is_negative
  write_ok d file file' at n bytes e w h fits =
      let sum : to_u64 (add_i64 (pos at) (pos n)) ≡ at + n = moved_small at n fits in
      simp (e, w, h, sum)

  pub read_panic :
      (d : Description I) (file : File I) (count : ℕ) (at : ℤ)
      → d.file ≡ some file
      → can_read d.access_mode ≡ true
      → file.kind.directory ≡ false
      → is_negative at ≡ true
      → Inode.read I file count (to_i64 d.offset) ≡ panic
      → read I d count at ≡ (panic, [], d)
  unfolding read read_file start_at moved count_of bytes_of value_or_zero
  read_panic d file count at e r k m h = simp (e, r, k, m, h)

  pub seek_set_ok :
      (d : Description I) (file : File I) (n : ℕ)
      → d.file ≡ some file
      → file.kind.socket ≡ false
      → file.kind.fifo ≡ false
      → n < 2 ^ 63
      → seek I d (pos 0) (pos n) ≡ (ok (pos n), record d { offset = n })
  unfolding seek seek_file seek_by seek_whence int_eq is_negative to_u64
  seek_set_ok d file n e s f fits =
      let small : n % u64_mod ≡ n = omega arith in
      let i : to_i64 n ≡ pos n = to_i64_small n fits in simp (e, s, f, small, i)

  -- Truncate fails for every file that is opened by its node, whatever the access mode: the test
  -- for a regular file is one that File always answers with no.
  truncate_new_file :
      (d : Description I) (inode : I.Inode) (n : ℤ)
      → d.file ≡ some (Inode.new_file I inode)
      → truncate I d n ≡ (err ebadf, d)
  unfolding truncate truncate_file
  truncate_new_file d inode n e =
      let file = Inode.new_file I inode in
      let directory : file.kind.directory ≡ false =
        ap (λ k. k.directory) (Inode.new_file-kind I inode) in
      let regular : file.kind.regular ≡ false = ap (λ k. k.regular) (Inode.new_file-kind I inode) in
      elim (Bool-cases (can_write d.access_mode)) [
        | inl may ↦ simp (e, directory, regular, may)
        | inr not_may ↦ simp (e, directory, not_may)
      ]
