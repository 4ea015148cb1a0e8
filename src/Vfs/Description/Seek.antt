-- ===== src/Vfs/Description/Seek.antt =====
-- What Seek leaves in a descriptor.
use cryptix_os.Vfs.Inode
use cryptix_os.Vfs.Inode.{InodeOps, File}
use cryptix_os.Vfs.Description.{
  Description, Whence, seek_set, seek_cur, seek_end, seek_other, seek, seek_file, seek_by,
  seek_whence, at_max, i64_max,
}
use cryptix_os.Common.{
  ℕ, ◌+◌, ◌-◌, ◌%◌, ◌^◌, ◌≤◌, ◌<◌, ◌≡◌, refl, ◌≢◌, ◌⊎◌, inl, inr, false, ◌||◌, Option, none, some,
  arith, ltb, Bool-cases, u64_mod, add64, add64-eq_add, Errno, einval, espipe, eoverflow, ℤ, pos,
  negsuc, to_u64, to_i64, to_i64_small, is_negative, int_eq, Outcome, ok, err, panic,
}

-- The numbers of an off_t.
abbrev pub FitsI64 : ℤ → Type 0
FitsI64 (pos n) = n < 2 ^ 63
FitsI64 (negsuc n) = n < 2 ^ 63

pub back_from :
    (size n : ℕ)
    → size ≤ n
    → n < 2 ^ 63
    → (add64 size (u64_mod - 1 - n % u64_mod) ≡ u64_mod - 1 - (n - size))
      × (to_i64 (u64_mod - 1 - (n - size)) ≡ negsuc (n - size))
unfolding add64 to_i64
back_from size n small h =
    let high : ltb (u64_mod - 1 - (n - size)) (2 ^ 63) ≡ false = ground arith in
    let back : u64_mod - 1 - (u64_mod - 1 - (n - size)) ≡ n - size = omega arith in
    (omega arith, rw (high, back) refl)

module _ (I : InodeOps) where
  -- A call that fails and leaves the descriptor, or one that returns the new offset.
  pub Sought : Description I → Outcome ℤ × Description I → Type 0
  Sought d r =
      ((e : Errno) × (r ≡ (err e, d)))
      ⊎ (r ≡ (panic, d))
      ⊎ ((m : ℕ) × (r ≡ (ok (to_i64 m), record d { offset = m })) × is_negative (to_i64 m) ≡ false)

  seek_by-Sought :
      (d : Description I) (file : File I) (w : Whence) (offset : ℤ)
      → w ≢ seek_end
      → FitsI64 offset
      → Sought d (seek_by I d file w offset)
  unfolding seek_by Sought is_negative to_u64
  seek_by-Sought d file seek_set (negsuc n) other fits = inl (einval, refl)
  seek_by-Sought d file seek_set (pos n) other fits =
      let e : n % u64_mod ≡ n = omega arith in
      let i : to_i64 n ≡ pos n = to_i64_small n fits in
      inr (inr (n % u64_mod, refl, rw (e, i) refl))
  seek_by-Sought d file seek_cur offset other fits =
      let next = add64 d.offset (to_u64 offset) in
      elim (Bool-cases (at_max (to_i64 next))) [
        | inl high ↦ inl (eoverflow, rw high refl)
        | inr low ↦ elim (Bool-cases (is_negative (to_i64 next))) [
          | inl minus ↦ inl (einval, simp (low, minus))
          | inr plus ↦ inr (inr (next, simp (low, plus), plus))
        ]
      ]
  seek_by-Sought d file seek_end offset other fits = absurd (other refl)
  seek_by-Sought d file seek_other offset other fits = inl (einval, refl)

  seek_file-Sought :
      (d : Description I) (file : Option (File I)) (whence offset : ℤ)
      → seek_whence whence ≢ seek_end
      → FitsI64 offset
      → Sought d (seek_file I d file whence offset)
  unfolding seek_file Sought
  seek_file-Sought d none whence offset other fits = inr (inl refl)
  seek_file-Sought d (some file) whence offset other fits =
      elim (Bool-cases (file.kind.socket || file.kind.fifo)) [
        | inl pipe ↦ inl (espipe, rw pipe refl)
        | inr rest ↦ rw rest (seek_by-Sought d file (seek_whence whence) offset other fits)
      ]

  -- Seek with SEEK_SET or SEEK_CUR, or with a number that names no position, either fails and
  -- leaves the descriptor as it was, or returns the new offset, which is then not negative. The
  -- offset that is passed is a number of 64 bits with sign.
  pub seek-Sought :
      (d : Description I) (whence offset : ℤ)
      → seek_whence whence ≢ seek_end
      → FitsI64 offset
      → Sought d (seek I d whence offset)
  unfolding seek Sought
  seek-Sought d whence offset other fits = seek_file-Sought d d.file whence offset other fits

  -- With SEEK_END a distance back that is larger than the file is accepted: the call succeeds,
  -- returns a negative number, and leaves the descriptor at the end of the 64-bit numbers. The file
  -- is neither a pipe nor a socket, its size and the old offset together fit in 63 bits.
  pub seek-before_start :
      (d : Description I) (file : File I) (n : ℕ)
      → d.file ≡ some file
      → file.kind.socket ≡ false
      → file.kind.fifo ≡ false
      → d.offset + Inode.size I file < 2 ^ 63
      → Inode.size I file ≤ n
      → n < 2 ^ 63
      → seek I d (pos 2) (negsuc n) ≡ (
        ok (negsuc (n - Inode.size I file)),
        record d { offset = u64_mod - 1 - (n - Inode.size I file) },
      )
  unfolding seek seek_file seek_by seek_whence int_eq to_u64
  seek-before_start d file n f s k fits small h =
      let sum : add64 d.offset (Inode.size I file) ≡ d.offset + Inode.size I file =
        add64-eq_add d.offset (Inode.size I file) (omega arith) in
      let below : ltb i64_max (d.offset + Inode.size I file) ≡ false = ground arith in
      let (next, neg) = back_from (Inode.size I file) n small h in
      simp (f, s, k, sum, below, next, neg)
