-- ===== src/Vfs/Ext2/Inodes.antt =====
-- Which inodes AllocateINodeInGroup gives out.
use cryptix_os.Vfs.Ext2.{
  Ext2, write_block, set_bit, scan_bits, byte_full, scan_bytes, allocate_in_group,
}
use cryptix_os.Common.{
  ℕ, zero, suc, ◌+◌, ◌<◌, ◌≡◌, refl, ◌⊎◌, inl, inr, Bool, true, false, ◌&&◌, arith, ltb, ◌==◌,
  Bool-cases, add64, mul64,
}

-- An inode number that the allocator may give out.
pub Ordinary : ℕ → ℕ → Type 0
Ordinary first n = (first < n) × (11 < n)

Ordinary-of : (first n : ℕ) → ltb first n && ltb 11 n ≡ true → Ordinary first n
unfolding Ordinary
Ordinary-of first n h = (ground arith, ground arith)

not-Ordinary_of : (first n : ℕ) → ltb first n && ltb 11 n ≡ false → ¬ Ordinary first n
unfolding Ordinary
not-Ordinary_of first n h (a, b) = ground arith

not-Ordinary_zero : (first : ℕ) → ¬ Ordinary first 0
unfolding Ordinary
not-Ordinary_zero first (a, b) = omega arith

not_zero : (first n : ℕ) → Ordinary first n → (n == 0) ≡ false
unfolding Ordinary
not_zero first n (a, b) = ground arith

-- What a search among the bits of a group ends with: a number that may be given out, whose bit was
-- clear and now is set; or no number, or one that is reserved, and the bits as they were.
pub Scanned : ℕ → ℕ → (ℕ → Bool) → ℕ × (ℕ → Bool) → Type 0
Scanned first base bits r =
    ((i : ℕ) × (r ≡ (add64 base (suc i), set_bit bits i))
      × (bits i ≡ false)
      × Ordinary first (add64 base (suc i)))
    ⊎ ((r.1 ≡ bits) × ¬ Ordinary first r.0)

scan_bits-Scanned :
    (first base n i inode : ℕ) (bits : ℕ → Bool)
    → ¬ Ordinary first inode
    → Scanned first base bits (scan_bits first base n i inode bits)
unfolding scan_bits Scanned
scan_bits-Scanned first base zero i inode bits h = inr (refl, h)
scan_bits-Scanned first base (suc n) i inode bits h = elim (Bool-cases (bits i)) [
  | inl used ↦ rw used (scan_bits-Scanned first base n (suc i) inode bits h)
  | inr free ↦ elim (Bool-cases (ltb first (add64 base (suc i)) && ltb 11 (add64 base (suc i)))) [
    | inl good ↦ inl (i, simp (free, good), free, Ordinary-of first (add64 base (suc i)) good)
    | inr reserved ↦
        rw (free, reserved)
          (scan_bits-Scanned first base n (suc i) (add64 base (suc i)) bits
            (not-Ordinary_of first (add64 base (suc i)) reserved))
  ]
]

scan_bytes-Scanned :
    (first base n i : ℕ) (bits : ℕ → Bool)
    → Scanned first base bits (scan_bytes first base n i bits)
unfolding scan_bytes Scanned
scan_bytes-Scanned first base zero i bits = inr (refl, not-Ordinary_zero first)
scan_bytes-Scanned first base (suc n) i bits = elim (Bool-cases (byte_full bits 8 i)) [
  | inl full ↦ rw full (scan_bytes-Scanned first base n (i + 8) bits)
  | inr some_clear ↦ elim (scan_bits-Scanned first base 8 i 0 bits (not-Ordinary_zero first)) [
    | inl (j, e, c, o) ↦
        let some_number : (add64 base (suc j) == 0) ≡ false =
          not_zero first (add64 base (suc j)) o in
        rw (some_clear, e, some_number) (inl (j, refl, c, o))
    | inr (e, o) ↦ elim (Bool-cases ((scan_bits first base 8 i 0 bits).0 == 0)) [
      | inl z ↦ rw (some_clear, z, e) (scan_bytes-Scanned first base n (i + 8) bits)
      | inr nz ↦ rw (some_clear, nz) (inr (e, o))
    ]
  ]
]

-- AllocateINodeInGroup gives out an inode in one of two ways, or none and leaves the file system as
-- it was. The inode has a number above the first that is not reserved and above 11, and its bit in
-- the group's bitmap was clear and is the only bit that changes; or its number is not above both,
-- and then the bitmap stays as it was, so that the same inode can be given out again.
allocate_in_group_cases :
    (fs : Ext2) (g : ℕ)
    → (allocate_in_group fs g ≡ (0, fs))
      ⊎ ((i : ℕ) × (allocate_in_group fs g ≡ (
        add64 (mul64 g fs.inodes_per_group) (suc i),
        write_block fs
            (fs.descriptors g).inode_bitmap
            (set_bit (fs.blocks (fs.descriptors g).inode_bitmap) i),
      ))
          × (fs.blocks (fs.descriptors g).inode_bitmap i ≡ false)
          × Ordinary fs.first_non_reserved (add64 (mul64 g fs.inodes_per_group) (suc i)))
      ⊎ ((n : ℕ) × (allocate_in_group fs g ≡ (
        n,
        write_block fs (fs.descriptors g).inode_bitmap (fs.blocks (fs.descriptors g).inode_bitmap),
      ))
          × 0 < n
          × ¬ Ordinary fs.first_non_reserved n)
unfolding allocate_in_group Scanned
allocate_in_group_cases fs g =
    let first = fs.first_non_reserved in
    let base = mul64 g fs.inodes_per_group in
    let bits = fs.blocks (fs.descriptors g).inode_bitmap in
    elim (scan_bytes-Scanned first base fs.block_size 0 bits) [
      | inl (i, e, c, o) ↦
          let some_number : (add64 base (suc i) == 0) ≡ false =
            not_zero first (add64 base (suc i)) o in
          inr (inl (i, simp (e, some_number), c, o))
      | inr (e, o) ↦ elim (Bool-cases ((scan_bytes first base fs.block_size 0 bits).0 == 0)) [
        | inl z ↦ inl (simp (z))
        | inr nz ↦
            inr
              (inr ((scan_bytes first base fs.block_size 0 bits).0, simp (nz, e), ground arith, o))
      ]
    ]
