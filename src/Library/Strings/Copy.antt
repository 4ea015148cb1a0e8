-- ===== src/Library/Strings/Copy.antt =====
-- memcpy, memmove and memset.
use cryptix_os.Common.Family.{update}
use cryptix_os.Library.Strings.{Bytes, copy_up, copy_down, memcpy, memmove, fill, memset}
use cryptix_os.Common.{
  ℕ, zero, suc, ◌+◌, ◌-◌, ◌%◌, ◌≤◌, ◌≡◌, ◌⊎◌, inl, ◌&&◌, arith, dec_lt, ltb, leb, if◌then◌else◌,
  lt→ltb, le→not-ltb,
}

-- The memory `m` with the `n` bytes from `d` on taken from the `n` bytes from `s` on.
abbrev pub moved : Bytes → ℕ → ℕ → ℕ → Bytes
moved m d s n j = if leb d j && ltb j (d + n) then m (s + (j - d)) else m j

copy_up_lem :
    (n : ℕ) (m : Bytes) (d s i : ℕ)
    → (d ≤ s) ⊎ (s + i + n ≤ d)
    → (j : ℕ) → copy_up n m d s i j ≡ moved m (d + i) (s + i) n j
unfolding copy_up
copy_up_lem zero m d s i h j = ground arith
copy_up_lem (suc n) m d s i h j =
    ground (arith, copy_up_lem n (update m (d + i) (m (s + i))) d s (i + 1) (ground arith) j)

copy_down_lem :
    (n : ℕ) (m : Bytes) (d s : ℕ) → s ≤ d → (j : ℕ) → copy_down n m d s j ≡ moved m d s n j
unfolding copy_down
copy_down_lem zero m d s h j = ground arith
copy_down_lem (suc n) m d s h j =
    ground (arith, copy_down_lem n (update m (d + n) (m (s + n))) d s h j)

-- memcpy between objects of which the source does not lie less than `len` bytes below the
-- destination copies the source; all other bytes stay.
memcpy_lem :
    (m : Bytes) (dest src len : ℕ)
    → (dest ≤ src) ⊎ (src + len ≤ dest)
    → (j : ℕ) → memcpy m dest src len j ≡ moved m dest src len j
unfolding memcpy
memcpy_lem m dest src len h j = ground (arith, copy_up_lem len m dest src 0 (ground arith) j)

-- memmove copies the source as it was before, however source and destination overlap; all other
-- bytes stay.
pub memmove_lem :
    (m : Bytes) (dest src len : ℕ) → (j : ℕ) → memmove m dest src len j ≡ moved m dest src len j
unfolding memmove
memmove_lem m dest src len j = elim (dec_lt dest src) [
  | yes l ↦
      rw (lt→ltb dest src l) (ground (arith, copy_up_lem len m dest src 0 (inl (omega arith)) j))
  | no g ↦ elim (dec_lt src dest) [
    | yes l ↦
        rw (le→not-ltb dest src (omega arith), lt→ltb src dest l)
          (copy_down_lem len m dest src (omega arith) j)
    | no n ↦ let e : dest ≡ src = omega arith in ground (arith)
  ]
]

fill_lem :
    (n : ℕ) (m : Bytes) (d i byte j : ℕ)
    → fill n m d i byte j ≡ (if leb (d + i) j && ltb j (d + i + n) then byte else m j)
unfolding fill
fill_lem zero m d i byte j = ground arith
fill_lem (suc n) m d i byte j = ground (arith, fill_lem n (update m (d + i) byte) d (i + 1) byte j)

-- memset writes the low byte of `ch` to the `len` bytes from `dest` on; all other bytes stay.
memset_lem :
    (m : Bytes) (dest ch len j : ℕ)
    → memset m dest ch len j ≡ (if leb dest j && ltb j (dest + len) then ch % 256 else m j)
unfolding memset
memset_lem m dest ch len j = ground (arith, fill_lem len m dest 0 (ch % 256) j)
