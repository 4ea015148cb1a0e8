-- ===== src/Vfs/Calls/Kept.antt =====
-- What the calls on open files leave: the table, and all descriptors.
use cryptix_os.Vfs.Map.{MapOps}
use cryptix_os.Vfs.Inode.{InodeOps}
use cryptix_os.Vfs.Description.{Description, can_read}
use cryptix_os.Vfs.Calls.{
  OpenFiles, validate_address, for_user_buffer, get_file_handle, put, read_into, write_from,
  read_handle, read, write_handle, write, pread_handle, pwrite_handle, lseek_handle,
  ftruncate_handle, ftruncate,
}
use cryptix_os.Common.{
  ℕ, ◌≡◌, refl, sym, ap, ◌∙◌, ◌≢◌, ◌⊎◌, inl, inr, Bool, not, ◌&&◌, Option, none, some, List, arith,
  ℕ_discrete, ◌==◌, Bool-cases, efault, ℤ, pos, negsuc, is_negative, pos_injective, magnitude, ok,
  err,
}

pos_negsuc : {m n : ℕ} → pos m ≢ negsuc n
pos_negsuc e = absurd (cc)

ℤ_discrete : (k j : ℤ) → Dec (k ≡ j)
ℤ_discrete (pos m) (pos n) = elim (ℕ_discrete m n) [
  | yes q ↦ yes (ap pos q)
  | no q ↦ no (λ e. q (pos_injective m n e))
]
ℤ_discrete (negsuc m) (negsuc n) = elim (ℕ_discrete m n) [
  | yes q ↦ yes (ap negsuc q)
  | no q ↦ no (λ e. q (omega (arith, ap magnitude e)))
]
ℤ_discrete (pos m) (negsuc n) = no pos_negsuc
ℤ_discrete (negsuc m) (pos n) = no (λ e. pos_negsuc (sym e))

for_user_buffer_cases :
    (higher : ℕ → Bool) (buffer : ℕ)
    → (for_user_buffer higher buffer ≡ ok tt) ⊎ (for_user_buffer higher buffer ≡ err efault)
unfolding for_user_buffer
for_user_buffer_cases higher buffer = elim (Bool-cases (not (buffer == 0) && higher buffer)) [
  | inl h ↦ rw h (inr refl)
  | inr h ↦ rw h (inl refl)
]

module _ (higher : ℕ → Bool) (I : InodeOps) (M : MapOps ℤ) (O : MapOps (Description I)) where
  -- The reference is that of an object.
  abbrev pub IsOpen : OpenFiles higher I M O → ℤ → Type 0
  IsOpen s r = (d : Description I) × (O.find s.descriptions r ≡ some d)

  -- The table is the same, and all objects are still there.
  pub record Kept (s t : OpenFiles higher I M O) : Type 0 where
    pub table_same : t.table ≡ s.table
    pub still_open : (r : ℤ) → IsOpen s r → IsOpen t r

  Kept-refl : (s : OpenFiles higher I M O) → Kept s s
  Kept-refl s = record { table_same = refl; still_open = λ r h. h }

  pub put-Kept :
      (s : OpenFiles higher I M O) (r : ℤ) (d : Description I) → Kept s (put higher I M O s r d)
  unfolding put
  put-Kept s r d = record {
    table_same = refl;
    still_open = λ k (d', e). elim (ℤ_discrete r k) [
      | yes q ↦ (d, rw (sym q) (O.find-assign s.descriptions r d))
      | no q ↦ (d', O.find-assign_ne s.descriptions r k d q ∙ e)
    ];
  }

  read_into-Kept :
      (s : OpenFiles higher I M O) (r : ℤ) (d : Description I) (out count : ℕ) (offset : ℤ)
      → Kept s (read_into higher I M O s r d out count offset).2
  unfolding read_into
  read_into-Kept s r d out count offset = elim (for_user_buffer_cases higher out) [
    | inl e ↦ rw (read_into, e) (put-Kept s r _)
    | inr e ↦ rw (read_into, e) (Kept-refl s)
  ]

  write_from-Kept :
      (s : OpenFiles higher I M O) (r : ℤ) (d : Description I) (buffer : ℕ) (bytes : List ℕ)
      (offset : ℤ)
      → Kept s (write_from higher I M O s r d buffer bytes offset).1
  unfolding write_from
  write_from-Kept s r d buffer bytes offset = elim (for_user_buffer_cases higher buffer) [
    | inl e ↦ rw (write_from, e) (put-Kept s r _)
    | inr e ↦ rw (write_from, e) (Kept-refl s)
  ]

  read_handle-Kept :
      (s : OpenFiles higher I M O) (h : Option (ℤ × Description I)) (out count : ℕ)
      → Kept s (read_handle higher I M O s h out count).2
  unfolding read_handle
  read_handle-Kept s none out count = Kept-refl s
  read_handle-Kept s (some (r, d)) out count = elim (Bool-cases (can_read d.access_mode)) [
    | inl c ↦ rw c (read_into-Kept s r d out count _)
    | inr c ↦ rw c (Kept-refl s)
  ]

  pub read-Kept :
      (s : OpenFiles higher I M O) (fd : ℤ) (out count : ℕ)
      → Kept s (read higher I M O s fd out count).2
  unfolding read
  read-Kept s fd out count = elim (Bool-cases (validate_address s.regions out)) [
    | inl v ↦ rw v (read_handle-Kept s (get_file_handle higher I M O s fd) out count)
    | inr v ↦ rw v (Kept-refl s)
  ]

  write_handle-Kept :
      (s : OpenFiles higher I M O) (h : Option (ℤ × Description I)) (buffer : ℕ) (bytes : List ℕ)
      → Kept s (write_handle higher I M O s h buffer bytes).1
  unfolding write_handle
  write_handle-Kept s none buffer bytes = Kept-refl s
  write_handle-Kept s (some (r, d)) buffer bytes = write_from-Kept s r d buffer bytes _

  pub write-Kept :
      (s : OpenFiles higher I M O) (fd : ℤ) (buffer : ℕ) (bytes : List ℕ)
      → Kept s (write higher I M O s fd buffer bytes).1
  unfolding write
  write-Kept s fd buffer bytes = elim (Bool-cases (validate_address s.regions buffer)) [
    | inl v ↦ rw v (write_handle-Kept s (get_file_handle higher I M O s fd) buffer bytes)
    | inr v ↦ rw v (Kept-refl s)
  ]

  pub pread_handle-Kept :
      (s : OpenFiles higher I M O) (h : Option (ℤ × Description I)) (out count : ℕ) (offset : ℤ)
      → Kept s (pread_handle higher I M O s h out count offset).2
  unfolding pread_handle
  pread_handle-Kept s none out count offset = Kept-refl s
  pread_handle-Kept s (some (r, d)) out count offset =
      elim (Bool-cases (validate_address s.regions out)) [
        | inl v ↦ rw v (read_into-Kept s r d out count offset)
        | inr v ↦ rw v (Kept-refl s)
      ]

  pub pwrite_handle-Kept :
      (s : OpenFiles higher I M O) (h : Option (ℤ × Description I)) (buffer : ℕ) (bytes : List ℕ)
      (offset : ℤ)
      → Kept s (pwrite_handle higher I M O s h buffer bytes offset).1
  unfolding pwrite_handle
  pwrite_handle-Kept s none buffer bytes offset = Kept-refl s
  pwrite_handle-Kept s (some (r, d)) buffer bytes offset =
      elim (Bool-cases (validate_address s.regions buffer)) [
        | inl v ↦ rw v (write_from-Kept s r d buffer bytes offset)
        | inr v ↦ rw v (Kept-refl s)
      ]

  pub lseek_handle-Kept :
      (s : OpenFiles higher I M O) (h : Option (ℤ × Description I)) (offset whence : ℤ)
      → Kept s (lseek_handle higher I M O s h offset whence).1
  unfolding lseek_handle
  lseek_handle-Kept s none offset whence = Kept-refl s
  lseek_handle-Kept s (some (r, d)) offset whence = put-Kept s r _

  ftruncate_handle-Kept :
      (s : OpenFiles higher I M O) (h : Option (ℤ × Description I)) (n : ℤ)
      → Kept s (ftruncate_handle higher I M O s h n).1
  unfolding ftruncate_handle
  ftruncate_handle-Kept s none n = Kept-refl s
  ftruncate_handle-Kept s (some (r, d)) n = put-Kept s r _

  pub ftruncate-Kept :
      (s : OpenFiles higher I M O) (fd n : ℤ) → Kept s (ftruncate higher I M O s fd n).1
  unfolding ftruncate
  ftruncate-Kept s fd n = elim (Bool-cases (is_negative n)) [
    | inl m ↦ rw m (Kept-refl s)
    | inr m ↦ rw m (ftruncate_handle-Kept s (get_file_handle higher I M O s fd) n)
  ]
