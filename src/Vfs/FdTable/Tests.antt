-- ===== src/Vfs/FdTable/Tests.antt =====
-- A table with two descriptors, on which the laws are applied.
use cryptix_os.Vfs.Map.{assoc_ops}
use cryptix_os.Vfs.FdTable.{FdTable, get_fd, is_valid, dup_fd}
use cryptix_os.Vfs.FdTable.Laws.{Bound}
use cryptix_os.Vfs.FdTable.Dup.{InUse, dup_fd_cases}
use cryptix_os.Common.{
  ℕ, ◌≤◌, ◌≡◌, ◌⊎◌, true, false, none, some, [], ◌∷◌, arith, ebadf, einval, pos, to_i32, int_eq, ok,
  err,
}

-- Descriptor 70 under number 0, descriptor 71 under number 3.
abbrev files : FdTable (assoc_ops ℕ)
files = record { table = (pos 3, some 71) ∷ (pos 0, some 70) ∷ []; next_index = pos 4 }

dup_fd_cases_example :
    ((int_eq (pos 3) (pos 0) ≡ true)
      × (dup_fd (assoc_ops ℕ) 8 files (pos 3) (pos 0) ≡ some (err einval, files)))
    ⊎ ((int_eq (pos 3) (pos 0) ≡ false)
        × (get_fd (assoc_ops ℕ) files (to_i32 (pos 3)) ≡ none)
        × (dup_fd (assoc_ops ℕ) 8 files (pos 3) (pos 0) ≡ some (err ebadf, files)))
    ⊎ (r : ℕ) × (d : ℕ) × (t : FdTable (assoc_ops ℕ)) × ((dup_fd
            (assoc_ops ℕ)
            8
            files
            (pos 3)
            (pos 0)
          ≡ some (ok (pos r), t))
        × (get_fd (assoc_ops ℕ) files (to_i32 (pos 3)) ≡ some d)
        × (0 ≤ r)
        × (is_valid (assoc_ops ℕ) files (pos r) ≡ false)
        × InUse (assoc_ops ℕ) files 0 r
        × Bound (assoc_ops ℕ) files (pos r) d t)
dup_fd_cases_example =
    dup_fd_cases (assoc_ops ℕ) 8 files (pos 3) (pos 0) (omega arith) (omega arith) (omega arith)
