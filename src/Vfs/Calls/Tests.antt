-- ===== src/Vfs/Calls/Tests.antt =====
-- A process with one open file, on which the laws are applied.
use cryptix_os.Memory.AddressSpace.{range_end, contains}
use cryptix_os.Vfs.Map.{MapOps, assoc_ops}
use cryptix_os.Vfs.FdTable.{get_fd, is_valid, insert, search, dup_at, dup_fd}
use cryptix_os.Vfs.Inode
use cryptix_os.Vfs.Inode.{InodeOps, new_file-kind, read-new_file, plain}
use cryptix_os.Vfs.Description.{Description}
use cryptix_os.Vfs.Calls.{
  OpenFiles, validate_address, for_user_buffer, referenced, get_file_handle, read, write, pread,
  lseek, close, dup2,
}
use cryptix_os.Vfs.Calls.Sharing.{Same, dup2-Same}
use cryptix_os.Vfs.Calls.Runs.{start_run, next, by_write, by_close, by_lseek}
use cryptix_os.Vfs.Calls.Offsets.{pread-read_lseek}
use cryptix_os.Vfs.Calls.Closing.{Closed, close-Closed}
use cryptix_os.Common.{
  ℕ, ◌^◌, ◌≡◌, refl, ap, ◌≢◌, ◌⊎◌, Bool, true, false, some, [], ◌∷◌, arith, leb, add64, ℤ, pos,
  negsuc, to_i32, increment, is_negative, int_eq, pos_injective, ok,
}

-- An inode that hands out two bytes wherever it is read.
abbrev two_bytes : InodeOps
two_bytes = record {
  Inode = Unit {0};
  is_directory = λ _. false;
  stat_size = λ _. 16;
  read = λ _ offset n. ok (pos 2, 7 ∷ 8 ∷ []);
  write = λ i offset bytes. (ok (pos 0), i);
  truncate = λ i n. (ok (pos 0), i);
}

abbrev upper_half : ℕ → Bool
upper_half address = leb (2 ^ 63) address

abbrev at_five : Description two_bytes
at_five = record { file = some (Inode.new_file two_bytes tt); access_mode = 3; offset = 5 }

abbrev numbers : MapOps ℤ
numbers = assoc_ops ℤ

abbrev objects : MapOps (Description two_bytes)
objects = assoc_ops (Description two_bytes)

abbrev State : Type 0
State = OpenFiles upper_half two_bytes numbers objects

-- Number 3 refers to it; one page of memory begins at 4096.
abbrev files : State
files = record {
  table = record { table = (pos 3, some (pos 9)) ∷ []; next_index = pos 4 };
  descriptions = (pos 9, some at_five) ∷ [];
  regions = record { virtual_range = record { base = 4096; size = 4096 }; physical_base = 0 } ∷ [];
}

files-handle :
    get_file_handle upper_half two_bytes numbers objects files (pos 3) ≡ some (pos 9, at_five)
unfolding get_file_handle referenced get_fd int_eq to_i32
files-handle = refl

files-page : validate_address files.regions 4096 ≡ true
unfolding validate_address contains range_end add64
files-page = refl

files-buffer : for_user_buffer upper_half 4096 ≡ ok tt
unfolding for_user_buffer
files-buffer = refl

-- The same file under number 0 as well.
abbrev doubled : State
doubled = record files {
  table = record { table = (pos 0, some (pos 9)) ∷ (pos 3, some (pos 9)) ∷ []; next_index = pos 5 };
}

files-dup :
    dup2 upper_half two_bytes numbers objects 8 files (pos 3) (negsuc 0)
    ≡ some (ok (pos 0), doubled)
unfolding dup2 dup_fd dup_at search insert is_valid get_fd int_eq is_negative increment to_i32
files-dup = refl

seven_three : to_i32 (pos 7) ≢ to_i32 (pos 3)
unfolding to_i32
seven_three e = omega (arith, pos_injective 7 3 e)

seven_zero : to_i32 (pos 7) ≢ to_i32 (pos 0)
unfolding to_i32
seven_zero e = omega (arith, pos_injective 7 0 e)

-- A Write on one number, an LSeek on the other, a Close of a third.
abbrev written : State
written = (write upper_half two_bytes numbers objects doubled (pos 3) 4096 (1 ∷ [])).1

abbrev sought : State
sought = (lseek upper_half two_bytes numbers objects written (pos 0) (pos 8) (pos 0)).1

abbrev later : State
later = (close upper_half two_bytes numbers objects sought (pos 7)).1

dup2-Same_example : Same upper_half two_bytes numbers objects (pos 3) (pos 0) later
dup2-Same_example =
    dup2-Same upper_half two_bytes numbers objects 8 files doubled later (pos 3) (negsuc 0) (pos 0)
      files-handle (omega arith) (omega arith) (omega arith) files-dup
      (next
        (next (next start_run (by_write (pos 3) 4096 (1 ∷ []))) (by_lseek (pos 0) (pos 8) (pos 0)))
        (by_close (pos 7) seven_three seven_zero))

plain_file : (Inode.new_file two_bytes tt).kind ≡ plain
plain_file = new_file-kind two_bytes tt

pread-read_lseek_example :
    ((pread upper_half two_bytes numbers objects files (pos 3) 4096 2 (pos 1)).0 ≡ ok (pos 2))
    × ((read upper_half two_bytes numbers objects
          (lseek upper_half two_bytes numbers objects files (pos 3) (pos 1) (pos 0)).1
          (pos 3)
          4096
          2).0
        ≡ ok (pos 2))
    × ((pread upper_half two_bytes numbers objects files (pos 3) 4096 2 (pos 1)).1 ≡ 7 ∷ 8 ∷ [])
    × ((read upper_half two_bytes numbers objects
          (lseek upper_half two_bytes numbers objects files (pos 3) (pos 1) (pos 0)).1
          (pos 3)
          4096
          2).1
        ≡ 7 ∷ 8 ∷ [])
    × (get_file_handle upper_half two_bytes numbers objects
          (pread upper_half two_bytes numbers objects files (pos 3) 4096 2 (pos 1)).2
          (pos 3)
        ≡ some (pos 9, record at_five { offset = 3 }))
    × (get_file_handle upper_half two_bytes numbers objects
          (read upper_half two_bytes numbers objects
            (lseek upper_half two_bytes numbers objects files (pos 3) (pos 1) (pos 0)).1
            (pos 3)
            4096
            2).2
          (pos 3)
        ≡ some (pos 9, record at_five { offset = 3 }))
pread-read_lseek_example =
    pread-read_lseek upper_half two_bytes numbers objects files (pos 3) (pos 9) at_five
      (Inode.new_file two_bytes tt) 4096 2 1 2 (7 ∷ 8 ∷ []) files-handle refl refl
      (ap (λ k. k.directory) plain_file) (ap (λ k. k.socket) plain_file)
      (ap (λ k. k.fifo) plain_file) files-page files-buffer
      (read-new_file two_bytes tt 2 (pos 1) refl) (omega arith)

close-Closed_example :
    (((close upper_half two_bytes numbers objects files (pos 3)).0 ≡ ok (pos 0))
      ⊎ (close upper_half two_bytes numbers objects files (pos 3) ≡ (ok (negsuc 0), files)))
    × Closed upper_half two_bytes numbers objects
        (pos 3)
        (close upper_half two_bytes numbers objects files (pos 3)).1
    × ((j : ℤ)
        → to_i32 (pos 3) ≢ to_i32 j
        → get_file_handle upper_half two_bytes numbers objects
            (close upper_half two_bytes numbers objects files (pos 3)).1
            j
          ≡ get_file_handle upper_half two_bytes numbers objects files j)
close-Closed_example = close-Closed upper_half two_bytes numbers objects files (pos 3)
