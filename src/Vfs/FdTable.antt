-- ===== src/Vfs/FdTable.antt =====
-- Kernel/VFS/FileDescriptorTable.{hpp,cpp}, and Process::DupFd, Process::CloseFd and
-- Process::GetFileDescriptor of Kernel/Scheduler/Process.cpp. The map of the table is Prism's. `D`
-- stands for the references to descriptors. The lock makes an operation one step.
pub mod Laws
pub mod Dup
mod Tests
use cryptix_os.Vfs.Map.{MapOps}
use cryptix_os.Common.{
  ℕ, zero, suc, ◌+◌, ◌-◌, ◌*◌, ◌/◌, ◌%◌, ◌^◌, ◌≤◌, ◌<◌, min, ◌≡◌, refl, sym, ap, ◌∙◌, ◌≢◌, ◌↔◌, ◌⊎◌,
  inl, inr, Bool, true, false, not, ◌&&◌, ◌||◌, Option, none, some, List, [], ◌∷◌, ◌++◌, map, arith,
  dec_lt, ℕ_discrete, ltb, leb, ◌==◌, if◌then◌else◌, ltb→lt, lt→ltb, le→not-ltb, not-ltb→le, leb→le,
  ==_iff, tests, Bool-cases, Option-cases, length, get_elem?, set, length-append, All, Inserted,
  here, there, Inserted-All, All-Inserted, All-map, u64_mod, add64, sub64, mul64, add64-eq_add,
  sub64-eq_sub, mul64-eq_mul, sub64-add64, add64-lt, add64_add, add64_add_right, apart_of_disjoint,
  apart_scaled, Errno, eperm, enoent, esrch, ebadf, eagain, enomem, efault, eexist, enotdir, einval,
  epipe, enosys, ℤ, pos, negsuc, i32_max, to_i32, to_i32_small, increment, is_negative, int_eq,
  pos_injective, Outcome, ok, err, panic, ◌>>=◌,
}

module _ {D : Type 0} (M : MapOps D) where
  pub record FdTable : Type 0 where
    pub table : M.Map
    pub next_index : ℤ

  pub initial : FdTable
  initial = record { table = M.empty; next_index = pos 3 }

  -- GetFd: the null reference is none.
  unfoldable pub get_fd : FdTable → ℤ → Option D
  get_fd t fd = M.find t.table fd

  unfoldable pub is_valid : FdTable → ℤ → Bool
  unfolding get_fd
  is_valid t fd = elim (get_fd t fd) [ none ↦ false | some _ ↦ true ]

  -- Insert: m_NextIndex is an i32, which wraps around.
  unfoldable pub insert : FdTable → D → ℤ → ℤ × FdTable
  unfolding is_valid
  insert t fd desired =
      let found = is_valid t desired in
      let number = if not (is_negative desired) && not found then desired else t.next_index in
      (
        number,
        record { table = M.assign t.table number fd; next_index = to_i32 (increment t.next_index) },
      )

  -- Erase
  pub erase : FdTable → ℤ → Outcome {0} Unit × FdTable
  unfolding get_fd
  erase t fd = elim (get_fd t fd) [
    | none ↦ (err ebadf, t)
    | some _ ↦ (ok tt, record t { table = M.erase t.table fd })
  ]

  pub clear : FdTable → FdTable
  clear t = record { table = M.empty; next_index = pos 3 }

  -- CloseFd
  pub close_fd : FdTable → ℤ → Outcome {0} Unit × FdTable
  unfolding erase
  close_fd t fd = erase t fd

  -- GetFileDescriptor
  pub get_file_descriptor : FdTable → ℤ → Outcome D
  unfolding get_fd
  get_file_descriptor t fd = elim (get_fd t (to_i32 fd)) [ none ↦ err ebadf | some d ↦ ok d ]

  -- The loop of DupFd: the first number from `number` on that is not negative and not in use. The
  -- numbers are passed to the table as i32.
  unfoldable pub search : ℕ → FdTable → ℤ → Option ℤ
  unfolding is_valid
  search zero t number = none
  search (suc fuel) t number =
      let rest = search fuel t (increment number) in
      if is_negative number || is_valid t (to_i32 number) then rest else some number

  -- DupFd after the loop, which ended at `number`.
  unfoldable pub dup_at : FdTable → D → ℤ → Outcome ℤ × FdTable
  unfolding get_fd close_fd insert
  dup_at t old number =
      let t' : FdTable = elim (get_fd t (to_i32 number)) [
        | none ↦ t
        | some _ ↦ (close_fd t (to_i32 number)).1
      ] in
      let (given, t'') = insert t' old (to_i32 number) in
      if is_negative given then (err ebadf, t'') else (ok given, t'')

  -- DupFd, with fuel for its loop; none when the fuel runs out.
  unfoldable pub dup_fd : ℕ → FdTable → ℤ → ℤ → Option (Outcome ℤ × FdTable)
  unfolding get_fd search dup_at
  dup_fd fuel t old_number new_number =
      if int_eq old_number new_number
      then some (err einval, t)
      else elim (get_fd t (to_i32 old_number)) [
        | none ↦ some (err ebadf, t)
        | some old ↦ elim (search fuel t new_number) [
          | none ↦ none
          | some number ↦ some (dup_at t old number)
        ]
      ]
