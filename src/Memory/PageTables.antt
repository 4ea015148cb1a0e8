-- ===== src/Memory/PageTables.antt =====
-- The page tables of an architecture (InternalMap, InternalUnmap, Virt2Phys and SetFlags of
-- PageMap, and Arch::VMM::GetPageSize), as an interface. Nothing is assumed of them: the walk
-- through the levels and what it allocates are the architecture's.
use cryptix_os.Common.{ℕ, Bool}

pub record PageOps : Type 1 where
  pub Flags : Type 0
  pub no_flags : Flags
  pub Table : Type 0
  pub page_size : Flags → ℕ
  -- The physical address of a page, or (u64)-1.
  pub virt2phys : Table → ℕ → Flags → ℕ
  pub internal_map : Table → ℕ → ℕ → Flags → Bool × Table
  pub internal_unmap : Table → ℕ → Flags → Bool × Table
  pub set_flags : Table → ℕ → Flags → Bool × Table
