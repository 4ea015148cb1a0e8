-- ===== src/Memory/Pmm.antt =====
-- Kernel/Memory/PMM.cpp: the kernel's physical memory manager. Before Initialize it cuts pages off
-- the usable zones of the boot memory map; afterwards it hands requests to the frame allocator.
pub mod Laws
use cryptix_os.Common.Prism.{MathOps}
use cryptix_os.Memory.Bitmap.{BitmapOps}
use cryptix_os.Memory.Zone.{MemoryZone, is_usable}
use cryptix_os.Memory.Zone
use cryptix_os.Memory.Frames.{BitmapAllocator}
use cryptix_os.Memory.Frames
use cryptix_os.Common.{
  ℕ, zero, suc, ◌+◌, ◌-◌, ◌*◌, ◌/◌, ◌%◌, ◌^◌, ◌≤◌, ◌<◌, min, ◌≡◌, refl, sym, ap, ◌∙◌, ◌≢◌, ◌↔◌, ◌⊎◌,
  inl, inr, Bool, true, false, not, ◌&&◌, ◌||◌, Option, none, some, List, [], ◌∷◌, ◌++◌, map, arith,
  dec_lt, ℕ_discrete, ltb, leb, ◌==◌, if◌then◌else◌, ltb→lt, lt→ltb, le→not-ltb, not-ltb→le, leb→le,
  ==_iff, tests, Bool-cases, Option-cases, length, get_elem?, set, length-append, All, u64_mod,
  add64, sub64, mul64, add64-eq_add, sub64-eq_sub, mul64-eq_mul, sub64-add64, add64-lt, add64_add,
  add64_add_right, apart_of_disjoint, apart_scaled, Errno, eperm, enoent, esrch, ebadf, eagain,
  enomem, efault, eexist, enotdir, einval, epipe, enosys, Outcome, ok, err, panic, ◌>>=◌,
}

abbrev pub page_bytes : ℕ
page_bytes = 4096

-- s_Initialized, s_MemoryMap and s_BitmapAllocator.
pub record Pmm (Bitmap : Type 0) : Type 0 where
  pub initialized : Bool
  pub memory_map : List MemoryZone
  pub allocator : BitmapAllocator Bitmap

-- EarlyAllocatePages: the first usable zone that is large enough.
pub early_allocate : ℕ → List MemoryZone → ℕ × List MemoryZone
early_allocate bytes [] = (0, [])
early_allocate bytes (z ∷ zones) =
    let later = early_allocate bytes zones in
    if not (is_usable z.kind) || ltb z.size bytes
    then (later.0, z ∷ later.1)
    else ((Zone.allocate z bytes).0, (Zone.allocate z bytes).1 ∷ zones)

module _ (B : BitmapOps) where
  open B use {Bitmap}

  pub early_initialize : Pmm Bitmap → List MemoryZone → Pmm Bitmap
  early_initialize p zones = record p { memory_map = zones }

  pub allocate_pages : Pmm Bitmap → ℕ → ℕ × Pmm Bitmap
  allocate_pages p count =
      let early = early_allocate (mul64 count page_bytes) p.memory_map in
      let late = Frames.allocate_pages B p.allocator count in
      if not p.initialized
      then (early.0, record p { memory_map = early.1 })
      else (late.0, record p { allocator = late.1 })

  pub free_pages : Pmm Bitmap → ℕ → ℕ → Pmm Bitmap
  free_pages p pages count = record p { allocator = Frames.free_pages B p.allocator pages count }

module _ (B : BitmapOps) (M : MathOps) where
  open B use {Bitmap}

  pub initialize : Pmm Bitmap → List MemoryZone → Outcome (Pmm Bitmap × Bool)
  initialize p zones =
      let q = record p { memory_map = zones } in
      let set_up = Frames.initialize B M p.allocator zones page_bytes in
      if length zones == 0 then ok (q, false) else elim set_up.1 [
        | ok _ ↦ ok (record q { initialized = true; allocator = set_up.0 }, true)
        | err e ↦ ok (record q { allocator = set_up.0 }, false)
        | panic ↦ panic
      ]
