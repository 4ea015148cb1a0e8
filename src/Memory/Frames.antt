-- ===== src/Memory/Frames.antt =====
-- Kernel/Memory/Allocator/BitmapAllocator.{hpp,cpp}: the page-frame allocator, over the bitmap of
-- Prism. A set bit is a page in use. The allocator runs under its lock, so an operation is one
-- step; `static usize lastIndex` of AllocatePages is a field.
pub mod Scan
pub mod Allocate
pub mod Laws
pub mod Initialize
pub mod Survey
mod Tests
use cryptix_os.Common.Prism.{MathOps}
use cryptix_os.Memory.Bitmap.{BitmapOps}
use cryptix_os.Memory.Zone.{
  MemoryZone, MemoryZoneType, is_usable, usable, acpi_reclaimable, bootloader_reclaimable,
  kernel_and_modules,
}
use cryptix_os.Common.{
  ℕ, zero, suc, ◌+◌, ◌-◌, ◌*◌, ◌/◌, ◌%◌, ◌^◌, ◌≤◌, ◌<◌, min, ◌≡◌, refl, sym, ap, ◌∙◌, ◌≢◌, ◌↔◌, ◌⊎◌,
  inl, inr, Bool, true, false, not, ◌&&◌, ◌||◌, Option, none, some, List, [], ◌∷◌, ◌++◌, map, arith,
  dec_lt, ℕ_discrete, ltb, leb, ◌==◌, if◌then◌else◌, ltb→lt, lt→ltb, le→not-ltb, not-ltb→le, leb→le,
  ==_iff, tests, Bool-cases, Option-cases, length, get_elem?, set, length-append, All, u64_mod,
  add64, sub64, mul64, add64-eq_add, sub64-eq_sub, mul64-eq_mul, sub64-add64, Outcome, ok, err,
  panic, einval, enomem,
}

pub record BitmapAllocator (Bitmap : Type 0) : Type 0 where
  pub page_bitmap : Bitmap
  pub memory_top : ℕ
  pub usable_memory_top : ℕ
  pub page_size : ℕ
  pub usable_memory_size : ℕ
  pub total_memory : ℕ
  pub used_memory : ℕ
  pub last_index : ℕ

-- What FindFreeRegions returns and what it leaves in its reference `start` and in the bitmap.
pub record Search (Bitmap : Type 0) : Type 0 where
  pub pages : ℕ
  pub start : ℕ
  pub bitmap : Bitmap

module _ (B : BitmapOps) where
  open B use {Bitmap, get_index, set_index}

  -- for (usize i = page; i < page + rounds; i++) m_PageBitmap.SetIndex(i, v);
  pub set_range : ℕ → Bitmap → ℕ → Bool → Bitmap
  set_range zero bitmap page v = bitmap
  set_range (suc rounds) bitmap page v = set_range rounds (set_index bitmap page v) (page + 1) v

  -- The `while (start < limit)` of FindFreeRegions, with `limit - start` rounds left.
  pub scan : ℕ → ℕ → ℕ → Bitmap → ℕ → ℕ → Search Bitmap
  scan page_size count zero bitmap start run = record { pages = 0; start = start; bitmap = bitmap }
  scan page_size count (suc rounds) bitmap start run =
      let again = scan page_size count rounds bitmap (start + 1) 0 in
      let longer = scan page_size count rounds bitmap (start + 1) (run + 1) in
      let page = sub64 (start + 1) count in
      let found : Search Bitmap = record {
        pages = mul64 page page_size;
        start = start + 1;
        bitmap = set_range (start + 1 - page) bitmap page true;
      } in
      if not (get_index bitmap start) then (if run + 1 == count then found else longer) else again

  pub find_free_regions : BitmapAllocator Bitmap → ℕ → ℕ → ℕ → Search Bitmap
  find_free_regions a start count limit =
      scan a.page_size count (limit - start) a.page_bitmap start 0

  -- The part of AllocatePages after a search that gave `pages`: the accounting.
  pub account : BitmapAllocator Bitmap → ℕ → ℕ → ℕ × BitmapAllocator Bitmap
  account a pages count =
      (pages, record a { used_memory = add64 a.used_memory (mul64 count a.page_size) })

  pub allocate_pages : BitmapAllocator Bitmap → ℕ → ℕ × BitmapAllocator Bitmap
  unfolding account
  allocate_pages a count =
      let i = a.last_index in
      let first = find_free_regions a i count (a.usable_memory_top / a.page_size) in
      let second = find_free_regions (record a { page_bitmap = first.bitmap }) 0 count i in
      let a₁ = record a { page_bitmap = first.bitmap; last_index = first.start } in
      let a₂ = record a { page_bitmap = second.bitmap; last_index = second.start } in
      if count == 0
      then (0, a)
      else if not (first.pages == 0)
      then account a₁ first.pages count
      else if second.pages == 0
      then (0, a₂)
      else account a₂ second.pages count

  pub free_pages : BitmapAllocator Bitmap → ℕ → ℕ → BitmapAllocator Bitmap
  free_pages a pages count =
      let index = pages / a.page_size in
      if count == 0 || pages == 0 then a else record a {
        page_bitmap = set_range (add64 index count - index) a.page_bitmap index false;
        used_memory = sub64 a.used_memory (mul64 count a.page_size);
      }

  pub free_memory_size : BitmapAllocator Bitmap → ℕ
  free_memory_size a = sub64 a.total_memory a.used_memory

  -- for (; page < z.size; page += pageSize) SetIndex((z.base + page) / pageSize, false), on fuel.
  pub release_pages : ℕ → ℕ → MemoryZone → ℕ → Bitmap → Bitmap
  release_pages zero page_size z page bitmap = bitmap
  release_pages (suc fuel) page_size z page bitmap =
      let rest =
        release_pages fuel page_size z (add64 page page_size)
          (set_index bitmap (add64 z.base page / page_size) false) in
      if ltb page z.size then rest else bitmap

  -- A usable zone's pages become free, but for the first 4096 bytes of a zone at address 0.
  -- The loop advances by a positive page size, so the zone's size is fuel enough.
  pub release_zone : ℕ → MemoryZone → Bitmap → Bitmap
  release_zone page_size z bitmap =
      if is_usable z.kind
      then release_pages z.size page_size z (if z.base == 0 then 4096 else 0) bitmap
      else bitmap

  pub release_zones : ℕ → List MemoryZone → Bitmap → Bitmap
  release_zones page_size [] bitmap = bitmap
  release_zones page_size (z ∷ zones) bitmap =
      release_zones page_size zones (release_zone page_size z bitmap)

module _ (B : BitmapOps) (M : MathOps) where
  open B use {Bitmap, get_size, allocate, set_all}
  open M use {is_power_of_two, max}

  -- The body of the first loop of Initialize: one memory map entry.
  unfoldable pub survey_zone : MemoryZone → BitmapAllocator Bitmap → BitmapAllocator Bitmap
  survey_zone z a =
      let a₁ = record a { memory_top = max a.memory_top (add64 z.base z.size) } in
      let a₂ = record a₁ {
        usable_memory_size = add64 a.usable_memory_size z.size;
        usable_memory_top = max a.usable_memory_top (add64 z.base z.size);
        total_memory = add64 a.total_memory z.size;
      } in
      let a₃ = record a₁ {
        used_memory = add64 a.used_memory z.size;
        total_memory = add64 a.total_memory z.size;
      } in
      elim z.kind [
        | usable ↦ a₂
        | acpi_reclaimable ↦ a₃
        | bootloader_reclaimable ↦ a₃
        | kernel_and_modules ↦ a₃
        | _ ↦ a₁
      ]

  unfoldable pub survey : List MemoryZone → BitmapAllocator Bitmap → BitmapAllocator Bitmap
  survey [] a = a
  survey (z ∷ zones) a = survey zones (survey_zone z a)

  -- The allocator that is left, and the ErrorOr<void>; `panic` is the Assert on the bitmap's size.
  pub initialize :
      BitmapAllocator Bitmap → List MemoryZone → ℕ → BitmapAllocator Bitmap × Outcome (Unit {0})
  initialize a zones page_size =
      let s = survey zones (record a { page_size = page_size }) in
      let full = set_all (allocate (s.usable_memory_top / page_size)) 0xff in
      if not (is_power_of_two page_size)
      then (a, err einval)
      else if s.memory_top == 0
      then (s, err enomem)
      else if get_size full == 0
      then (record s { page_bitmap = full }, panic)
      else (record s { page_bitmap = release_zones B page_size zones full }, ok tt)
