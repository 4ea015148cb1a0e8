-- ===== src/Memory/Frames/Tests.antt =====
-- Frame allocators with concrete memory, on which the laws are applied.
use cryptix_os.Common.Prism.{math_ops}
use cryptix_os.Memory.Bitmap.{Bits, bits_ops}
use cryptix_os.Memory.Zone.{MemoryZone, usable}
use cryptix_os.Memory.Frames.{
  BitmapAllocator, allocate_pages, free_pages, find_free_regions, scan, set_range, account, survey,
  survey_zone, initialize,
}
use cryptix_os.Memory.Frames.Allocate.{IsAllocator, Granted, Refused, allocate_pages_cases}
use cryptix_os.Memory.Frames.Initialize.{Usable, covered, initialize_lem}
use cryptix_os.Memory.Frames.Laws.{
  allocate_pages-IsAllocator, allocate_pages_disjoint, free_pages-allocate_pages,
}
use cryptix_os.Common.{
  ℕ, ◌+◌, ◌*◌, ◌/◌, ◌≤◌, ◌<◌, ◌≡◌, refl, ◌⊎◌, inr, false, not, List, [], ◌∷◌, arith, ◌==◌, All,
  add64, sub64, mul64, ok,
}

-- Eight pages of 4096 bytes, the first of them in use; the last search ended at page 2.
abbrev frames : BitmapAllocator Bits
frames = record {
  page_bitmap = record { limit = 8; bit = λ i. i == 0 };
  memory_top = 32768;
  usable_memory_top = 32768;
  page_size = 4096;
  usable_memory_size = 32768;
  total_memory = 32768;
  used_memory = 4096;
  last_index = 2;
}

frames-IsAllocator : IsAllocator bits_ops frames
frames-IsAllocator = record {
  paged = omega arith;
  in_space = omega arith;
  last_in = omega arith;
  mapped = omega arith;
  null_used = refl;
}

allocate_pages_cases_example :
    Granted bits_ops frames 3 (allocate_pages bits_ops frames 3)
    ⊎ Refused bits_ops frames 3 (allocate_pages bits_ops frames 3)
allocate_pages_cases_example =
    allocate_pages_cases bits_ops frames 3 frames-IsAllocator (omega arith)

first_address : (allocate_pages bits_ops frames 3).0 ≡ 8192
unfolding allocate_pages find_free_regions scan set_range account mul64 sub64
first_address = refl

second_address : (allocate_pages bits_ops (allocate_pages bits_ops frames 3).1 2).0 ≡ 20480
unfolding allocate_pages find_free_regions scan set_range account mul64 sub64
second_address = refl

allocate_pages-IsAllocator_example : IsAllocator bits_ops (allocate_pages bits_ops frames 3).1
allocate_pages-IsAllocator_example = allocate_pages-IsAllocator bits_ops frames 3 frames-IsAllocator

allocate_pages_disjoint_example :
    let p = (allocate_pages bits_ops frames 3).0 in
    let q = (allocate_pages bits_ops (allocate_pages bits_ops frames 3).1 2).0 in
    (p + 3 * 4096 ≤ q) ⊎ (q + 2 * 4096 ≤ p)
allocate_pages_disjoint_example =
    allocate_pages_disjoint bits_ops frames 3 2 frames-IsAllocator (omega (arith, first_address))
      (omega (arith, second_address))

free_pages-allocate_pages_example :
    let (p, a) = allocate_pages bits_ops frames 3 in
    ((j : ℕ)
      → bits_ops.get_index (free_pages bits_ops a p 3).page_bitmap j
        ≡ bits_ops.get_index frames.page_bitmap j)
    × ((free_pages bits_ops a p 3).used_memory ≡ 4096)
free_pages-allocate_pages_example =
    free_pages-allocate_pages bits_ops frames 3 frames-IsAllocator (omega arith)
      (omega (arith, first_address))

-- Before Initialize; a memory map with a usable zone of four pages from address 0 on.
abbrev blank : BitmapAllocator Bits
blank = record {
  page_bitmap = record { limit = 0; bit = λ _. false };
  memory_top = 0;
  usable_memory_top = 0;
  page_size = 4096;
  usable_memory_size = 0;
  total_memory = 0;
  used_memory = 0;
  last_index = 0;
}

abbrev zones : List MemoryZone
zones = record { base = 0; size = 16384; kind = usable } ∷ []

zones-Usable : All (Usable bits_ops 4096 4) zones
zones-Usable =
    (inr (record { first = 1; aligned = refl; below = omega arith; in_space = omega arith }), tt)

abbrev surveyed : BitmapAllocator Bits
surveyed = survey bits_ops math_ops zones blank

initialize_lem_example :
    (a : BitmapAllocator Bits) × (initialize bits_ops math_ops blank zones 4096 ≡ (a, ok tt))
    × (a.page_bitmap.limit ≡ surveyed.usable_memory_top / 4096)
    × ((i : ℕ)
        → i < surveyed.usable_memory_top / 4096
        → a.page_bitmap.bit i ≡ not (covered 4096 zones i))
    × (a ≡ record surveyed { page_bitmap = a.page_bitmap })
unfolding survey survey_zone add64
initialize_lem_example =
    initialize_lem bits_ops math_ops blank zones 4096 refl (omega arith) (omega arith) zones-Usable
