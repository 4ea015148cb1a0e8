-- ===== src/Memory/Mapping/Tests.antt =====
-- A process with one region, on which the laws are applied.
use cryptix_os.Common.Prism.{math_ops}
use cryptix_os.Memory.Bitmap.{bits_ops, Bits}
use cryptix_os.Memory.Tree.{SortedList, list_ops}
use cryptix_os.Memory.Pmm
use cryptix_os.Memory.Pmm.{page_bytes}
use cryptix_os.Memory.AddressSpace.{Region, find}
use cryptix_os.Memory.AddressSpace.Laws.{Apart, IsSpace, Placed}
use cryptix_os.Memory.AddressSpace.Placed.{placed_region}
use cryptix_os.Memory.Mapping.{Space, mmap, munmap, update, prot_to_access, outside_mask}
use cryptix_os.Memory.Mapping.Map.{mmap_fixed_cases}
use cryptix_os.Memory.Mapping.Unmap.{munmap-Placed}
use cryptix_os.Common.{
  ◌^◌, ◌≡◌, refl, ◌⊎◌, true, none, some, [], ◌∷◌, arith, ltb, All, here, enomem, pos, to_i64, ok,
  err,
}

abbrev none_mapped : SortedList Region
none_mapped = record { items = []; sorted = tt }

abbrev one_mapped : SortedList Region
one_mapped = record { items = (20480, placed_region 20480 8192) ∷ []; sorted = (tt, tt) }

abbrev space_of : SortedList Region → Space (list_ops Region)
space_of t = record { total = record { base = 4096; size = 2 ^ 40 }; tree = t; modes = λ _. none }

one_mapped-IsSpace : IsSpace (list_ops Region) one_mapped
one_mapped-IsSpace = record {
  entry = (record { keyed = refl; not_empty = omega arith; in_space = omega arith }, tt);
  disjoint = (tt, tt);
}

none_mapped-IsSpace : IsSpace (list_ops Region) none_mapped
none_mapped-IsSpace = record { entry = tt; disjoint = tt }

-- The same at the address 24576, which the region of the process covers.
mmap_fixed_cases_example :
    ((t : SortedList Region) × (mmap
          (list_ops Region)
          math_ops
          (space_of one_mapped)
          24576
          5000
          3
          48
          (pos 0)
        ≡ (
          ok (to_i64 24576),
          record (space_of one_mapped) {
            tree = t;
            modes = update (λ _. none) 24576 (prot_to_access 3);
          },
        ))
      × Placed
          (list_ops Region)
          one_mapped
          24576
          (math_ops.align_up (math_ops.align_up 5000 4096) 4096)
          (some (placed_region 24576 (math_ops.align_up (math_ops.align_up 5000 4096) 4096)), t)
      × find (list_ops Region) t 24576
        ≡ some (placed_region 24576 (math_ops.align_up (math_ops.align_up 5000 4096) 4096)))
    ⊎ ((mmap (list_ops Region) math_ops (space_of one_mapped) 24576 5000 3 48 (pos 0)
          ≡ (err enomem, space_of one_mapped))
        × ¬ All
            (λ f. Apart 24576 (math_ops.align_up (math_ops.align_up 5000 4096) 4096) f.1)
            one_mapped.items)
unfolding outside_mask
mmap_fixed_cases_example =
    mmap_fixed_cases (list_ops Region) math_ops (space_of one_mapped) 24576 5000 3 48
      one_mapped-IsSpace refl refl refl (omega arith) (omega arith)

abbrev frames : Pmm.Pmm Bits
frames = record {
  initialized = true;
  memory_map = [];
  allocator = record {
    page_bitmap = record { limit = 64; bit = λ i. ltb i 8 };
    memory_top = 262144;
    usable_memory_top = 262144;
    page_size = 4096;
    usable_memory_size = 262144;
    total_memory = 262144;
    used_memory = 32768;
    last_index = 8;
  };
}

one_mapped-Placed :
    Placed (list_ops Region) none_mapped 20480 8192 (some (placed_region 20480 8192), one_mapped)
one_mapped-Placed = record {
  region = refl;
  apart = tt;
  added = here [];
  space = one_mapped-IsSpace;
}

munmap-Placed_example :
    ((munmap (list_ops Region) bits_ops (space_of one_mapped) frames 20480 4096).0 ≡ ok 0)
    × ((munmap (list_ops Region) bits_ops (space_of one_mapped) frames 20480 4096).1.tree.items
        ≡ [])
    × (munmap (list_ops Region) bits_ops (space_of one_mapped) frames 20480 4096).2 ≡ frames
munmap-Placed_example =
    munmap-Placed (list_ops Region) bits_ops (space_of none_mapped) frames 20480 8192
      (some (placed_region 20480 8192), one_mapped) 4096 none_mapped-IsSpace one_mapped-Placed
      (omega arith) (omega arith)
