-- ===== src/Memory/AddressSpace/Tests.antt =====
-- Address spaces with two regions, on which the laws are applied.
use cryptix_os.Common.Prism.{math_ops}
use cryptix_os.Memory.Tree.{SortedList, list_ops}
use cryptix_os.Memory.AddressSpace.{Region, is_available, allocate_region}
use cryptix_os.Memory.AddressSpace.Laws.{Apart, IsSpace, Placed, is_available_iff}
use cryptix_os.Memory.AddressSpace.Find.{allocate_region_lem}
use cryptix_os.Common.{ℕ, ◌%◌, ◌≡◌, refl, ◌↔◌, All, true, inl, [], ◌∷◌, arith}

abbrev first : Region
first = record { virtual_range = record { base = 4096; size = 8192 }; physical_base = 0 }

abbrev second : Region
second = record { virtual_range = record { base = 20480; size = 4096 }; physical_base = 0 }

abbrev regions : SortedList Region
regions = record {
  items = (4096, first) ∷ (20480, second) ∷ [];
  sorted = ((omega arith, tt), (tt, tt));
}

regions-IsSpace : IsSpace (list_ops Region) regions
regions-IsSpace = record {
  entry = (
    record { keyed = refl; not_empty = omega arith; in_space = omega arith },
    (record { keyed = refl; not_empty = omega arith; in_space = omega arith }, tt),
  );
  disjoint = ((inl (omega arith), tt), (tt, tt));
}

is_available_iff_example :
    (is_available (list_ops Region) regions 12288 8192 ≡ true)
    ↔ All (λ f. Apart 12288 8192 f.1) regions.items
is_available_iff_example =
    is_available_iff (list_ops Region) regions 12288 8192 (omega arith) regions-IsSpace.entry

allocate_region_lem_example :
    (base : ℕ) × (base % 4096 ≡ 0)
    × Placed (list_ops Region) regions base 8192 (
        allocate_region
          (list_ops Region)
          math_ops
          (record { base = 4096; size = 1048576 })
          regions
          8192
          4096)
allocate_region_lem_example =
    allocate_region_lem (list_ops Region) math_ops (record { base = 4096; size = 1048576 }) regions
      8192 4096 24576 regions-IsSpace (omega arith) (omega arith) (omega arith)
      (omega arith, (omega arith, tt)) (omega arith)
