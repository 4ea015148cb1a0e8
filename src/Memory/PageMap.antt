-- ===== src/Memory/PageMap.antt =====
-- Kernel/Memory/PageMap.cpp: ranges of pages, over the page tables of an architecture. The lock is
-- held for one page at a time.
use cryptix_os.Memory.PageTables.{PageOps}
use cryptix_os.Memory.AddressSpace.{Region, virtual_base}
use cryptix_os.Common.{ℕ, zero, suc, Bool, true, false, not, ltb, ◌==◌, if◌then◌else◌, add64, sub64}

module _ (P : PageOps) where
  open P use {Flags, no_flags, Table, page_size, virt2phys, internal_map, internal_unmap, set_flags}

  -- Map. Its Assert tests the address of an error message, which is never null.
  pub map_page : Table → ℕ → ℕ → Flags → Bool × Table
  map_page t virt phys flags = internal_map t virt phys flags

  pub unmap_page : Table → ℕ → Flags → Bool × Table
  unmap_page t virt flags = internal_unmap t virt flags

  pub remap_page : Table → ℕ → ℕ → Flags → Bool × Table
  remap_page t old new flags =
      let phys = virt2phys t old flags in map_page (unmap_page t old flags).1 new phys flags

  -- The loop of UnmapRange from offset `i` on. The offset grows in each round, so the size is fuel
  -- enough for all loops here.
  pub unmap_from : ℕ → Table → ℕ → ℕ → Flags → ℕ → Bool × Table
  unmap_from zero t virt size flags i = (true, t)
  unmap_from (suc fuel) t virt size flags i =
      let rest =
        unmap_from fuel (unmap_page t (add64 virt i) flags).1 virt size flags
          (add64 i (page_size flags)) in
      if not (ltb i size)
      then (true, t)
      else if (unmap_page t (add64 virt i) flags).0
      then rest
      else (false, (unmap_page t (add64 virt i) flags).1)

  pub unmap_range : Table → ℕ → ℕ → Flags → Bool × Table
  unmap_range t virt size flags = unmap_from size t virt size flags 0

  -- The loop of MapRange. After a failure the pages before are unmapped, with the flags left out.
  pub map_from : ℕ → Table → ℕ → ℕ → ℕ → Flags → ℕ → Bool × Table
  map_from zero t virt phys size flags i = (true, t)
  map_from (suc fuel) t virt phys size flags i =
      let r = map_page t (add64 virt i) (add64 phys i) flags in
      let rest = map_from fuel r.1 virt phys size flags (add64 i (page_size flags)) in
      if not (ltb i size)
      then (true, t)
      else if r.0
      then rest
      else (false, (unmap_range r.1 virt (sub64 i (page_size flags)) no_flags).1)

  pub map_range : Table → ℕ → ℕ → ℕ → Flags → Bool × Table
  map_range t virt phys size flags = map_from size t virt phys size flags 0

  pub remap_from : ℕ → Table → ℕ → ℕ → ℕ → Flags → ℕ → Bool × Table
  remap_from zero t old new size flags i = (true, t)
  remap_from (suc fuel) t old new size flags i =
      let r = remap_page t (add64 old i) (add64 new i) flags in
      let rest = remap_from fuel r.1 old new size flags (add64 i (page_size flags)) in
      if not (ltb i size) then (true, t) else if r.0 then rest else (false, r.1)

  pub remap_range : Table → ℕ → ℕ → ℕ → Flags → Bool × Table
  remap_range t old new size flags = remap_from size t old new size flags 0

  pub set_flags_from : ℕ → Table → ℕ → ℕ → Flags → ℕ → Bool × Table
  set_flags_from zero t virt size flags i = (true, t)
  set_flags_from (suc fuel) t virt size flags i =
      let r = set_flags t (add64 virt i) flags in
      let rest = set_flags_from fuel r.1 virt size flags (add64 i (page_size flags)) in
      if not (ltb i size) then (true, t) else if r.0 then rest else (false, r.1)

  pub set_flags_range : Table → ℕ → ℕ → Flags → Bool × Table
  set_flags_range t virt size flags = set_flags_from size t virt size flags 0

  -- MapRegion and RemapRegion; `flags` is what the region's access mode comes to.
  pub map_region : Table → Region → Flags → Bool × Table
  map_region t r flags = map_range t (virtual_base r) r.physical_base r.virtual_range.size flags

  -- A new address of 0 stands for the old one.
  pub remap_region : Table → Region → ℕ → Flags → Bool × Table
  remap_region t r new flags =
      remap_range t (virtual_base r) (if new == 0 then virtual_base r else new) r.virtual_range.size
        flags
