-- ===== src/Memory/Mapping.antt =====
-- Kernel/API/MM.cpp with API/Posix/sys/mman.h: mmap, mprotect and munmap over the regions of a
-- process. The mask of addresses is that of x86_64. A region's access mode stands in a table by its
-- base.
pub mod Unmap
pub mod Map
mod Tests
use cryptix_os.Common.Prism.{MathOps}
use cryptix_os.Memory.Bitmap.{BitmapOps}
use cryptix_os.Memory.Tree.{TreeOps}
use cryptix_os.Memory.Pmm
use cryptix_os.Memory.Pmm.{page_bytes}
use cryptix_os.Memory.PageTables.{PageOps}
use cryptix_os.Memory.PageMap.{remap_region}
use cryptix_os.Memory.AddressSpace.{
  AddressRange, Region, virtual_base, find, allocate_region, allocate_fixed, erase_base,
}
use cryptix_os.Common.{
  ℕ, zero, suc, ◌+◌, ◌-◌, ◌*◌, ◌/◌, ◌%◌, ◌^◌, ◌≤◌, ◌<◌, min, ◌≡◌, refl, sym, ap, ◌∙◌, ◌≢◌, ◌↔◌, ◌⊎◌,
  inl, inr, Bool, true, false, not, ◌&&◌, ◌||◌, Option, none, some, List, [], ◌∷◌, ◌++◌, map, arith,
  dec_lt, ℕ_discrete, ltb, leb, ◌==◌, if◌then◌else◌, ltb→lt, lt→ltb, le→not-ltb, not-ltb→le, leb→le,
  ==_iff, tests, Bool-cases, Option-cases, length, get_elem?, set, length-append, All, Inserted,
  here, there, Inserted-All, All-Inserted, All-map, u64_mod, add64, sub64, mul64, add64-eq_add,
  sub64-eq_sub, mul64-eq_mul, sub64-add64, add64-lt, add64_add, add64_add_right, apart_of_disjoint,
  apart_scaled, Errno, eperm, enoent, esrch, ebadf, eagain, enomem, efault, eexist, enotdir, einval,
  epipe, enosys, eisdir, espipe, eoverflow, ℤ, pos, negsuc, i32_max, to_i32, to_i32_small,
  increment, to_u64, to_i64, add_i64, to_i64_small, add_i64-eq_add, is_negative, int_eq,
  pos_injective, Outcome, ok, err, panic, ◌>>=◌,
}

-- Whether a bit of a flag word is set.
abbrev pub bit : ℕ → ℕ → Bool
bit k flags = flags / 2 ^ k % 2 == 1

-- MAP_FIXED is bit 4, MAP_ANONYMOUS bit 5. MAP_HUGE_2MB is 21 << 26 and MAP_HUGE_1GB 30 << 26.
abbrev pub map_fixed : ℕ → Bool
map_fixed flags = bit 4 flags

abbrev pub map_anonymous : ℕ → Bool
map_anonymous flags = bit 5 flags

pub map_huge_2mb : ℕ → Bool
map_huge_2mb flags = bit 26 flags || bit 28 flags || bit 30 flags

pub map_huge_1gb : ℕ → Bool
map_huge_1gb flags = bit 27 flags || bit 28 flags || bit 29 flags || bit 30 flags

pub page_size_of : ℕ → ℕ
page_size_of flags =
    if map_huge_2mb flags then 2 * 2 ^ 20 else if map_huge_1gb flags then 2 ^ 30 else page_bytes

-- VMM::Access
pub record Access : Type 0 where
  pub readable : Bool
  pub writable : Bool
  pub executable : Bool
  pub user : Bool

-- Prot2AccessFlags, and the same code in MMap: PROT_READ, PROT_WRITE and PROT_EXEC are bits 0 to 2.
pub prot_to_access : ℕ → Access
prot_to_access prot = record {
  readable = bit 0 prot;
  writable = bit 1 prot;
  executable = bit 2 prot;
  user = true;
}

-- addr & ~GetAddressMask(), where the mask is 0x000ffffffffff000.
pub outside_mask : ℕ → Bool
outside_mask addr = not (addr % 4096 == 0) || not (addr / 2 ^ 52 == 0)

-- virt & ~PMM::PAGE_SIZE: any bit but bit 12.
pub beside_page_bit : ℕ → Bool
beside_page_bit virt = not (virt == 0) && not (virt == page_bytes)

-- MAP_FAILED
abbrev pub map_failed : ℤ
map_failed = negsuc 0

abbrev pub update : (ℕ → Option Access) → ℕ → Access → ℕ → Option Access
update modes base mode k = if k == base then some mode else modes k

-- m_RegionTree[virt]: the region with this key; none for the empty reference that a missing key
-- gets.
pub at_key : ℕ → List (ℕ × Region) → Option Region
at_key k [] = none
at_key k (e ∷ es) = let later = at_key k es in if e.0 == k then some e.1 else later

pub same_region : Option Region → Region → Bool
same_region none r = false
same_region (some q) r = virtual_base q == virtual_base r

module _ (T : TreeOps Region) where
  open T use {Tree, entries}

  -- A process's AddressSpace and the access modes of its regions.
  pub record Space : Type 0 where
    pub total : AddressRange
    pub tree : Tree
    pub modes : ℕ → Option Access

  -- The end of MMap, for the region that was allocated or none. Regions are the same object when
  -- they have the same base.
  pub settle : Space → Access → Option Region × Tree → Outcome ℤ × Space
  settle s access (none, t) = (err enomem, record s { tree = t })
  settle s access (some r, t) =
      let s' : Space = record s { tree = t; modes = update s.modes (virtual_base r) access } in
      if same_region (find T t (virtual_base r)) r
      then (ok (to_i64 (virtual_base r)), s')
      else (panic, s')

  module _ (M : MathOps) where
    open M use {align_up}

    -- MMap. Without MAP_ANONYMOUS it fails at once, so that the descriptor plays no part.
    pub mmap : Space → ℕ → ℕ → ℕ → ℕ → ℤ → Outcome ℤ × Space
    mmap s addr length prot flags offset =
        let rounded = align_up length page_bytes in
        let r =
          if map_fixed flags
          then allocate_fixed T M s.tree addr rounded
          else allocate_region T M s.total s.tree rounded (page_size_of flags) in
        if outside_mask addr
        then (ok map_failed, s)
        else if not (map_anonymous flags)
        then (ok map_failed, s)
        else if length == 0
        then (err einval, s)
        else if not (int_eq offset (pos 0))
        then (err einval, s)
        else settle s (prot_to_access prot) r

    -- The tests of MProtect before it looks for a region: an error, or on with the length. The test
    -- for an end equal to the start is left out: the length is not 0 there.
    pub protect_arguments : ℕ → ℕ → ℕ → Outcome ℕ
    protect_arguments virt length prot =
        let rounded = align_up length page_bytes in
        if beside_page_bit virt
        then err einval
        else if rounded == 0
        then err einval
        else if ltb (add64 virt rounded) virt
        then err einval
        else if not (prot / 8 == 0)
        then err einval
        else ok rounded

    module _ (P : PageOps) where
      -- MProtect; `flags` is what an access mode comes to in the page tables.
      pub protect :
          (Access → P.Flags) → Space → P.Table → Option Region → ℕ → Outcome ℕ × Space × P.Table
      protect flags s t none prot = (err efault, s, t)
      protect flags s t (some r) prot =
          let access = prot_to_access prot in
          (
            ok 0,
            record s { modes = update s.modes (virtual_base r) access },
            (remap_region P t r 0 (flags access)).1,
          )

      pub mprotect : (Access → P.Flags) → Space → P.Table → ℕ → ℕ → ℕ → Outcome ℕ × Space × P.Table
      mprotect flags s t virt length prot = elim (protect_arguments virt length prot) [
        | ok _ ↦ protect flags s t (find T s.tree virt) prot
        | err e ↦ (err e, s, t)
        | panic ↦ (panic, s, t)
      ]

  module _ (B : BitmapOps) where
    -- MUnMap behind its test, which leaves `length` unused; the empty reference is a panic.
    pub release :
        Space → Pmm.Pmm B.Bitmap → ℕ → Option Region → Outcome ℕ × Space × Pmm.Pmm B.Bitmap
    release s p virt none = (panic, s, p)
    release s p virt (some r) = (
      ok 0,
      record s { tree = erase_base T s.tree virt },
      Pmm.free_pages B p r.physical_base (r.virtual_range.size / page_bytes),
    )

    pub munmap : Space → Pmm.Pmm B.Bitmap → ℕ → ℕ → Outcome ℕ × Space × Pmm.Pmm B.Bitmap
    munmap s p virt length = elim (find T s.tree virt) [
      | none ↦ (err einval, s, p)
      | some _ ↦ release s p virt (at_key virt (entries s.tree))
    ]
