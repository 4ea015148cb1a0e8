-- ===== src/Memory/AddressSpace.antt =====
-- Kernel/Memory/AddressSpace.{hpp,cpp}, with AddressRange.hpp and Region.hpp: the virtual memory
-- regions of a process, in a red-black tree by their base address. The tree is Prism's. The lock
-- makes an operation one step.
pub mod Laws
pub mod Find
pub mod Placed
pub mod Range
mod Tests
use cryptix_os.Common.Prism.{MathOps}
use cryptix_os.Memory.Tree.{TreeOps}
use cryptix_os.Memory.Pmm.{page_bytes}
use cryptix_os.Common.{
  ℕ, zero, suc, ◌+◌, ◌-◌, ◌*◌, ◌/◌, ◌%◌, ◌^◌, ◌≤◌, ◌<◌, min, ◌≡◌, refl, sym, ap, ◌∙◌, ◌≢◌, ◌↔◌, ◌⊎◌,
  inl, inr, Bool, true, false, not, ◌&&◌, ◌||◌, Option, none, some, List, [], ◌∷◌, ◌++◌, map, arith,
  dec_lt, ℕ_discrete, ltb, leb, ◌==◌, if◌then◌else◌, ltb→lt, lt→ltb, le→not-ltb, not-ltb→le, leb→le,
  ==_iff, tests, Bool-cases, Option-cases, length, get_elem?, set, length-append, All, u64_mod,
  add64, sub64, mul64, add64-eq_add, sub64-eq_sub, mul64-eq_mul, sub64-add64, add64-lt, add64_add,
  add64_add_right, apart_of_disjoint, apart_scaled, Errno, eperm, enoent, esrch, ebadf, eagain,
  enomem, efault, eexist, enotdir, einval, epipe, enosys, Outcome, ok, err, panic, ◌>>=◌,
}

-- AddressRange
pub record AddressRange : Type 0 where
  pub base : ℕ
  pub size : ℕ

unfoldable pub range_end : AddressRange → ℕ
range_end r = add64 r.base r.size

-- Contains(address)
unfoldable pub contains : AddressRange → ℕ → Bool
unfolding range_end
contains r address = leb r.base address && ltb address (range_end r)

-- Contains(base, length)
pub contains_range : AddressRange → ℕ → ℕ → Bool
unfolding range_end
contains_range r base size = leb (add64 base size) r.base || leb (range_end r) base

pub intersects : AddressRange → AddressRange → Bool
unfolding range_end
intersects a b =
    let (lo, hi) = if ltb b.base a.base then (b, a) else (a, b) in
    ltb lo.base (range_end hi) && ltb hi.base (range_end lo)

-- Region: its virtual range and its physical base. Access mode and file descriptor play no part
-- here.
pub record Region : Type 0 where
  pub virtual_range : AddressRange
  pub physical_base : ℕ

abbrev pub virtual_base : Region → ℕ
virtual_base r = r.virtual_range.base

pub region_end : Region → ℕ
region_end r = add64 r.virtual_range.base r.virtual_range.size

module _ (T : TreeOps Region) where
  open T use {Tree, entries, insert, erase}

  -- IsAvailable: the loop over the regions, with `end` computed once before it.
  pub is_free : ℕ → ℕ → List (ℕ × Region) → Bool
  is_free base end [] = true
  is_free base end ((k, r) ∷ es) =
      let rest = is_free base end es in
      if leb end (virtual_base r) || leb (region_end r) base then rest else false

  pub is_available : Tree → ℕ → ℕ → Bool
  unfolding is_free
  is_available t base size = is_free base (add64 base size) (entries t)

  -- Find
  pub find_region : ℕ → List (ℕ × Region) → Option Region
  find_region address [] = none
  find_region address ((k, r) ∷ es) =
      let rest = find_region address es in
      if leb (virtual_base r) address && ltb address (region_end r) then some r else rest

  pub find : Tree → ℕ → Option Region
  find t address = find_region address (entries t)

  -- Erase: the region whose key is the address, if there is one.
  pub erase_base : Tree → ℕ → Tree
  erase_base t base = erase t base

  pub new_region : ℕ → ℕ → Region
  new_region base size = record {
    virtual_range = record { base = base; size = size };
    physical_base = 0;
  }

  pub insert_region : Tree → ℕ → ℕ → Option Region × Tree
  unfolding new_region
  insert_region t base size = (some (new_region base size), insert t base (new_region base size))

  module _ (M : MathOps) where
    open M use {align_up}

    -- The loop of AllocateRegion over the regions still to come, and the code behind it: where to
    -- put the new region.
    pub place : Tree → ℕ → ℕ → ℕ → List (ℕ × Region) → Option ℕ
    place t size alignment current [] =
        let here = align_up current alignment in
        if is_available t here size then some here else none
    place t size alignment current ((k, r) ∷ es) =
        let here = align_up current alignment in
        let rest = place t size alignment (region_end r) es in
        if leb (add64 here size) (virtual_base r) && is_available t here size
        then some here
        else rest

    pub allocate_region : AddressRange → Tree → ℕ → ℕ → Option Region × Tree
    allocate_region total t size alignment =
        elim (place t size alignment (align_up total.base alignment) (entries t)) [
          | some base ↦ insert_region t base size
          | none ↦ (none, t)
        ]

    pub allocate_fixed : Tree → ℕ → ℕ → Option Region × Tree
    allocate_fixed t virt size =
        let aligned = align_up size page_bytes in
        if is_available t virt aligned then insert_region t virt aligned else (none, t)
