-- ===== src/Memory/Mapping/Map.antt =====
-- What mmap does to the regions of a process, and what mprotect accepts.
use mathlib.Core.Path.{subst}
use cryptix_os.Common.Prism.{MathOps}
use cryptix_os.Memory.Tree.{TreeOps}
use cryptix_os.Memory.Pmm.{page_bytes}
use cryptix_os.Memory.AddressSpace.{Region, find, allocate_fixed}
use cryptix_os.Memory.AddressSpace.Laws.{Apart, IsSpace, Placed, allocate_fixed_cases}
use cryptix_os.Memory.AddressSpace.Placed.{placed_region, find-Placed}
use cryptix_os.Memory.PageTables.{PageOps}
use cryptix_os.Memory.Mapping.{
  mprotect, Space, Access, settle, mmap, map_fixed, map_anonymous, outside_mask, same_region,
  update, prot_to_access, beside_page_bit, protect_arguments,
}
use cryptix_os.Common.{
  ℕ, ◌+◌, ◌<◌, ◌≡◌, refl, ap, ◌∙◌, ◌≢◌, ◌⊎◌, inl, inr, true, false, Option, some, arith, ◌==◌,
  length, All, u64_mod, enomem, einval, pos, to_i64, int_eq, ok, err,
}

module _ (T : TreeOps Region) where
  open T use {Tree, entries}

  -- MMap settles on a region that was just placed.
  settle-Placed :
      (s : Space T) (access : Access) (base size : ℕ) (r : Option Region × Tree)
      → IsSpace T s.tree
      → Placed T s.tree base size r
      → 0 < size
      → base + size < u64_mod
      → settle T s access r
        ≡ (ok (to_i64 base), record s { tree = r.1; modes = update s.modes base access })
  unfolding settle same_region
  settle-Placed s access base size r space p pos_size fits =
      let e : r ≡ (some (placed_region base size), r.1) = ap (λ x. (x, r.1)) p.region in
      let found = find-Placed T s.tree base size r space p pos_size fits in
      let same : (base == base) ≡ true = ground arith in
      ap (λ x. settle T s access x) e ∙ simp (found, same)

  module _ (M : MathOps) where
    open M use {align_up, le-align_up}

    -- A fixed anonymous mmap, when the address lies within the mask, the length is not 0, the
    -- offset is 0, the regions of the process are well formed and apart and the range ends within
    -- the address space: either it returns the address, the region there is a new one that has no
    -- byte in common with any of the old ones, which all stay, and is what a search for the address
    -- finds, or one of the old ones is in the way, and it fails with ENOMEM and changes nothing.
    pub mmap_fixed_cases :
        (s : Space T) (addr length prot flags : ℕ)
        → IsSpace T s.tree
        → outside_mask addr ≡ false
        → map_anonymous flags ≡ true
        → map_fixed flags ≡ true
        → 0 < length
        → addr + align_up (align_up length page_bytes) page_bytes < u64_mod
        → ((t : Tree) × (mmap T M s addr length prot flags (pos 0) ≡ (
          ok (to_i64 addr),
          record s { tree = t; modes = update s.modes addr (prot_to_access prot) },
        ))
            × Placed T s.tree addr
                (align_up (align_up length page_bytes) page_bytes)
                (some (placed_region addr (align_up (align_up length page_bytes) page_bytes)), t)
            × find T t addr
              ≡ some (placed_region addr (align_up (align_up length page_bytes) page_bytes)))
          ⊎ ((mmap T M s addr length prot flags (pos 0) ≡ (err enomem, s))
              × ¬ All
                  (λ f. Apart addr (align_up (align_up length page_bytes) page_bytes) f.1)
                  (entries s.tree))
    unfolding mmap int_eq settle
    mmap_fixed_cases s addr length prot flags space inside anonymous fixed some_length fits =
        let rounded = align_up length page_bytes in
        let size = align_up rounded page_bytes in
        let h = le-align_up length page_bytes (omega arith) in
        let size_pos : 0 < size =
          let k = le-align_up rounded page_bytes (omega arith) in omega arith in
        let not_zero : (length == 0) ≡ false = ground arith in
        let r = allocate_fixed T M s.tree addr rounded in
        elim (allocate_fixed_cases T M s.tree addr rounded space size_pos fits) [
          | inl p ↦ inl (
            r.1,
            simp (inside, anonymous, fixed, not_zero)
                (settle-Placed s (prot_to_access prot) addr size r space p size_pos fits),
            subst (λ x. Placed T s.tree addr size x) (ap (λ x. (x, r.1)) p.region) p,
            find-Placed T s.tree addr size r space p size_pos fits,
          )
          | inr (e, apart) ↦ inr (simp (inside, anonymous, fixed, not_zero, e), apart)
        ]

  refused_arguments :
      (M : MathOps) (virt size prot : ℕ)
      → virt ≢ 0
      → virt ≢ page_bytes
      → protect_arguments T M virt size prot ≡ err einval
  unfolding protect_arguments beside_page_bit
  refused_arguments M virt size prot a b =
      let z : (virt == 0) ≡ false = ground arith in
      let o : (virt == page_bytes) ≡ false = ground arith in simp (z, o)

  -- MProtect refuses every address but 0 and 4096 with EINVAL, whole pages or not, and changes
  -- nothing.
  mprotect_refuses :
      (M : MathOps) (P : PageOps) (flags : Access → P.Flags) (s : Space T) (t : P.Table)
      (virt size prot : ℕ)
      → virt ≢ 0
      → virt ≢ page_bytes
      → mprotect T M P flags s t virt size prot ≡ (err einval, s, t)
  unfolding mprotect
  mprotect_refuses M P flags s t virt size prot a b =
      rw (mprotect, refused_arguments M virt size prot a b) refl
