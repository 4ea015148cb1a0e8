-- ===== src/Memory/AddressSpace/Placed.antt =====
-- A new region among the regions of an address space, and the search for it.
use cryptix_os.Memory.Tree.{TreeOps}
use cryptix_os.Memory.AddressSpace.{Region, virtual_base, region_end, find, erase_base, find_region}
use cryptix_os.Memory.AddressSpace.Laws.{Apart, IsEntry, IsSpace, Placed}
use cryptix_os.Common.{
  ℕ, ◌+◌, ◌<◌, ◌≡◌, refl, true, false, ◌&&◌, Option, some, List, arith, ltb, leb, All, Inserted,
  here, there, u64_mod, add64, add64-eq_add,
}

abbrev pub placed_region : ℕ → ℕ → Region
placed_region base size = record {
  virtual_range = record { base = base; size = size };
  physical_base = 0;
}

module _ (T : TreeOps Region) where
  open T use {Tree, entries, erase-Inserted}

  -- A region put among regions that are apart from it is the one found at its base.
  find_region-Inserted :
      (base size : ℕ) (xs ys : List (ℕ × Region))
      → Inserted (base, placed_region base size) xs ys
      → 0 < size
      → base + size < u64_mod
      → All IsEntry xs
      → All (λ f. Apart base size f.1) xs
      → find_region T base ys ≡ some (placed_region base size)
  unfolding find_region region_end
  find_region-Inserted base size _ _ (here xs) pos_size fits v a =
      let e : add64 base size ≡ base + size = add64-eq_add base size fits in
      let hit : leb base base && ltb base (base + size) ≡ true = ground arith in rw (e, hit) refl
  find_region-Inserted base size _ _ (there f i) pos_size fits (v, vs) (a, as_) =
      let e : add64 (virtual_base f.1) f.1.virtual_range.size
          ≡ virtual_base f.1 + f.1.virtual_range.size =
        add64-eq_add _ _ v.in_space in
      let n = v.not_empty in
      let miss : leb (virtual_base f.1) base && ltb base (virtual_base f.1 + f.1.virtual_range.size)
          ≡ false =
        ground arith in
      rw (e, miss) (find_region-Inserted base size _ _ i pos_size fits vs as_)

  -- The same for what AllocateRegion and AllocateFixed leave.
  pub find-Placed :
      (t : Tree) (base size : ℕ) (r : Option Region × Tree)
      → IsSpace T t
      → Placed T t base size r
      → 0 < size
      → base + size < u64_mod
      → find T r.1 base ≡ some (placed_region base size)
  unfolding find
  find-Placed t base size r s p pos_size fits =
      find_region-Inserted base size (entries t) (entries r.1) p.added pos_size fits s.entry p.apart

  pub erase_base-Placed :
      (t : Tree) (base size : ℕ) (r : Option Region × Tree)
      → Placed T t base size r
      → entries (erase_base T r.1 base) ≡ entries t
  unfolding erase_base
  erase_base-Placed t base size r p =
      erase-Inserted r.1 base (placed_region base size) (entries t) p.added
