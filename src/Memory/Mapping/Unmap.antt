-- ===== src/Memory/Mapping/Unmap.antt =====
-- What munmap gives back.
use cryptix_os.Memory.Bitmap.{BitmapOps}
use cryptix_os.Memory.Tree.{TreeOps, Fresh}
use cryptix_os.Memory.Pmm
use cryptix_os.Memory.Pmm.{page_bytes}
use cryptix_os.Memory.Pmm.Laws.{free_pages_null}
use cryptix_os.Memory.AddressSpace.{Region, find}
use cryptix_os.Memory.AddressSpace.Laws.{Apart, IsEntry, IsSpace, Placed}
use cryptix_os.Memory.AddressSpace.Placed.{placed_region, find-Placed, erase_base-Placed}
use cryptix_os.Memory.Mapping.{Space, at_key, munmap, release}
use cryptix_os.Common.{
  ℕ, ◌+◌, ◌/◌, ◌<◌, ◌≡◌, refl, true, false, Option, none, some, List, [], ◌∷◌, arith, ◌==◌, All,
  Inserted, here, there, u64_mod, ok, panic,
}

module _ (T : TreeOps Region) (B : BitmapOps) where
  open T use {Tree, entries}

  at_key-Inserted :
      (base size : ℕ) (xs ys : List (ℕ × Region))
      → Inserted (base, placed_region base size) xs ys
      → 0 < size
      → All IsEntry xs
      → All (λ f. Apart base size f.1) xs
      → at_key base ys ≡ some (placed_region base size)
  unfolding at_key
  at_key-Inserted base size _ _ (here xs) pos_size v a =
      let same : (base == base) ≡ true = ground arith in rw same refl
  at_key-Inserted base size _ _ (there f i) pos_size (v, vs) (a, as_) =
      let k = v.keyed in
      let n = v.not_empty in
      let other : (f.0 == base) ≡ false = ground arith in
      rw other (at_key-Inserted base size _ _ i pos_size vs as_)

  -- Unmapping a region that was just placed, at its base, succeeds whatever the length passed, and
  -- the other regions are what they were before it was placed. No page frame is freed: the physical
  -- base of the region is 0 until its first page fault, and freeing from address 0 does nothing.
  -- The other regions are well formed and apart, the new one is not empty and ends within the
  -- address space.
  pub munmap-Placed :
      (s : Space T) (p : Pmm.Pmm B.Bitmap) (base size : ℕ) (r : Option Region × Tree) (count : ℕ)
      → IsSpace T s.tree
      → Placed T s.tree base size r
      → 0 < size
      → base + size < u64_mod
      → ((munmap T B (record s { tree = r.1 }) p base count).0 ≡ ok 0)
        × (entries (munmap T B (record s { tree = r.1 }) p base count).1.tree ≡ entries s.tree)
        × (munmap T B (record s { tree = r.1 }) p base count).2 ≡ p
  unfolding munmap release
  munmap-Placed s p base size r count space placed pos_size fits =
      let found = find-Placed T s.tree base size r space placed pos_size fits in
      let key =
        at_key-Inserted base size (entries s.tree) (entries r.1) placed.added pos_size space.entry
          placed.apart in
      rw (munmap, found, key)
        (
          refl,
          erase_base-Placed T s.tree base size r placed,
          free_pages_null B p (size / page_bytes),
        )

  at_key-Fresh : (virt : ℕ) (es : List (ℕ × Region)) → Fresh virt es → at_key virt es ≡ none
  unfolding at_key
  at_key-Fresh virt [] f = refl
  at_key-Fresh virt (e ∷ es) (n, f) =
      let other : (e.0 == virt) ≡ false = ground arith in rw other (at_key-Fresh virt es f)

  -- For an address that is in a region but is the base of none, MUnMap goes through an empty
  -- reference.
  munmap_inside :
      (s : Space T) (p : Pmm.Pmm B.Bitmap) (virt count : ℕ) (r : Region)
      → find T s.tree virt ≡ some r
      → Fresh virt (entries s.tree)
      → munmap T B s p virt count ≡ (panic, s, p)
  unfolding munmap release
  munmap_inside s p virt count r f fresh =
      let k = at_key-Fresh virt (entries s.tree) fresh in rw (munmap, f, k) refl
