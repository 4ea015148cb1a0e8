-- ===== src/Memory/Frames/Laws.antt =====
-- What AllocatePages and FreePages of Kernel/Memory/Allocator/BitmapAllocator.cpp promise together.
use native.Mathlib.Nat.{mul-div_cancel, mul-pos, le_trans}
use mathlib.Core.Bool.{true≢false}
use cryptix_os.Memory.Bitmap.{BitmapOps}
use cryptix_os.Memory.Frames.{BitmapAllocator, set_range, allocate_pages, free_pages}
use cryptix_os.Memory.Frames.Scan.{FreeRun, get_index-set_range, capacity-set_range}
use cryptix_os.Memory.Frames.Allocate.{
  top_page, IsAllocator, Granted, top_in_space, allocate_pages_cases, allocate_pages-zero,
}
use cryptix_os.Common.{
  Bool-cases, ℕ, zero, suc, ◌+◌, ◌-◌, ◌*◌, ◌/◌, ◌≤◌, ◌<◌, ◌≡◌, refl, sym, ap, ◌∙◌, ◌≢◌, ◌⊎◌, inl,
  inr, Bool, true, false, ◌&&◌, arith, ltb, leb, ◌==◌, if◌then◌else◌, u64_mod, add64, sub64, mul64,
  add64-eq_add, sub64-add64, apart_of_disjoint, apart_scaled,
}

module _ (B : BitmapOps) where
  open B use {Bitmap, capacity, get_index}

  -- The bit of page `j` once the pages [page, page + count) are in state `v`.
  abbrev pub overwritten : Bitmap → ℕ → ℕ → Bool → ℕ → Bool
  overwritten b page count v j = if leb page j && ltb j (page + count) then v else get_index b j

  Granted-IsAllocator :
      (a : BitmapAllocator Bitmap) (count : ℕ) (r : ℕ × BitmapAllocator Bitmap)
      → IsAllocator B a
      → Granted B a count r
      → IsAllocator B r.1
  Granted-IsAllocator a count r v g = rw g.state (record {
    paged = v.paged;
    in_space = v.in_space;
    last_in = g.within;
    mapped = rw (capacity-set_range B count a.page_bitmap g.page true) (v.mapped);
    null_used =
        get_index-set_range B count a.page_bitmap g.page true 0 (le_trans g.within v.mapped)
        ∙ (let h = g.not_null in let u = v.null_used in ground arith);
  })

  -- AllocatePages keeps the allocator well formed, granted or refused.
  pub allocate_pages-IsAllocator :
      (a : BitmapAllocator Bitmap) (count : ℕ)
      → IsAllocator B a
      → IsAllocator B (allocate_pages B a count).1
  allocate_pages-IsAllocator a zero v = rw (allocate_pages-zero B a) v
  allocate_pages-IsAllocator a (suc n) v = elim (allocate_pages_cases B a (suc n) v (omega arith)) [
    | inl g ↦ Granted-IsAllocator a (suc n) _ v g
    | inr r ↦ let e = r.result in rw e v
  ]

  -- An address other than null comes from a grant.
  allocate_pages-Granted :
      (a : BitmapAllocator Bitmap) (count : ℕ)
      → IsAllocator B a
      → (allocate_pages B a count).0 ≢ 0
      → (0 < count) × Granted B a count (allocate_pages B a count)
  allocate_pages-Granted a zero v h =
      absurd (h (ap (λ (t : ℕ × BitmapAllocator Bitmap). t.0) (allocate_pages-zero B a)))
  allocate_pages-Granted a (suc n) v h = elim (allocate_pages_cases B a (suc n) v (omega arith)) [
    | inl g ↦ (omega arith, g)
    | inr r ↦ absurd (h (ap (λ (t : ℕ × BitmapAllocator Bitmap). t.0) r.result))
  ]

  Granted-disjoint :
      (a a' : BitmapAllocator Bitmap) (m n : ℕ) (r r' : ℕ × BitmapAllocator Bitmap)
      → IsAllocator B a
      → r.1 ≡ a'
      → (g : Granted B a m r) (h : Granted B a' n r') → (j : ℕ) → g.page ≤ j
      → j < g.page + m
      → h.page ≤ j
      → j < h.page + n
      → ⊥
  Granted-disjoint a a' m n r r' v e g h j p q l u = true≢false (sym marked ∙ free)
    where
      marked : get_index a'.page_bitmap j ≡ true
      marked =
          rw (← e, g.state)
            (get_index-set_range B m a.page_bitmap g.page true j (le_trans g.within v.mapped)
              ∙ ground arith)

      free : get_index a'.page_bitmap j ≡ false
      free =
          let k : h.page + (j - h.page) ≡ j = omega arith in
          rw k at (h.free (j - h.page) (omega arith))

  -- Two allocations in a row from a well-formed allocator that both succeed hand out memory that
  -- does not overlap.
  pub allocate_pages_disjoint :
      (a : BitmapAllocator Bitmap) (m n : ℕ)
      → IsAllocator B a
      → (allocate_pages B a m).0 ≢ 0
      → (allocate_pages B (allocate_pages B a m).1 n).0 ≢ 0
      → let p = (allocate_pages B a m).0 in
        let q = (allocate_pages B (allocate_pages B a m).1 n).0 in
        (p + m * a.page_size ≤ q) ⊎ (q + n * a.page_size ≤ p)
  allocate_pages_disjoint a m n v x y =
      let (m_pos, g) = allocate_pages-Granted a m v x in
      let (n_pos, h) = allocate_pages-Granted _ n (allocate_pages-IsAllocator a m v) y in
      let sized : (allocate_pages B a m).1.page_size ≡ a.page_size =
        ap (λ (t : BitmapAllocator Bitmap). t.page_size) g.state in
      rw (g.address, h.address, sized)
        (apart_scaled g.page m h.page n a.page_size (
          apart_of_disjoint g.page m h.page n m_pos n_pos
            (Granted-disjoint a _ m n _ _ v refl g h)))

  -- In a well-formed allocator, FreePages of one or more pages, above page 0 and below the top,
  -- clears exactly their bits and takes their size off the memory in use; the last index stays.
  free_pages_clears :
      (a : BitmapAllocator Bitmap) (page count : ℕ)
      → IsAllocator B a
      → 0 < page
      → 0 < count
      → page + count ≤ top_page B a
      → ((j : ℕ)
          → get_index (free_pages B a (page * a.page_size) count).page_bitmap j
            ≡ overwritten a.page_bitmap page count false j)
        × ((free_pages B a (page * a.page_size) count).used_memory
            ≡ sub64 a.used_memory (mul64 count a.page_size))
        × ((free_pages B a (page * a.page_size) count).last_index ≡ a.last_index)
  unfolding free_pages
  free_pages_clears a page count v p c w =
      rw (n, z, i, l)
        (
          λ j. get_index-set_range B count a.page_bitmap page false j (le_trans w v.mapped),
          refl,
          refl,
        )
    where
      n : (count == 0) ≡ false
      n = ground arith

      z : (page * a.page_size == 0) ≡ false
      z = let h = mul-pos p v.paged in ground arith

      i : page * a.page_size / a.page_size ≡ page
      i = mul-div_cancel page v.paged

      l : add64 page count - page ≡ count
      l =
          let w' = top_in_space B a count v c in
          rw (add64-eq_add page count (omega arith)) (omega arith)

  overwritten_marked :
      (b : Bitmap) (page count : ℕ)
      → FreeRun B b page count
      → page + count ≤ capacity b
      → (j : ℕ) → overwritten (set_range B count b page true) page count false j ≡ get_index b j
  overwritten_marked b page count f h j =
      let k : page ≤ j → page + (j - page) ≡ j = omega arith in
      ground (arith, get_index-set_range B count b page true j h, f (j - page), k)

  -- Freeing what was just allocated from a well-formed allocator gives every page its state back,
  -- and the memory in use its amount.
  pub free_pages-allocate_pages :
      (a : BitmapAllocator Bitmap) (count : ℕ)
      → IsAllocator B a
      → a.used_memory < u64_mod
      → (allocate_pages B a count).0 ≢ 0
      → let (p, a') = allocate_pages B a count in
        ((j : ℕ) → get_index (free_pages B a' p count).page_bitmap j ≡ get_index a.page_bitmap j)
        × ((free_pages B a' p count).used_memory ≡ a.used_memory)
  free_pages-allocate_pages a count v u x =
      let (c, g) = allocate_pages-Granted a count v x in
      let v' = allocate_pages-IsAllocator a count v in
      let (bits, used, _) =
        free_pages_clears _ g.page count (rw g.state at v') g.not_null c g.within in
      rw (g.address, g.state)
        (
          (λ j.
              bits j
              ∙ overwritten_marked a.page_bitmap g.page count g.free (le_trans g.within v.mapped)
                  j),
          used ∙ sub64-add64 a.used_memory (mul64 count a.page_size) u,
        )

  -- In a well-formed allocator an allocation fails for want of a run of free pages on one side of
  -- the last index, though a run that lies across it may be free: it fails whenever all free runs
  -- of the size lie across it.
  allocate_pages_straddled :
      (a : BitmapAllocator Bitmap) (count : ℕ)
      → IsAllocator B a
      → ((q : ℕ)
          → q + count ≤ top_page B a
          → FreeRun B a.page_bitmap q count
          → (q < a.last_index) × (a.last_index < q + count))
      → (allocate_pages B a count).0 ≡ 0
  allocate_pages_straddled a zero v h = rw (allocate_pages-zero B a)
  allocate_pages_straddled a (suc n) v h = elim (allocate_pages_cases B a (suc n) v (omega arith)) [
    | inl g ↦
        let (low, high) = h g.page g.within g.free in
        absurd (elim g.side [ inl l ↦ omega arith | inr r ↦ omega arith ])
    | inr r ↦ ap (λ (t : ℕ × BitmapAllocator Bitmap). t.0) r.result
  ]

  -- Freeing the null page does nothing.
  pub free_pages_null : (a : BitmapAllocator Bitmap) (count : ℕ) → free_pages B a 0 count ≡ a
  unfolding free_pages
  free_pages_null a count = elim (Bool-cases (count == 0)) [
    | inl none_ ↦ rw none_ refl
    | inr some_ ↦ rw some_ refl
  ]
