-- ===== src/Memory/Frames/Allocate.antt =====
-- AllocatePages and FreePages of Kernel/Memory/Allocator/BitmapAllocator.cpp, on every branch.
use cryptix_os.Memory.Bitmap.{BitmapOps}
use cryptix_os.Memory.Frames.{
  BitmapAllocator, Search, set_range, find_free_regions, account, allocate_pages,
}
use cryptix_os.Memory.Frames.Scan.{FreeRun, Busy, Found, Scanned, scan-Scanned}
use native.Mathlib.Nat.{div-le_self, le-div_iff_mul-le, mul-pos}
use mathlib.Core.Bool.{true≢false}
use cryptix_os.Common.{
  ℕ, zero, suc, ◌+◌, ◌-◌, ◌*◌, ◌/◌, ◌≤◌, ◌<◌, ◌≡◌, refl, sym, ap, ◌∙◌, ◌⊎◌, inl, inr, true, false,
  arith, ◌==◌, u64_mod, add64, mul64, mul64-eq_mul,
}

module _ (B : BitmapOps) where
  open B use {Bitmap, capacity, get_index, set_index, get_index-set_index, capacity-set_index}

  abbrev pub top_page : BitmapAllocator Bitmap → ℕ
  top_page a = a.usable_memory_top / a.page_size

  -- What Initialize sets up and the operations keep.
  pub record IsAllocator (a : BitmapAllocator Bitmap) : Type 0 where
    pub paged : 0 < a.page_size
    pub in_space : a.usable_memory_top < u64_mod
    pub last_in : a.last_index ≤ top_page a
    pub mapped : top_page a ≤ capacity a.page_bitmap
    pub null_used : get_index a.page_bitmap 0 ≡ true

  find_free_regions-Scanned :
      (a : BitmapAllocator Bitmap) (start count limit : ℕ)
      → 0 < count
      → start ≤ limit
      → limit < u64_mod
      → Scanned B a.page_size count a.page_bitmap start limit
          (find_free_regions B a start count limit)
  unfolding find_free_regions
  find_free_regions-Scanned a start count limit c l w =
      scan-Scanned B a.page_size count (limit - start) a.page_bitmap start start 0 limit c
        (omega arith) (omega arith) w (λ i h. absurd (omega arith))

  -- The pages from `page` on are handed out: they were free, they are marked and accounted for,
  -- and the next search starts behind them.
  pub record Granted (a : BitmapAllocator Bitmap) (count : ℕ) (r : ℕ × BitmapAllocator Bitmap)
      : Type 0 where
    pub page : ℕ
    pub not_null : 0 < page
    pub within : page + count ≤ top_page a
    pub side : (a.last_index ≤ page) ⊎ (page + count ≤ a.last_index)
    pub free : FreeRun B a.page_bitmap page count
    pub address : r.0 ≡ page * a.page_size
    pub state : r.1 ≡ record a {
      page_bitmap = set_range B count a.page_bitmap page true;
      used_memory = add64 a.used_memory (mul64 count a.page_size);
      last_index = page + count;
    }

  -- Null is returned, nothing is marked, and neither side of the last index has enough free pages
  -- in a row.
  pub record Refused (a : BitmapAllocator Bitmap) (count : ℕ) (r : ℕ × BitmapAllocator Bitmap)
      : Type 0 where
    pub none_above :
        (q : ℕ) → a.last_index ≤ q → q + count ≤ top_page a → Busy B a.page_bitmap q count
    pub none_below : (q : ℕ) → q + count ≤ a.last_index → Busy B a.page_bitmap q count
    pub result : r ≡ (0, a)

  pub allocate_pages-zero : (a : BitmapAllocator Bitmap) → allocate_pages B a 0 ≡ (0, a)
  unfolding allocate_pages
  allocate_pages-zero a = refl

  module _ (a : BitmapAllocator Bitmap) (count : ℕ) (v : IsAllocator a) (c : 0 < count) where
    open v use {paged, in_space, last_in, mapped, null_used}

    pub top_in_space : top_page a < u64_mod
    top_in_space = omega (arith, div-le_self a.usable_memory_top a.page_size)

    page_pos : (page : ℕ) → FreeRun B a.page_bitmap page count → 0 < page
    page_pos zero f = absurd (true≢false (sym null_used ∙ f 0 c))
    page_pos (suc page) f = omega arith

    address_exact :
        (page : ℕ) → page + count ≤ top_page a → mul64 page a.page_size ≡ page * a.page_size
    address_exact page h =
        let fits : page * a.page_size ≤ a.usable_memory_top =
          (le-div_iff_mul-le paged).0 (omega arith) in
        mul64-eq_mul page a.page_size (omega arith)

    -- What AllocatePages makes of a search that found pages.
    grant :
        (lo hi : ℕ) (s : Search Bitmap)
        → hi ≤ top_page a
        → (a.last_index ≤ lo) ⊎ (hi ≤ a.last_index)
        → (f : Found B a.page_size count a.page_bitmap lo hi s)
        → (s.pages ≡ f.page * a.page_size)
          × (0 < s.pages)
          × Granted a count
              (account B (record a { page_bitmap = s.bitmap; last_index = s.start }) s.pages count)
    unfolding account
    grant lo hi s le side f = (
      at,
      rw at pos,
      record {
        page = f.page;
        not_null = page_pos f.page f.free;
        within = let w = f.within in omega arith;
        side = let w = f.within in let h = f.from in ground arith;
        free = f.free;
        address = at;
        state = rw f.result;
      },
    )
      where
        at : s.pages ≡ f.page * a.page_size
        at =
            ap (λ (t : Search Bitmap). t.pages) f.result
            ∙ address_exact f.page (let w = f.within in omega arith)

        pos : 0 < f.page * a.page_size
        pos = mul-pos (page_pos f.page f.free) paged

    second_search :
        Scanned B a.page_size count a.page_bitmap 0 a.last_index
          (find_free_regions B a 0 count a.last_index)
        → ((q : ℕ) → a.last_index ≤ q → q + count ≤ top_page a → Busy B a.page_bitmap q count)
        → find_free_regions B a a.last_index count (top_page a)
          ≡ record { pages = 0; start = top_page a; bitmap = a.page_bitmap }
        → Granted a count (allocate_pages B a count) ⊎ Refused a count (allocate_pages B a count)
    unfolding allocate_pages
    second_search (inl f) above e =
        let (at, pos, g) = grant 0 a.last_index _ last_in (inr (omega arith)) f in
        let n : (count == 0) ≡ false = ground arith in
        let z : (◌==◌ (find_free_regions B a 0 count a.last_index).pages 0) ≡ false =
          ground arith in
        inl (rw (n, e, z) g)
    second_search (inr m) above e =
        let n : (count == 0) ≡ false = ground arith in
        inr (record {
          none_above = above;
          none_below = λ q h. m.none_free q (omega arith) h;
          result = rw (n, e, m.result);
        })

    -- With the allocator well formed and at least one page asked for, AllocatePages grants pages
    -- that were free and lie on one side of the last index, or it refuses.
    pub allocate_pages_cases :
        Granted a count (allocate_pages B a count) ⊎ Refused a count (allocate_pages B a count)
    unfolding allocate_pages
    allocate_pages_cases =
        elim (find_free_regions-Scanned a a.last_index count (top_page a) c last_in top_in_space) [
          | inl f ↦
              let (at, pos, g) =
                grant a.last_index (top_page a) _ (omega arith) (inl (omega arith)) f in
              let n : (count == 0) ≡ false = ground arith in
              let z : (◌==◌ (find_free_regions B a a.last_index count (top_page a)).pages 0)
                  ≡ false =
                ground arith in
              inl (rw (n, z) g)
          | inr m ↦
              second_search
                (find_free_regions-Scanned a 0 count a.last_index c (omega arith)
                  (omega (arith, top_in_space)))
                m.none_free m.result
        ]
