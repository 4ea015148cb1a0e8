-- ===== src/Memory/Frames/Scan.antt =====
-- FindFreeRegions and the loops that mark pages, in Kernel/Memory/Allocator/BitmapAllocator.cpp.
use cryptix_os.Memory.Bitmap.{BitmapOps}
use cryptix_os.Memory.Frames.{Search, set_range, scan}
use cryptix_os.Common.{
  ℕ, zero, suc, ◌+◌, ◌-◌, ◌≤◌, ◌<◌, ◌≡◌, refl, ◌∙◌, ◌⊎◌, inl, inr, Bool, true, false, ◌&&◌, arith,
  dec_lt, ltb, leb, ◌==◌, if◌then◌else◌, Bool-cases, u64_mod, sub64, mul64, sub64-eq_sub,
}

module _ (B : BitmapOps) where
  open B use {Bitmap, capacity, get_index, set_index, get_index-set_index, capacity-set_index}

  pub capacity-set_range :
      (n : ℕ) (b : Bitmap) (page : ℕ) (v : Bool) → capacity (set_range B n b page v) ≡ capacity b
  unfolding set_range
  capacity-set_range zero b page v = refl
  capacity-set_range (suc n) b page v =
      capacity-set_range n (set_index b page v) (page + 1) v ∙ capacity-set_index b page v

  -- Marking a range that lies within the bitmap sets its bits and no other.
  pub get_index-set_range :
      (n : ℕ) (b : Bitmap) (page : ℕ) (v : Bool) (j : ℕ)
      → page + n ≤ capacity b
      → get_index (set_range B n b page v) j
        ≡ (if leb page j && ltb j (page + n) then v else get_index b j)
  unfolding set_range
  get_index-set_range zero b page v j h = ground arith
  get_index-set_range (suc n) b page v j h = ground (
    arith,
    get_index-set_range n (set_index b page v) (page + 1) v j,
    capacity-set_index b page v,
    get_index-set_index b page v j,
  )

  -- All of the `count` pages from `page` on are free.
  abbrev pub FreeRun : Bitmap → ℕ → ℕ → Type 0
  FreeRun b page count = (i : ℕ) → i < count → get_index b (page + i) ≡ false

  -- One of the `count` pages from `page` on is in use.
  abbrev pub Busy : Bitmap → ℕ → ℕ → Type 0
  Busy b page count = (i : ℕ) × (i < count) × (get_index b (page + i) ≡ true)

  -- `count` free pages from `page` on were found below `hi`, the first such from `lo` on; they are
  -- now marked, and the search stopped behind them.
  pub record Found (page_size count : ℕ) (b : Bitmap) (lo hi : ℕ) (s : Search Bitmap) : Type 0 where
    pub page : ℕ
    pub from : lo ≤ page
    pub within : page + count ≤ hi
    pub free : FreeRun b page count
    pub first : (q : ℕ) → lo ≤ q → q < page → Busy b q count
    pub result : s ≡ record {
      pages = mul64 page page_size;
      start = page + count;
      bitmap = set_range B count b page true;
    }

  -- No `count` free pages lie between `lo` and `hi`, and the bitmap is as it was.
  pub record Missed (count : ℕ) (b : Bitmap) (lo hi : ℕ) (s : Search Bitmap) : Type 0 where
    pub none_free : (q : ℕ) → lo ≤ q → q + count ≤ hi → Busy b q count
    pub result : s ≡ record { pages = 0; start = hi; bitmap = b }

  abbrev pub Scanned : (page_size count : ℕ) (b : Bitmap) (lo hi : ℕ) (s : Search Bitmap) → Type 0
  Scanned ps count b lo hi s = Found ps count b lo hi s ⊎ Missed count b lo hi s

  -- A run that has reached the page looked at now takes it in.
  FreeRun-suc :
      (b : Bitmap) (lo run start : ℕ)
      → lo + run ≡ start
      → get_index b start ≡ false
      → FreeRun b lo run
      → FreeRun b lo (run + 1)
  FreeRun-suc b lo run start e g f i h = elim (dec_lt i run) [
    | yes l ↦ f i l
    | no n ↦ let e' : lo + i ≡ start = omega arith in rw e' g
  ]

  -- A page in use splits the search: no run from below it reaches over it.
  Scanned-below :
      (ps count : ℕ) (b : Bitmap) (lo start hi : ℕ) (s : Search Bitmap)
      → lo ≤ start
      → start < lo + count
      → get_index b start ≡ true
      → Scanned ps count b (start + 1) hi s
      → Scanned ps count b lo hi s
  Scanned-below ps count b lo start hi s l r g t = elim t [
    | inl f ↦ inl (record {
      page = f.page;
      from = let h = f.from in omega arith;
      within = f.within;
      free = f.free;
      first = λ q a c. over q a (λ h. f.first q h c);
      result = f.result;
    })
    | inr m ↦
        inr (record { none_free = λ q a c. over q a (λ h. m.none_free q h c); result = m.result })
  ]
    where
      over : (q : ℕ) → lo ≤ q → (start + 1 ≤ q → Busy b q count) → Busy b q count
      over q a above = elim (dec_lt start q) [
        | yes h ↦ above (omega arith)
        | no h ↦ (start - q, omega arith, let e : q + (start - q) ≡ start = omega arith in rw e g)
      ]

  scan_found :
      (ps count n : ℕ) (b : Bitmap) (lo start run : ℕ)
      → run + 1 ≡ count
      → lo + run ≡ start
      → start + 1 < u64_mod
      → get_index b start ≡ false
      → scan B ps count (suc n) b start run
        ≡ record { pages = mul64 lo ps; start = lo + count; bitmap = set_range B count b lo true }
  unfolding scan
  scan_found ps count n b lo start run e l w g =
      let p : sub64 (start + 1) count ≡ lo =
        sub64-eq_sub (start + 1) count (omega arith) w ∙ omega arith in
      let t : (run + 1 == count) ≡ true = ground arith in
      let d : start + 1 - lo ≡ count = omega arith in
      let k : start + 1 ≡ lo + count = omega arith in rw (g, t, p, d, k)

  pub scan-Scanned :
      (ps count : ℕ) (n : ℕ) (b : Bitmap) (lo start run hi : ℕ)
      → run < count
      → lo + run ≡ start
      → start + n ≡ hi
      → hi < u64_mod
      → FreeRun b lo run
      → Scanned ps count b lo hi (scan B ps count n b start run)
  unfolding scan
  scan-Scanned ps count zero b lo start run hi r l e w f = inr (record {
    none_free = λ q a c. absurd (omega arith);
    result = let e' : start ≡ hi = omega arith in rw e';
  })
  scan-Scanned ps count (suc n) b lo start run hi r l e w f =
      elim (Bool-cases (get_index b start)) [
        | inl used ↦ rw used (
            Scanned-below ps count b lo start hi _ (omega arith) (omega arith) used (
              scan-Scanned ps count n b (start + 1) (start + 1) 0 hi (omega arith) (omega arith)
                (omega arith) w (λ i h. absurd (omega arith))))
        | inr free ↦ elim (dec_lt (run + 1) count) [
          | yes short ↦
              let t : (run + 1 == count) ≡ false = ground arith in
              rw (free, t)
                (scan-Scanned ps count n b lo (start + 1) (run + 1) hi short (omega arith)
                  (omega arith) w (FreeRun-suc b lo run start l free f))
          | no long ↦ inl (record {
            page = lo;
            from = omega arith;
            within = omega arith;
            free =
                let e' : run + 1 ≡ count = omega arith in
                rw (← e') (FreeRun-suc b lo run start l free f);
            first = λ q a c. absurd (omega arith);
            result = scan_found ps count n b lo start run (omega arith) l (omega arith) free;
          })
        ]
      ]
