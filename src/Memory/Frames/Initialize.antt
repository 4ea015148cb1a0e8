-- ===== src/Memory/Frames/Initialize.antt =====
-- Initialize of Kernel/Memory/Allocator/BitmapAllocator.cpp: which pages are free afterwards.
use native.Mathlib.Nat.{mul-le-mul_right, mul-div_cancel, lt_of_mul-lt-mul_right}
use cryptix_os.Common.Prism.{MathOps}
use cryptix_os.Memory.Bitmap.{BitmapOps}
use cryptix_os.Memory.Zone.{MemoryZone, is_usable}
use cryptix_os.Memory.Frames.{
  BitmapAllocator, survey, release_pages, release_zone, release_zones, initialize,
}
use cryptix_os.Common.{
  ℕ, zero, suc, ◌+◌, ◌*◌, ◌/◌, ◌≤◌, ◌<◌, ◌≡◌, refl, ◌∙◌, ◌≢◌, ◌⊎◌, inl, inr, Bool, true, false, not,
  ◌&&◌, ◌||◌, List, [], ◌∷◌, arith, dec_lt, ltb, leb, ◌==◌, if◌then◌else◌, ltb→lt, Bool-cases, All,
  u64_mod, add64, add64-eq_add, ok,
}

-- The zone's first byte that Initialize gives to the allocator.
abbrev pub first_byte : MemoryZone → ℕ
first_byte z = if z.base == 0 then 4096 else z.base

-- Page `i` starts in the part of a usable zone that is given to the allocator.
abbrev pub covers : ℕ → MemoryZone → ℕ → Bool
covers page_size z i =
    is_usable z.kind
    && (leb (first_byte z) (i * page_size) && ltb (i * page_size) (z.base + z.size))

abbrev pub covered : ℕ → List MemoryZone → ℕ → Bool
covered page_size [] i = false
covered page_size (z ∷ zones) i = covers page_size z i || covered page_size zones i

-- The zone is aligned to pages and ends below page `n`, a page short of the address space's end.
pub record Fits (page_size n : ℕ) (z : MemoryZone) : Type 0 where
  pub first : ℕ
  pub aligned : first_byte z ≡ first * page_size
  pub below : z.base + z.size ≤ n * page_size
  pub in_space : z.base + z.size + page_size ≤ u64_mod

module _ (B : BitmapOps) where
  open B use {Bitmap, capacity, get_index, set_index, get_index-set_index, capacity-set_index}

  capacity-release_pages :
      (fuel ps : ℕ) (z : MemoryZone) (page : ℕ) (b : Bitmap)
      → capacity (release_pages B fuel ps z page b) ≡ capacity b
  unfolding release_pages
  capacity-release_pages zero ps z page b = refl
  capacity-release_pages (suc fuel) ps z page b = ground (
    arith,
    capacity-release_pages fuel ps z (add64 page ps) (set_index b (add64 z.base page / ps) false),
    capacity-set_index b (add64 z.base page / ps) false,
  )

  -- Where page `i` starts, compared with where page `k` starts.
  starts : (i k ps : ℕ) → 0 < ps → ((i ≡ k) ⊎ (i * ps + ps ≤ k * ps)) ⊎ (k * ps + ps ≤ i * ps)
  starts i k ps h = elim (dec_lt i k) [
    | yes l ↦ inl (inr (omega (arith, mul-le-mul_right {m = i + 1} {n = k} ps (omega arith))))
    | no g ↦ elim (dec_lt k i) [
      | yes l ↦ inr (omega (arith, mul-le-mul_right {m = k + 1} {n = i} ps (omega arith)))
      | no e ↦ inl (inl (omega arith))
    ]
  ]

  -- One round frees page `k`, which starts at `z.base + page`; the later rounds free what follows.
  stepped :
      (i k ps page : ℕ) (b : Bitmap) (z : MemoryZone)
      → 0 < ps
      → z.base + page ≡ k * ps
      → page < z.size
      → k < capacity b
      → (if leb (z.base + (page + ps)) (i * ps) && ltb (i * ps) (z.base + z.size)
          then false
          else get_index (set_index b k false) i)
        ≡ (if leb (z.base + page) (i * ps) && ltb (i * ps) (z.base + z.size)
            then false
            else get_index b i)
  stepped i k ps page b z p e l inside = elim (starts i k ps p) [
    | inr above ↦ ground (arith, get_index-set_index b k false i inside)
    | inl (inl same) ↦ rw same (ground (arith, get_index-set_index b k false k inside))
    | inl (inr below) ↦ ground (arith, get_index-set_index b k false i inside)
  ]

  release_pages_lem :
      (fuel ps : ℕ) (z : MemoryZone) (page k : ℕ) (b : Bitmap) (i : ℕ)
      → 0 < ps
      → z.base + page ≡ k * ps
      → z.size ≤ page + fuel
      → z.base + z.size + ps ≤ u64_mod
      → z.base + z.size ≤ capacity b * ps
      → get_index (release_pages B fuel ps z page b) i ≡ (
          if leb (z.base + page) (i * ps) && ltb (i * ps) (z.base + z.size)
          then false
          else get_index b i)
  unfolding release_pages
  release_pages_lem zero ps z page k b i p e f s c = ground arith
  release_pages_lem (suc fuel) ps z page k b i p e f s c = elim (Bool-cases (ltb page z.size)) [
    | inr done ↦ rw done (ground arith)
    | inl more ↦
        let l : page < z.size = ltb→lt page z.size more in
        let next : add64 page ps ≡ page + ps = add64-eq_add page ps (omega arith) in
        let at : add64 z.base page / ps ≡ k =
          rw (add64-eq_add z.base page (omega arith), e) (mul-div_cancel k p) in
        let inside : k < capacity b =
          lt_of_mul-lt-mul_right ps {m = k} {n = capacity b} (omega arith) in
        rw (more, next, at)
          (release_pages_lem fuel ps z (page + ps) (k + 1) (set_index b k false) i p (omega arith)
              (omega arith) s (rw (capacity-set_index b k false) c)
            ∙ stepped i k ps page b z p e l inside)
  ]

  -- What Initialize asks of a zone: nothing, if it is not usable.
  abbrev pub Usable : ℕ → ℕ → MemoryZone → Type 0
  Usable ps n z = (is_usable z.kind ≡ false) ⊎ Fits ps n z

  first_page :
      (ps n : ℕ) (z : MemoryZone)
      → Fits ps n z
      → z.base + (if z.base == 0 then 4096 else 0) ≡ first_byte z
  first_page ps n z f = ground arith

  capacity-release_zone :
      (ps : ℕ) (z : MemoryZone) (b : Bitmap) → capacity (release_zone B ps z b) ≡ capacity b
  unfolding release_zone
  capacity-release_zone ps z b =
      ground (arith, capacity-release_pages z.size ps z (if z.base == 0 then 4096 else 0) b)

  release_zone_lem :
      (ps : ℕ) (z : MemoryZone) (b : Bitmap) (i : ℕ)
      → 0 < ps
      → Usable ps (capacity b) z
      → get_index (release_zone B ps z b) i ≡ (if covers ps z i then false else get_index b i)
  unfolding release_zone
  release_zone_lem ps z b i p (inl h) = rw h
  release_zone_lem ps z b i p (inr f) = elim (Bool-cases (is_usable z.kind)) [
    | inr h ↦ rw h
    | inl h ↦
        let e = first_page ps (capacity b) z f in
        rw h (
          release_pages_lem z.size ps z (if z.base == 0 then 4096 else 0) f.first b i p
            (e ∙ f.aligned) (omega arith) f.in_space f.below
          ∙ rw e)
  ]

  release_zones_lem :
      (ps : ℕ) (zones : List MemoryZone) (b : Bitmap) (i : ℕ)
      → 0 < ps
      → All (Usable ps (capacity b)) zones
      → get_index (release_zones B ps zones b) i
        ≡ (if covered ps zones i then false else get_index b i)
  unfolding release_zones
  release_zones_lem ps [] b i p h = refl
  release_zones_lem ps (z ∷ zones) b i p (h, hs) =
      release_zones_lem ps zones (release_zone B ps z b) i p (rw (capacity-release_zone ps z b) hs)
      ∙ ground (arith, release_zone_lem ps z b i p h)

  capacity-release_zones :
      (ps : ℕ) (zones : List MemoryZone) (b : Bitmap)
      → capacity (release_zones B ps zones b) ≡ capacity b
  unfolding release_zones
  capacity-release_zones ps [] b = refl
  capacity-release_zones ps (z ∷ zones) b =
      capacity-release_zones ps zones (release_zone B ps z b) ∙ capacity-release_zone ps z b

module _ (B : BitmapOps) (M : MathOps) where
  open B use {
    Bitmap, capacity, get_index, get_size, allocate, set_all, capacity-allocate, capacity-set_all,
    get_index-set_all,
  }
  open M use {is_power_of_two, is_power_of_two-pos}

  -- With a page size that is a power of two, some memory, usable zones that are aligned to pages
  -- and a bitmap that is not empty, Initialize succeeds, and a page below the usable top is free
  -- exactly if it lies in the part of a usable zone that is given to the allocator. All else of the
  -- allocator is what the survey of the zones left.
  pub initialize_lem :
      (a : BitmapAllocator Bitmap) (zones : List MemoryZone) (ps : ℕ)
      → let s = survey B M zones (record a { page_size = ps }) in
        let n = s.usable_memory_top / ps in
        is_power_of_two ps ≡ true
        → s.memory_top ≢ 0
        → get_size (set_all (allocate n) 0xff) ≢ 0
        → All (Usable B ps n) zones
        → (a' : BitmapAllocator Bitmap) × (initialize B M a zones ps ≡ (a', ok tt))
          × (capacity a'.page_bitmap ≡ n)
          × ((i : ℕ) → i < n → get_index a'.page_bitmap i ≡ not (covered ps zones i))
          × (a' ≡ record s { page_bitmap = a'.page_bitmap })
  unfolding initialize
  initialize_lem a zones ps p m g fits = (
    record s { page_bitmap = release_zones B ps zones full },
    rw (p, no_zero s.memory_top m, no_zero (get_size full) g),
    capacity-release_zones B ps zones full ∙ sized,
    λ i h.
        release_zones_lem B ps zones full i (is_power_of_two-pos ps p) (rw sized fits)
        ∙ rw
            (get_index-set_all (allocate (s.usable_memory_top / ps)) i
              (rw (capacity-allocate (s.usable_memory_top / ps)) h))
            (ground arith),
    refl,
  )
    where
      s : BitmapAllocator Bitmap
      s = survey B M zones (record a { page_size = ps })

      full : Bitmap
      full = set_all (allocate (s.usable_memory_top / ps)) 0xff

      sized : capacity full ≡ s.usable_memory_top / ps
      sized =
          capacity-set_all (allocate (s.usable_memory_top / ps)) 0xff
          ∙ capacity-allocate (s.usable_memory_top / ps)

      no_zero : (n : ℕ) → n ≢ 0 → (n == 0) ≡ false
      no_zero n h = ground arith
