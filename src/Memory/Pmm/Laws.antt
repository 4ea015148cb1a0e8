-- ===== src/Memory/Pmm/Laws.antt =====
-- EarlyAllocatePages, and the hand-over to the frame allocator, in Kernel/Memory/PMM.cpp.
use cryptix_os.Common.Prism.{MathOps}
use cryptix_os.Memory.Bitmap.{BitmapOps}
use cryptix_os.Memory.Zone.{
  MemoryZone, MemoryZoneType, is_usable, usable, IsZone, Split, allocate_fits,
}
use cryptix_os.Memory.Frames.{BitmapAllocator}
use cryptix_os.Memory.Zone
use cryptix_os.Memory.Frames
use cryptix_os.Memory.Frames.Allocate.{IsAllocator}
use cryptix_os.Memory.Frames.Initialize.{Usable}
use cryptix_os.Memory.Frames.Laws
use cryptix_os.Memory.Frames.Survey.{IsBlank, initialize-IsAllocator}
use cryptix_os.Memory.Pmm.{Pmm, page_bytes, early_allocate, allocate_pages, free_pages, initialize}
use cryptix_os.Common.{
  ℕ, ◌/◌, ◌≤◌, ◌<◌, ◌≡◌, refl, ap, ◌≢◌, ◌⊎◌, inl, inr, true, false, not, ◌||◌, List, [], ◌∷◌, ◌++◌,
  arith, ltb, Bool-cases, All, ok,
}

-- The zone cannot serve the request.
abbrev pub Skipped : ℕ → MemoryZone → Type 0
Skipped bytes z = (is_usable z.kind ≡ false) ⊎ (z.size < bytes)

-- The first zone that can serve the request gives its bottom; the other zones are left alone.
pub record Cut (bytes : ℕ) (zones : List MemoryZone) (r : ℕ × List MemoryZone) : Type 0 where
  pub before : List MemoryZone
  pub zone : MemoryZone
  pub after : List MemoryZone
  pub rest : MemoryZone
  pub map_before : zones ≡ before ++ zone ∷ after
  pub map_after : r.1 ≡ before ++ rest ∷ after
  pub passed : All (Skipped bytes) before
  pub large : bytes ≤ zone.size
  pub split : Split zone bytes r.0 rest

usable_kind : (k : MemoryZoneType) → is_usable k ≡ true → k ≡ usable
usable_kind usable h = refl
usable_kind k h = ground arith

-- Over zones that end within the address space, an early allocation cuts the first zone that can
-- serve it, or no zone can and it returns null with the map as it was.
early_allocate_cases :
    (bytes : ℕ) (zones : List MemoryZone)
    → All IsZone zones
    → Cut bytes zones (early_allocate bytes zones)
      ⊎ ((early_allocate bytes zones ≡ (0, zones)) × All (Skipped bytes) zones)
unfolding early_allocate
early_allocate_cases bytes [] v = inr (refl, tt)
early_allocate_cases bytes (z ∷ zones) (v, vs) =
    elim (Bool-cases (not (is_usable z.kind) || ltb z.size bytes)) [
      | inr no_skip ↦ inl (record {
        before = [];
        zone = z;
        after = zones;
        rest = (Zone.allocate z bytes).1;
        map_before = refl;
        map_after = rw no_skip;
        passed = tt;
        large = ground arith;
        split =
            rw no_skip (allocate_fits z bytes v (usable_kind z.kind (ground arith)) (ground arith));
      })
      | inl skip ↦ elim (early_allocate_cases bytes zones vs) [
        | inl c ↦ inl (record {
          before = z ∷ c.before;
          zone = c.zone;
          after = c.after;
          rest = c.rest;
          map_before = ap (λ (l : List MemoryZone). z ∷ l) c.map_before;
          map_after = rw skip (ap (λ (l : List MemoryZone). z ∷ l) c.map_after);
          passed = (ground arith, c.passed);
          large = c.large;
          split = rw skip c.split;
        })
        | inr (e, all) ↦ inr (rw (skip, e), (ground arith, all))
      ]
    ]

module _ (B : BitmapOps) (M : MathOps) where
  open B use {Bitmap, get_size, allocate, set_all}
  open M use {is_power_of_two}

  -- With a memory map that is not empty and fit for the frame allocator, Initialize returns true,
  -- and from then on requests go to a frame allocator that is well formed.
  initialize_hands_over :
      (p : Pmm Bitmap) (zones : List MemoryZone)
      → let s = Frames.survey B M zones (record p.allocator { page_size = page_bytes }) in
        let n = s.usable_memory_top / page_bytes in
        zones ≢ []
        → IsBlank B M p.allocator
        → is_power_of_two page_bytes ≡ true
        → s.memory_top ≢ 0
        → 0 < n
        → get_size (set_all (allocate n) 0xff) ≢ 0
        → All (Usable B page_bytes n) zones
        → (q : Pmm Bitmap) × (initialize B M p zones ≡ ok (q, true))
          × IsAllocator B q.allocator
          × ((count : ℕ)
              → (allocate_pages B q count).0 ≡ (Frames.allocate_pages B q.allocator count).0)
  unfolding initialize allocate_pages
  initialize_hands_over p [] some_zone b w m pos g fits = absurd (some_zone refl)
  initialize_hands_over p (z ∷ zones) some_zone b w m pos g fits =
      let (a, e, v) =
        initialize-IsAllocator B M p.allocator (z ∷ zones) page_bytes b w m pos g fits in
      (
        record { initialized = true; memory_map = z ∷ zones; allocator = a },
        rw e (ground arith),
        v,
        λ count. refl,
      )

module _ (B : BitmapOps) where
  open B use {Bitmap}

  pub free_pages_null : (p : Pmm Bitmap) (count : ℕ) → free_pages B p 0 count ≡ p
  unfolding free_pages
  free_pages_null p count =
      ap (λ a. record p { allocator = a }) (Laws.free_pages_null B p.allocator count)
