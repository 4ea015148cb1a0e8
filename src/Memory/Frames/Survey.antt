-- ===== src/Memory/Frames/Survey.antt =====
-- The first loop of Initialize in Kernel/Memory/Allocator/BitmapAllocator.cpp: its accounting, and
-- what it leaves to the operations that follow.
use cryptix_os.Common.Prism.{MathOps}
use cryptix_os.Memory.Bitmap.{BitmapOps}
use cryptix_os.Memory.Zone.{
  MemoryZone, MemoryZoneType, usable, acpi_reclaimable, bootloader_reclaimable, kernel_and_modules,
}
use cryptix_os.Memory.Frames.{BitmapAllocator, survey_zone, survey, initialize, free_memory_size}
use cryptix_os.Memory.Frames.Allocate.{IsAllocator}
use cryptix_os.Memory.Frames.Initialize.{Usable, covered, initialize_lem}
use cryptix_os.Common.{
  ℕ, ◌/◌, ◌<◌, ◌≡◌, refl, sym, ap, ◌∙◌, ◌≢◌, true, false, not, List, [], ◌∷◌, arith, All, u64_mod,
  add64, sub64-add64, add64-lt, add64_add, add64_add_right, ok,
}

module _ (B : BitmapOps) (M : MathOps) where
  open B use {Bitmap, capacity, get_index, get_size, allocate, set_all}
  open M use {is_power_of_two, is_power_of_two-pos, max, max_lem}

  -- All counted memory is usable or in use, and the sizes are words.
  pub record Counted (a : BitmapAllocator Bitmap) : Type 0 where
    pub total : a.total_memory ≡ add64 a.usable_memory_size a.used_memory
    pub usable_word : a.usable_memory_size < u64_mod
    pub top_word : a.usable_memory_top < u64_mod

  max-word : (m n : ℕ) → m < u64_mod → n < u64_mod → max m n < u64_mod
  max-word m n h k = rw (max_lem m n) (ground arith)

  count_used :
      (z : MemoryZone) (a : BitmapAllocator Bitmap)
      → Counted a
      → Counted (record a {
        memory_top = max a.memory_top (add64 z.base z.size);
        used_memory = add64 a.used_memory z.size;
        total_memory = add64 a.total_memory z.size;
      })
  count_used z a c = record {
    total = rw c.total (sym (add64_add_right a.usable_memory_size a.used_memory z.size));
    usable_word = c.usable_word;
    top_word = c.top_word;
  }

  survey_zone-Counted :
      (k : MemoryZoneType) (z : MemoryZone) (a : BitmapAllocator Bitmap)
      → z.kind ≡ k
      → Counted a
      → Counted (survey_zone B M z a)
  unfolding survey_zone
  survey_zone-Counted usable z a e c = rw e (record {
    total = rw c.total (sym (add64_add a.usable_memory_size a.used_memory z.size));
    usable_word = add64-lt a.usable_memory_size z.size;
    top_word =
        max-word a.usable_memory_top (add64 z.base z.size) c.top_word (add64-lt z.base z.size);
  })
  survey_zone-Counted acpi_reclaimable z a e c = rw e (count_used z a c)
  survey_zone-Counted bootloader_reclaimable z a e c = rw e (count_used z a c)
  survey_zone-Counted kernel_and_modules z a e c = rw e (count_used z a c)
  survey_zone-Counted k z a e c =
      rw e (record { total = c.total; usable_word = c.usable_word; top_word = c.top_word })

  survey-Counted :
      (zones : List MemoryZone) (a : BitmapAllocator Bitmap)
      → Counted a
      → Counted (survey B M zones a)
  unfolding survey
  survey-Counted [] a c = c
  survey-Counted (z ∷ zones) a c = survey-Counted zones _ (survey_zone-Counted z.kind z a refl c)

  survey_zone-keeps :
      (z : MemoryZone) (a : BitmapAllocator Bitmap)
      → ((survey_zone B M z a).page_size ≡ a.page_size)
        × ((survey_zone B M z a).last_index ≡ a.last_index)
  unfolding survey_zone
  survey_zone-keeps z a = ground arith

  survey-keeps :
      (zones : List MemoryZone) (a : BitmapAllocator Bitmap)
      → ((survey B M zones a).page_size ≡ a.page_size)
        × ((survey B M zones a).last_index ≡ a.last_index)
  unfolding survey
  survey-keeps [] a = (refl, refl)
  survey-keeps (z ∷ zones) a =
      let (p, l) = survey_zone-keeps z a in
      let (q, m) = survey-keeps zones (survey_zone B M z a) in (q ∙ p, m ∙ l)

  -- The allocator object before Initialize.
  pub record IsBlank (a : BitmapAllocator Bitmap) : Type 0 where
    pub no_total : a.total_memory ≡ 0
    pub no_usable : a.usable_memory_size ≡ 0
    pub no_used : a.used_memory ≡ 0
    pub no_top : a.usable_memory_top ≡ 0
    pub no_index : a.last_index ≡ 0

  blank-Counted : (a : BitmapAllocator Bitmap) → IsBlank a → Counted a
  unfolding add64
  blank-Counted a b = record {
    total = let h = b.no_total in let k = b.no_usable in let l = b.no_used in omega arith;
    usable_word = let k = b.no_usable in omega arith;
    top_word = let k = b.no_top in omega arith;
  }

  -- From a blank allocator, whatever the memory map, the memory that FreeMemorySize reports after
  -- the survey is the sum of the usable zones that the survey counted.
  free_memory_size-survey :
      (a : BitmapAllocator Bitmap) (zones : List MemoryZone)
      → IsBlank a
      → free_memory_size B (survey B M zones a) ≡ (survey B M zones a).usable_memory_size
  unfolding free_memory_size
  free_memory_size-survey a zones b =
      let c = survey-Counted zones a (blank-Counted a b) in
      rw c.total (sub64-add64 _ _ c.usable_word)

  not_covered-zero : (ps : ℕ) (zones : List MemoryZone) → covered ps zones 0 ≡ false
  not_covered-zero ps [] = refl
  not_covered-zero ps (z ∷ zones) = rw (not_covered-zero ps zones) (ground arith)

  -- With a page size that is a power of two, usable zones that are aligned to pages, one usable
  -- page or more and a bitmap that is not empty, Initialize sets up a blank allocator well formed:
  -- what AllocatePages and FreePages rely on.
  pub initialize-IsAllocator :
      (a : BitmapAllocator Bitmap) (zones : List MemoryZone) (ps : ℕ)
      → let s = survey B M zones (record a { page_size = ps }) in
        let n = s.usable_memory_top / ps in
        IsBlank a
        → is_power_of_two ps ≡ true
        → s.memory_top ≢ 0
        → 0 < n
        → get_size (set_all (allocate n) 0xff) ≢ 0
        → All (Usable B ps n) zones
        → (a' : BitmapAllocator Bitmap) × (initialize B M a zones ps ≡ (a', ok tt))
          × IsAllocator B a'
  initialize-IsAllocator a zones ps b p m pos g fits =
      let (a', e, cap, free, same) = initialize_lem B M a zones ps p m g fits in
      let (sized, indexed) = survey-keeps zones (record a { page_size = ps }) in
      let c = survey-Counted zones (record a { page_size = ps }) (blank-Counted _ (resized b)) in
      let size : a'.page_size ≡ ps =
        ap (λ (t : BitmapAllocator Bitmap). t.page_size) same ∙ sized in
      let top : a'.usable_memory_top
          ≡ (survey B M zones (record a { page_size = ps })).usable_memory_top =
        ap (λ (t : BitmapAllocator Bitmap). t.usable_memory_top) same in
      let index : a'.last_index ≡ 0 =
        ap (λ (t : BitmapAllocator Bitmap). t.last_index) same ∙ indexed ∙ b.no_index in
      (
        a',
        e,
        record {
          paged = rw size (is_power_of_two-pos ps p);
          in_space = rw top c.top_word;
          last_in = rw index (omega arith);
          mapped = rw (top, size, cap) (omega arith);
          null_used = free 0 pos ∙ ap not (not_covered-zero ps zones);
        },
      )
    where
      resized : IsBlank a → IsBlank (record a { page_size = ps })
      resized b = record {
        no_total = b.no_total;
        no_usable = b.no_usable;
        no_used = b.no_used;
        no_top = b.no_top;
        no_index = b.no_index;
      }
