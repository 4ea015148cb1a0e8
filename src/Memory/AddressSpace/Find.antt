-- ===== src/Memory/AddressSpace/Find.antt =====
-- Find, Erase and AllocateRegion of Kernel/Memory/AddressSpace.cpp.
use cryptix_os.Common.Prism.{MathOps}
use cryptix_os.Memory.Tree.{TreeOps, Sorted}
use cryptix_os.Memory.AddressSpace.{
  AddressRange, Region, virtual_base, region_end, is_available, place, allocate_region, find_region,
  find,
}
use cryptix_os.Memory.AddressSpace.Laws.{
  end_of, Apart, IsEntry, Disjoint, region_end-eq, is_available_iff, IsSpace, Placed,
  insert_region-Placed,
}
use cryptix_os.Common.{
  ℕ, ◌+◌, ◌%◌, ◌≤◌, ◌<◌, ◌≡◌, refl, ◌⊎◌, inl, inr, true, ◌&&◌, none, some, List, [], ◌∷◌, arith,
  ltb, leb, Bool-cases, All, Inserted, here, there, All-map, u64_mod, add64,
}

-- The regions from the address `lo` on, each behind the one before.
abbrev Chain : ℕ → List (ℕ × Region) → Type 0
Chain lo [] = Unit
Chain lo (e ∷ es) = (lo ≤ virtual_base e.1) × Chain (virtual_base e.1 + e.1.virtual_range.size) es

-- Where the last region of a walk from `lo` ends.
abbrev pub last_end : ℕ → List (ℕ × Region) → ℕ
last_end lo [] = lo
last_end lo (e ∷ es) = last_end (virtual_base e.1 + e.1.virtual_range.size) es

Sorted-Chain :
    (lo : ℕ) (es : List (ℕ × Region))
    → All (λ f. lo ≤ virtual_base f.1) es
    → Sorted es
    → All IsEntry es
    → Disjoint es
    → Chain lo es
Sorted-Chain lo [] b s v d = tt
Sorted-Chain lo (e ∷ es) (b, bs) (s, ss) (v, vs) (d, ds) =
    (b, Sorted-Chain (end_of e) es (behind es s vs d) ss vs ds)
  where
    behind :
        (fs : List (ℕ × Region))
        → All (λ f. e.0 < f.0) fs
        → All IsEntry fs
        → All (λ f. Apart (virtual_base e.1) e.1.virtual_range.size f.1) fs
        → All (λ f. virtual_base e.1 + e.1.virtual_range.size ≤ virtual_base f.1) fs
    behind [] p q r = tt
    behind (f ∷ fs) (p, ps) (q, qs) (inl r, rs) = (r, behind fs ps qs rs)
    behind (f ∷ fs) (p, ps) (q, qs) (inr r, rs) =
        (let k = v.keyed in let l = q.keyed in omega arith, behind fs ps qs rs)

Chain-last_end : (lo : ℕ) (es : List (ℕ × Region)) → Chain lo es → lo ≤ last_end lo es
Chain-last_end lo [] c = omega arith
Chain-last_end lo (e ∷ es) (c, cs) = let h = Chain-last_end (end_of e) es cs in omega arith

ends_before :
    (lo : ℕ) (es : List (ℕ × Region))
    → Chain lo es
    → All (λ f. virtual_base f.1 + f.1.virtual_range.size ≤ last_end lo es) es
ends_before lo [] c = tt
ends_before lo (e ∷ es) (c, cs) = (Chain-last_end (end_of e) es cs, ends_before (end_of e) es cs)

module _ (T : TreeOps Region) (M : MathOps) where
  open T use {Tree, entries, entries-Sorted}
  open M use {align_up, align_up-mod, align_up-lt, le-align_up}

  place_sound :
      (t : Tree) (size alignment limit current : ℕ) (es : List (ℕ × Region)) (base : ℕ)
      → 0 < alignment
      → All IsEntry es
      → current ≤ limit
      → All (λ f. end_of f ≤ limit) es
      → place T M t size alignment current es ≡ some base
      → (is_available T t base size ≡ true) × (base % alignment ≡ 0) × (base < limit + alignment)
  unfolding place
  place_sound t size alignment limit current [] base p v c l h =
      elim (Bool-cases (is_available T t (align_up current alignment) size)) [
        | inl a ↦
            let e : align_up current alignment ≡ base = ground arith in
            rw (← e) (
              a,
              align_up-mod current alignment p,
              let b = align_up-lt current alignment p in omega arith,
            )
        | inr n ↦ absurd (ground arith)
      ]
  place_sound t size alignment limit current ((k, r) ∷ es) base p (v, vs) c (l, ls) h =
      elim (Bool-cases (
        leb (add64 (align_up current alignment) size) (virtual_base r)
        && is_available T t (align_up current alignment) size)) [
          | inl a ↦
              let e : align_up current alignment ≡ base = ground arith in
              rw (← e) (
                ground arith,
                align_up-mod current alignment p,
                let b = align_up-lt current alignment p in omega arith,
              )
          | inr n ↦
              place_sound t size alignment limit (region_end r) es base p vs
                (let e = region_end-eq (k, r) v in omega arith) ls (ground arith)
        ]

  place_total :
      (t : Tree) (size alignment current : ℕ) (es : List (ℕ × Region))
      → All IsEntry es
      → is_available T t (align_up (last_end current es) alignment) size ≡ true
      → (base : ℕ) × (place T M t size alignment current es ≡ some base)
  unfolding place
  place_total t size alignment current [] v h = (align_up current alignment, rw h)
  place_total t size alignment current ((k, r) ∷ es) (v, vs) h =
      let e = region_end-eq (k, r) v in
      let (b, later) = place_total t size alignment (region_end r) es vs (rw e h) in
      elim (Bool-cases (
        leb (add64 (align_up current alignment) size) (virtual_base r)
        && is_available T t (align_up current alignment) size)) [
          | inl a ↦ (align_up current alignment, rw a)
          | inr n ↦ (b, rw n later)
        ]

  free_at_end :
      (current : ℕ) (es : List (ℕ × Region))
      → Chain 0 es
      → All (λ f. end_of f ≤ last_end current es) es
  free_at_end current [] c = tt
  free_at_end current (e ∷ es) c = ends_before 0 (e ∷ es) c

  zero_below : (es : List (ℕ × Region)) → All (λ f. 0 ≤ virtual_base f.1) es
  zero_below [] = tt
  zero_below (e ∷ es) = (omega arith, zero_below es)

  last_end-le :
      (lo limit : ℕ) (es : List (ℕ × Region))
      → lo ≤ limit
      → All (λ f. end_of f ≤ limit) es
      → last_end lo es ≤ limit
  last_end-le lo limit [] h a = h
  last_end-le lo limit (e ∷ es) h (a, as_) = last_end-le (end_of e) limit es a as_

  -- In a tree whose regions are well formed and apart, for a size and an alignment that are not
  -- zero, if all regions and the aligned bottom of the total range lie below a limit that leaves
  -- room for the size and the alignment in the address space, AllocateRegion always succeeds: it
  -- places a region of the size asked for at an aligned address, apart from all others.
  pub allocate_region_lem :
      (total : AddressRange) (t : Tree) (size alignment limit : ℕ)
      → IsSpace T t
      → 0 < size
      → 0 < alignment
      → align_up total.base alignment ≤ limit
      → All (λ f. end_of f ≤ limit) (entries t)
      → limit + alignment + size < u64_mod
      → (base : ℕ) × (base % alignment ≡ 0)
        × Placed T t base size (allocate_region T M total t size alignment)
  unfolding allocate_region
  allocate_region_lem total t size alignment limit s pos p c l room =
      let (base, found) = place_total t size alignment start (entries t) s.entry available in
      let (free, aligned, low) =
        place_sound t size alignment limit start (entries t) base p s.entry c l found in
      (
        base,
        aligned,
        rw (found, allocate_region) (insert_region-Placed T t base size s pos (omega arith) free),
      )
    where
      start : ℕ
      start = align_up total.base alignment

      at : ℕ
      at = align_up (last_end start (entries t)) alignment

      end_low : last_end start (entries t) ≤ limit
      end_low = last_end-le start limit (entries t) c l

      available : is_available T t at size ≡ true
      available =
          (is_available_iff T t at size
              (let b = align_up-lt (last_end start (entries t)) alignment p in
                omega (arith, end_low))
              s.entry).1
            (All-map
              (λ f h.
                inr (let b = le-align_up (last_end start (entries t)) alignment p in omega arith))
              (entries t)
              (free_at_end start (entries t) (
                Sorted-Chain 0 (entries t) (zero_below (entries t)) (entries-Sorted t) s.entry
                  s.disjoint)))

  -- The region holds the address.
  abbrev pub Holds : ℕ → Region → Type 0
  Holds address r = (virtual_base r ≤ address) × (address < virtual_base r + r.virtual_range.size)

  find_region-cases :
      (address : ℕ) (es : List (ℕ × Region))
      → All IsEntry es
      → ((e : ℕ × Region) × (rest : List (ℕ × Region)) × Inserted e rest es
          × (find_region T address es ≡ some e.1)
          × Holds address e.1)
        ⊎ ((find_region T address es ≡ none) × All (λ f. ¬ Holds address f.1) es)
  unfolding find_region
  find_region-cases address [] v = inr (refl, tt)
  find_region-cases address ((k, r) ∷ es) (v, vs) =
      let e = region_end-eq (k, r) v in
      elim (Bool-cases (leb (virtual_base r) address && ltb address (region_end r))) [
        | inl hit ↦ inl ((k, r), es, here es, rw hit, (ground arith, ground arith))
        | inr miss ↦ elim (find_region-cases address es vs) [
          | inl (f, rest, i, found, h) ↦ inl (f, (k, r) ∷ rest, there (k, r) i, rw (miss, found), h)
          | inr (none_found, out) ↦ inr (rw (miss, none_found), (λ h. ground arith, out))
        ]
      ]

  -- In a tree whose regions are well formed and apart, Find returns a region of the tree that holds
  -- the address, or nothing if none does.
  find_cases :
      (t : Tree) (address : ℕ)
      → IsSpace T t
      → ((e : ℕ × Region) × (rest : List (ℕ × Region)) × Inserted e rest (entries t)
          × (find T t address ≡ some e.1)
          × Holds address e.1)
        ⊎ ((find T t address ≡ none) × All (λ f. ¬ Holds address f.1) (entries t))
  unfolding find
  find_cases t address s = find_region-cases address (entries t) s.entry
