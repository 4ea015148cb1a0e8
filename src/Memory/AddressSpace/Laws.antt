-- ===== src/Memory/AddressSpace/Laws.antt =====
-- Allocation keeps the regions of Kernel/Memory/AddressSpace.cpp apart.
use mathlib.Core.Bool.{true≢false}
use cryptix_os.Common.Prism.{MathOps}
use cryptix_os.Memory.Tree.{TreeOps, Fresh}
use cryptix_os.Memory.Pmm.{page_bytes}
use cryptix_os.Memory.AddressSpace.{
  Region, virtual_base, region_end, is_free, is_available, insert_region, allocate_fixed,
}
use cryptix_os.Common.{
  ℕ, ◌+◌, ◌≤◌, ◌<◌, ◌≡◌, refl, sym, ◌∙◌, ◌↔◌, ◌⊎◌, inl, inr, Bool, true, false, ◌||◌, Option, none,
  some, List, [], ◌∷◌, arith, leb, if◌then◌else◌, Bool-cases, All, Inserted, here, there,
  Inserted-All, u64_mod, add64, add64-eq_add,
}

-- Where a region ends, if it does not wrap.
abbrev pub end_of : ℕ × Region → ℕ
end_of e = virtual_base e.1 + e.1.virtual_range.size

-- Two regions have no byte in common.
abbrev pub Apart : ℕ → ℕ → Region → Type 0
Apart base size r = (base + size ≤ virtual_base r) ⊎ (virtual_base r + r.virtual_range.size ≤ base)

-- A region under its own base address that is not empty and ends within the address space.
pub record IsEntry (e : ℕ × Region) : Type 0 where
  pub keyed : e.0 ≡ virtual_base e.1
  pub not_empty : 0 < e.1.virtual_range.size
  pub in_space : virtual_base e.1 + e.1.virtual_range.size < u64_mod

-- The regions have no byte in common, two by two.
abbrev pub Disjoint : List (ℕ × Region) → Type 0
Disjoint [] = Unit
Disjoint (e ∷ es) = All (λ f. Apart (virtual_base e.1) e.1.virtual_range.size f.1) es × Disjoint es

pub region_end-eq :
    (e : ℕ × Region) → IsEntry e → region_end e.1 ≡ virtual_base e.1 + e.1.virtual_range.size
unfolding region_end
region_end-eq e v = add64-eq_add _ _ v.in_space

Disjoint-Inserted :
    {e : ℕ × Region} {xs ys : List (ℕ × Region)}
    → Inserted e xs ys
    → All (λ f. Apart (virtual_base e.1) e.1.virtual_range.size f.1) xs
    → Disjoint xs
    → Disjoint ys
Disjoint-Inserted (here xs) a d = (a, d)
Disjoint-Inserted {e} (there y i) (a, as_) (b, d) = (
  Inserted-All (λ f. Apart (virtual_base y.1) y.1.virtual_range.size f.1) i (ground arith) b,
  Disjoint-Inserted i as_ d,
)

module _ (T : TreeOps Region) where
  open T use {Tree, entries, insert, insert-Inserted}

  is_free→Apart :
      (base size : ℕ) (es : List (ℕ × Region))
      → base + size < u64_mod
      → All IsEntry es
      → is_free T base (add64 base size) es ≡ true
      → All (λ f. Apart base size f.1) es
  unfolding is_free
  is_free→Apart base size [] h v f = tt
  is_free→Apart base size ((k, r) ∷ es) h (v, vs) f =
      let e = region_end-eq (k, r) v in
      let a = add64-eq_add base size h in
      let (sides, rest) =
        split (leb (add64 base size) (virtual_base r) || leb (region_end r) base)
          (is_free T base (add64 base size) es) f in
      (ground arith, is_free→Apart base size es h vs rest)
    where
      split : (b c : Bool) → (if b then c else false) ≡ true → (b ≡ true) × (c ≡ true)
      split b c g = ground arith

  Apart→is_free :
      (base size : ℕ) (es : List (ℕ × Region))
      → base + size < u64_mod
      → All IsEntry es
      → All (λ f. Apart base size f.1) es
      → is_free T base (add64 base size) es ≡ true
  unfolding is_free
  Apart→is_free base size [] h v a = refl
  Apart→is_free base size ((k, r) ∷ es) h (v, vs) (a, as_) =
      ground (
        arith,
        region_end-eq (k, r) v,
        add64-eq_add base size h,
        Apart→is_free base size es h vs as_,
      )

  -- Over regions that are well formed, IsAvailable answers true exactly if the range, which ends
  -- within the address space, has no byte in common with any region.
  pub is_available_iff :
      (t : Tree) (base size : ℕ)
      → base + size < u64_mod
      → All IsEntry (entries t)
      → (is_available T t base size ≡ true) ↔ All (λ f. Apart base size f.1) (entries t)
  unfolding is_available
  is_available_iff t base size h v =
      (is_free→Apart base size (entries t) h v, Apart→is_free base size (entries t) h v)

  -- The regions are well formed and have no byte in common.
  pub record IsSpace (t : Tree) : Type 0 where
    pub entry : All IsEntry (entries t)
    pub disjoint : Disjoint (entries t)

  Apart-Fresh :
      (base size : ℕ) (es : List (ℕ × Region))
      → 0 < size
      → All IsEntry es
      → All (λ f. Apart base size f.1) es
      → Fresh base es
  Apart-Fresh base size [] p v a = tt
  Apart-Fresh base size ((k, r) ∷ es) p (v, vs) (a, as_) =
      (λ e. absurd (differ e a), Apart-Fresh base size es p vs as_)
    where
      differ : k ≡ base → Apart base size r → ⊥
      differ e (inl h) = let q = v.keyed in omega arith
      differ e (inr h) = let q = v.keyed in let n = v.not_empty in omega arith

  -- A region put into the tree at `base`: it is apart from all others, which stay.
  pub record Placed (t : Tree) (base size : ℕ) (r : Option Region × Tree) : Type 0 where
    pub region :
        r.0
        ≡ some (record { virtual_range = record { base = base; size = size }; physical_base = 0 })
    pub apart : All (λ f. Apart base size f.1) (entries t)
    pub added :
        Inserted
          (base, record { virtual_range = record { base = base; size = size }; physical_base = 0 })
          (entries t)
          (entries r.1)
    pub space : IsSpace r.1

  pub insert_region-Placed :
      (t : Tree) (base size : ℕ)
      → IsSpace t
      → 0 < size
      → base + size < u64_mod
      → is_available T t base size ≡ true
      → Placed t base size (insert_region T t base size)
  unfolding insert_region
  insert_region-Placed t base size s pos h free = record {
    region = refl;
    apart = a;
    added = i;
    space = record {
      entry =
          Inserted-All IsEntry i (record { keyed = refl; not_empty = pos; in_space = h }) s.entry;
      disjoint = Disjoint-Inserted i a s.disjoint;
    };
  }
    where
      a : All (λ f. Apart base size f.1) (entries t)
      a = (is_available_iff t base size h s.entry).0 free

      i :
          Inserted
            (
              base,
              record { virtual_range = record { base = base; size = size }; physical_base = 0 },
            )
            (entries t)
            (entries (
              insert t base (record {
                virtual_range = record { base = base; size = size };
                physical_base = 0;
              })))
      i = insert-Inserted t base _ (Apart-Fresh base size (entries t) pos s.entry a)

  module _ (M : MathOps) where
    open M use {align_up}

    -- In a tree whose regions are apart, for a size that is not zero once rounded up to pages and a
    -- range that ends within the address space, AllocateFixed puts a region of the rounded size
    -- exactly where it was asked to, apart from all others, if there is room; if there is none, it
    -- returns nothing and changes nothing.
    pub allocate_fixed_cases :
        (t : Tree) (virt size : ℕ)
        → IsSpace t
        → 0 < align_up size page_bytes
        → virt + align_up size page_bytes < u64_mod
        → Placed t virt (align_up size page_bytes) (allocate_fixed T M t virt size)
          ⊎ ((allocate_fixed T M t virt size ≡ (none, t))
              × ¬ All (λ f. Apart virt (align_up size page_bytes) f.1) (entries t))
    unfolding allocate_fixed
    allocate_fixed_cases t virt size s pos h =
        elim (Bool-cases (is_available T t virt (align_up size page_bytes))) [
          | inl free ↦
              inl (rw free (insert_region-Placed t virt (align_up size page_bytes) s pos h free))
          | inr taken ↦
              inr (
                rw taken,
                λ a. true≢false (sym ((is_available_iff t virt _ h s.entry).1 a) ∙ taken),
              )
        ]
