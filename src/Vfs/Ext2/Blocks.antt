-- ===== src/Vfs/Ext2/Blocks.antt =====
-- Which block AllocateBlock takes, and when it finds none.
use native.Mathlib.Nat.{mul-le-mul_right, suc-mul}
use cryptix_os.Vfs.Ext2.{
  Ext2, decrement, write_descriptor, write_block, set_bit, locate_from, locate_free_group,
  first_clear, take_block, allocate_block, INodeMeta, write_inode_entry, new_block,
}
use cryptix_os.Common.{
  ℕ, zero, suc, ◌+◌, ◌-◌, ◌*◌, ◌/◌, ◌%◌, ◌^◌, ◌≤◌, ◌<◌, ◌≡◌, refl, sym, ap, ◌∙◌, ◌⊎◌, inl, inr,
  Bool, true, false, Option, none, some, arith, ltb, ◌==◌, ℕ_discrete, Bool-cases, Option-cases,
  u64_mod, add64, mul64, add64-eq_add, mul64-eq_mul,
}

abbrev or_zero : Option ℕ → ℕ
or_zero none = 0
or_zero (some n) = n

first_clear_lem :
    (bits : ℕ → Bool) (n i b : ℕ) → first_clear bits n i ≡ some b → (bits b ≡ false) × (b < i + n)
unfolding first_clear
first_clear_lem bits zero i b e = ground arith
first_clear_lem bits (suc n) i b e = elim (Bool-cases (bits i)) [
  | inl used ↦
      let later : first_clear bits n (suc i) ≡ some b = rw used at e in
      let (f, l) = first_clear_lem bits n (suc i) b later in (f, omega arith)
  | inr free ↦
      let here : some i ≡ some b = rw free at e in
      let same : i ≡ b = ap or_zero here in (ap bits (sym same) ∙ free, omega arith)
]

locate_from_lem :
    (fs : Ext2) (n g : ℕ)
    → 0 < g
    → (locate_from fs n g ≡ 0)
      ⊎ ((0 < (fs.descriptors (locate_from fs n g)).free_block_count)
          × (0 < locate_from fs n g)
          × (locate_from fs n g < g + n))
unfolding locate_from
locate_from_lem fs zero g h = inl refl
locate_from_lem fs (suc n) g h = elim (Bool-cases (ltb 0 (fs.descriptors g).free_block_count)) [
  | inl some_free ↦ rw some_free (inr (ground arith, h, omega arith))
  | inr full ↦ elim (locate_from_lem fs n (suc g) (omega arith)) [
    | inl e ↦ rw full (inl e)
    | inr (a, b, c) ↦ rw full (inr (a, b, omega arith))
  ]
]

locate_from_full :
    (fs : Ext2) (n g : ℕ)
    → ((h : ℕ) → g ≤ h → h < g + n → (fs.descriptors h).free_block_count ≡ 0)
    → locate_from fs n g ≡ 0
unfolding locate_from
locate_from_full fs zero g full = refl
locate_from_full fs (suc n) g full =
    let here = full g (omega arith) (omega arith) in
    let ih = locate_from_full fs n (suc g) (λ h a b. full h (omega arith) (omega arith)) in
    simp (here, ih)

locate_from-none :
    (fs : Ext2) (n g h : ℕ)
    → 0 < g
    → locate_from fs n g ≡ 0
    → g ≤ h
    → h < g + n
    → (fs.descriptors h).free_block_count ≡ 0
unfolding locate_from
locate_from-none fs zero g h p e lo hi = absurd (omega arith)
locate_from-none fs (suc n) g h p e lo hi =
    elim (Bool-cases (ltb 0 (fs.descriptors g).free_block_count)) [
      | inl room ↦ let here : g ≡ 0 = rw room at e in absurd (omega arith)
      | inr full ↦
          let later : locate_from fs n (suc g) ≡ 0 = rw full at e in
          elim (ℕ_discrete h g) [
            | yes same ↦ rw same (ground arith)
            | no other ↦
                locate_from-none fs n (suc g) h (omega arith) later (omega arith) (omega arith)
          ]
    ]

first_clear-none :
    (bits : ℕ → Bool) (n i b : ℕ) → first_clear bits n i ≡ none → i ≤ b → b < i + n → bits b ≡ true
unfolding first_clear
first_clear-none bits zero i b e lo hi = absurd (omega arith)
first_clear-none bits (suc n) i b e lo hi = elim (Bool-cases (bits i)) [
  | inr free ↦ let here : some i ≡ none = rw free at e in absurd (cc)
  | inl used ↦
      let later : first_clear bits n (suc i) ≡ none = rw used at e in
      elim (ℕ_discrete b i) [
        | yes same ↦ rw same used
        | no other ↦ first_clear-none bits n (suc i) b later (omega arith) (omega arith)
      ]
]

-- When no group from the second to the last has a free block, AllocateBlock finds none and changes
-- nothing, whatever is free in the first group.
allocate_block_full :
    (fs : Ext2)
    → ((h : ℕ) → 0 < h → h < fs.group_count → (fs.descriptors h).free_block_count ≡ 0)
    → allocate_block fs ≡ (0, fs)
unfolding allocate_block locate_free_group
allocate_block_full fs full =
    let none_there : locate_from fs (fs.group_count - 1) 1 ≡ 0 =
      locate_from_full fs (fs.group_count - 1) 1 (λ h a b. full h (omega arith) (omega arith)) in
    simp (none_there)

-- The file system with bit `b` of group `g` taken.
abbrev pub block_taken : Ext2 → ℕ → ℕ → Ext2
block_taken fs g b =
    let d = fs.descriptors g in
    record (write_descriptor (write_block fs d.block_bitmap (set_bit (fs.blocks d.block_bitmap) b))
      g (record d { free_block_count = decrement 16 d.free_block_count })) {
        free_blocks = decrement 32 fs.free_blocks;
      }

-- The file system with the count of group `g` set to 0.
abbrev pub emptied : Ext2 → ℕ → Ext2
emptied fs g = write_descriptor fs g (record (fs.descriptors g) { free_block_count = 0 })

-- Group `g` has room by its count, and bit `b` of its bitmap is clear.
pub record Available (fs : Ext2) (g b : ℕ) : Type 0 where
  pub group_pos : 0 < g
  pub group_lt : g < fs.group_count
  pub counted : 0 < (fs.descriptors g).free_block_count
  pub clear : fs.blocks (fs.descriptors g).block_bitmap b ≡ false
  pub bit_lt : b < fs.block_size * 8

number_pos :
    (fs : Ext2) (g b : ℕ)
    → Available fs g b
    → fs.block_size * 8 ≤ fs.blocks_per_group
    → (g * fs.blocks_per_group + b == 0) ≡ false
number_pos fs g b a fits =
    let le : 1 * fs.blocks_per_group ≤ g * fs.blocks_per_group =
      mul-le-mul_right fs.blocks_per_group a.group_pos in
    let lt = a.bit_lt in ground (arith, le)

number_lt :
    (fs : Ext2) (g b : ℕ)
    → Available fs g b
    → fs.block_size * 8 ≤ fs.blocks_per_group
    → fs.group_count * fs.blocks_per_group < u64_mod
    → g * fs.blocks_per_group + b < u64_mod
number_lt fs g b a fits small =
    let le : suc g * fs.blocks_per_group ≤ fs.group_count * fs.blocks_per_group =
      mul-le-mul_right fs.blocks_per_group a.group_lt in
    let e = suc-mul g fs.blocks_per_group in let lt = a.bit_lt in omega (arith, le, e)

take_block_cases :
    (fs : Ext2) (g b : ℕ)
    → Available fs g b
    → fs.block_size * 8 ≤ fs.blocks_per_group
    → g * fs.blocks_per_group + b < u64_mod
    → (take_block fs g (some b)).0 ≡ g * fs.blocks_per_group + b
      × record (take_block fs g (some b)).1 {
        free_blocks = decrement 32 (take_block fs g (some b)).1.free_blocks;
      }
        ≡ block_taken fs g b
unfolding take_block write_descriptor write_block
take_block_cases fs g b a fits small =
    let number : add64 (mul64 g fs.blocks_per_group) b ≡ g * fs.blocks_per_group + b =
      ap (λ x. add64 x b) (mul64-eq_mul g fs.blocks_per_group (omega arith))
      ∙ add64-eq_add (g * fs.blocks_per_group) b small in
    let some_number = number_pos fs g b a fits in simp (number, some_number) (refl, refl)

allocate_block_at :
    (fs : Ext2) (b : ℕ)
    → (locate_free_group fs == 0) ≡ false
    → first_clear
        (fs.blocks (fs.descriptors (locate_free_group fs)).block_bitmap)
        (fs.block_size * 8)
        0
      ≡ some b
    → allocate_block fs ≡ take_block fs (locate_free_group fs) (some b)
unfolding allocate_block
allocate_block_at fs b g e = simp (g, e)

allocate_block-none :
    (fs : Ext2)
    → (locate_free_group fs == 0) ≡ false
    → first_clear
        (fs.blocks (fs.descriptors (locate_free_group fs)).block_bitmap)
        (fs.block_size * 8)
        0
      ≡ none
    → allocate_block fs ≡ (0, emptied fs (locate_free_group fs))
unfolding allocate_block take_block
allocate_block-none fs nz e = rw (nz, e) refl

-- Why no block is given, and what is left: no group from the second on has room by its count, and
-- nothing changes; or the first group that has room by its count has no clear bit, and its count is
-- set to 0.
pub Exhausted : Ext2 → Ext2 → Type 0
Exhausted fs left =
    (((h : ℕ) → 0 < h → h < fs.group_count → (fs.descriptors h).free_block_count ≡ 0) × (left ≡ fs))
    ⊎ ((g : ℕ) × (0 < g)
        × (g < fs.group_count)
        × (0 < (fs.descriptors g).free_block_count)
        × ((b : ℕ) → b < fs.block_size * 8 → fs.blocks (fs.descriptors g).block_bitmap b ≡ true)
        × (left ≡ emptied fs g))

allocate_block_cases :
    (fs : Ext2)
    → fs.block_size * 8 ≤ fs.blocks_per_group
    → fs.group_count * fs.blocks_per_group < u64_mod
    → ((left : Ext2) × (allocate_block fs ≡ (0, left)) × Exhausted fs left)
      ⊎ ((g b : ℕ) × (left : Ext2) × (allocate_block fs ≡ (g * fs.blocks_per_group + b, left))
          × Available fs g b
          × (record left { free_blocks = decrement 32 left.free_blocks } ≡ block_taken fs g b))
unfolding locate_free_group Exhausted
allocate_block_cases fs fits small =
    let g = locate_free_group fs in
    let bits = fs.blocks (fs.descriptors g).block_bitmap in
    elim (locate_from_lem fs (fs.group_count - 1) 1 (omega arith)) [
      | inl z ↦
          let full = λ (h : ℕ) (a : 0 < h) (b : h < fs.group_count).
            locate_from-none fs (fs.group_count - 1) 1 h (omega arith) z (omega arith)
              (omega arith) in
          inl (fs, allocate_block_full fs full, inl (full, refl))
      | inr (counted, group_pos, below) ↦
          let nz : (g == 0) ≡ false = ground arith in
          elim (Option-cases (first_clear bits (fs.block_size * 8) 0)) [
            | inl e ↦ inl (
              emptied fs g,
              allocate_block-none fs nz e,
              inr (
                g,
                group_pos,
                omega arith,
                counted,
                (λ b l.
                    first_clear-none bits (fs.block_size * 8) 0 b e (omega arith) (omega arith)),
                refl,
              ),
            )
            | inr (b, e) ↦
                let (clear, bit_lt) = first_clear_lem bits (fs.block_size * 8) 0 b e in
                let a : Available fs g b = record {
                  group_pos = group_pos;
                  group_lt = omega arith;
                  counted = counted;
                  clear = clear;
                  bit_lt = omega arith;
                } in
                let lt = number_lt fs g b a fits small in
                let (number, state) = take_block_cases fs g b a fits lt in
                inr (
                  g,
                  b,
                  (take_block fs g (some b)).1,
                  allocate_block_at fs b nz e ∙ ap (λ x. (x, (take_block fs g (some b)).1)) number,
                  a,
                  state,
                )
          ]
    ]

-- The inode's fields with the sectors of one more block.
abbrev pub grown : Ext2 → INodeMeta → INodeMeta
grown fs meta = record meta {
  sector_count = (meta.sector_count + fs.block_size / fs.device_block) % 2 ^ 32;
}

-- AllocateBlock of the file system either gives 0, for none, and leaves the inode's fields: then no
-- group from the second on has room by its count, and nothing changes, or the first one that has
-- has no clear bit, and only its count changes, to 0. Or it gives the number of a block of a group
-- that has room by its count, from the second group on. Then the block's bit was clear; it is set,
-- the counts of the group and of the file system go down by one, the sectors of a block are added
-- to the inode's count, the inode's entry on the disk becomes its fields, and nothing else changes.
-- The bits of a bitmap block are no more than the blocks of a group, and the number of blocks fits
-- in 64 bits.
pub new_block_cases :
    (fs : Ext2) (meta : INodeMeta) (inode : ℕ)
    → fs.block_size * 8 ≤ fs.blocks_per_group
    → fs.group_count * fs.blocks_per_group < u64_mod
    → ((left : Ext2) × (new_block fs meta inode ≡ (0, meta, left)) × Exhausted fs left)
      ⊎ ((g b : ℕ) × Available fs g b
          × new_block fs meta inode ≡ (
            g * fs.blocks_per_group + b,
            grown fs meta,
            write_inode_entry (block_taken fs g b) (grown fs meta) inode,
          ))
unfolding new_block write_inode_entry write_descriptor write_block
new_block_cases fs meta inode fits small = elim (allocate_block_cases fs fits small) [
  | inl (left, e, x) ↦ inl (left, rw (new_block, e) refl, x)
  | inr (g, b, left, e, a, state) ↦
      let nz = number_pos fs g b a fits in
      inr (
        g,
        b,
        a,
        rw (new_block, e)
            (rw nz (
              ap
                (λ (t : Ext2). (
                  g * fs.blocks_per_group + b,
                  grown fs meta,
                  write_inode_entry t (grown fs meta) inode,
                ))
                state)),
      )
]
