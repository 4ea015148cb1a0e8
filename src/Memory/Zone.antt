-- ===== src/Memory/Zone.antt =====
-- Kernel/Memory/MemoryZone.hpp: one entry of the boot memory map, and the bump allocation from it
-- that serves before the frame allocator is set up. A pointer is its address, 0 the null pointer.
use cryptix_os.Common.{
  ℕ, ◌+◌, ◌≤◌, ◌<◌, ◌≡◌, ◌≢◌, ◌⊎◌, inl, inr, Bool, true, false, not, ◌||◌, if◌then◌else◌, arith,
  ltb, add64, sub64, u64_mod, add64-eq_add, sub64-eq_sub, Bool-cases, dec_lt,
}

pub data MemoryZoneType : Type 0 where
  usable reserved acpi_reclaimable acpi_nvs : MemoryZoneType
  bad_memory bootloader_reclaimable kernel_and_modules framebuffer : MemoryZoneType

abbrev pub is_usable : MemoryZoneType → Bool
is_usable usable = true
is_usable _ = false

pub record MemoryZone : Type 0 where
  pub base : ℕ
  pub size : ℕ
  pub kind : MemoryZoneType

-- The address that is handed out, or null, and the zone that is left.
pub allocate : MemoryZone → ℕ → ℕ × MemoryZone
allocate z bytes =
    if ltb z.size bytes || not (is_usable z.kind)
    then (0, z)
    else (z.base, record z { base = add64 z.base bytes; size = sub64 z.size bytes })

-- The zone ends within the address space.
pub record IsZone (z : MemoryZone) : Type 0 where
  pub in_space : z.base + z.size < u64_mod

-- What an allocation of `bytes` hands out and leaves.
pub record Split (z : MemoryZone) (bytes p : ℕ) (rest : MemoryZone) : Type 0 where
  pub was_usable : z.kind ≡ usable
  pub at_bottom : p ≡ z.base
  pub bottom : rest.base ≡ z.base + bytes
  pub top : rest.base + rest.size ≡ z.base + z.size
  pub same_kind : rest.kind ≡ z.kind

pub allocate_fits :
    (z : MemoryZone) (bytes : ℕ)
    → IsZone z
    → z.kind ≡ usable
    → bytes ≤ z.size
    → Split z bytes (allocate z bytes).0 (allocate z bytes).1
unfolding allocate
allocate_fits z bytes v k h = ground (arith, add64-eq_add z.base bytes, sub64-eq_sub z.size bytes)

allocate_refuses :
    (z : MemoryZone) (bytes : ℕ) → (z.kind ≢ usable) ⊎ (z.size < bytes) → allocate z bytes ≡ (0, z)
unfolding allocate
allocate_refuses z bytes (inl h) = ground arith
allocate_refuses z bytes (inr h) = ground arith

-- An allocation from a zone that ends within the address space hands out the bottom of the zone
-- and leaves the rest, ending where it ended; where the zone is not usable or too small the
-- result is null and the zone is left as it was.
pub allocate_splits :
    (z : MemoryZone) (bytes : ℕ)
    → IsZone z
    → Split z bytes (allocate z bytes).0 (allocate z bytes).1
      ⊎ ((allocate z bytes ≡ (0, z)) × ((z.kind ≢ usable) ⊎ (z.size < bytes)))
allocate_splits z bytes v = elim (zone_cases z bytes) [
  | inl (k, h) ↦ inl (allocate_fits z bytes v k h)
  | inr h ↦ inr (allocate_refuses z bytes h, h)
]
  where
    zone_cases :
        (z : MemoryZone) (bytes : ℕ)
        → ((z.kind ≡ usable) × (bytes ≤ z.size)) ⊎ ((z.kind ≢ usable) ⊎ (z.size < bytes))
    zone_cases z bytes = elim (Bool-cases (is_usable z.kind)) [
      | inl u ↦ elim (dec_lt z.size bytes) [
        | yes l ↦ inr (inr l)
        | no g ↦ inl (ground arith, omega arith)
      ]
      | inr u ↦ inr (inl (λ e. ground arith))
    ]
