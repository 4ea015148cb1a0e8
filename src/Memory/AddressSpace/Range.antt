-- ===== src/Memory/AddressSpace/Range.antt =====
-- The overlap tests of Kernel/Memory/AddressRange.hpp.
use cryptix_os.Memory.AddressSpace.{AddressRange, contains_range, intersects}
use cryptix_os.Common.{ℕ, ◌≡◌, inl, inr, not, arith, ltb, Bool-cases}

-- Contains(base, length) answers true exactly where Intersects answers false: it holds of the
-- ranges that have no byte in common with this one, and of none that lies inside it.
contains_range-intersects :
    (r : AddressRange) (base size : ℕ)
    → contains_range r base size ≡ not (intersects r (record { base = base; size = size }))
unfolding contains_range intersects
contains_range-intersects r base size = elim (Bool-cases (ltb base r.base)) [
  | inl l ↦ rw l (ground arith)
  | inr g ↦ rw g (ground arith)
]
