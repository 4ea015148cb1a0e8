-- ===== src/Common/Intervals.antt =====
-- Half-open intervals of native numbers that do not meet.
use Prim.Native.Nat.{ℕ, ◌+◌, ◌*◌, ◌≤◌, ◌<◌}
use mathlib.Core.Logic.{◌⊎◌, inl, inr}
use native.Mathlib.Decide.{dec_lt}
use native.Mathlib.Nat.{mul-le-mul_right}
use native.Mathlib.Omega.{arith}

-- Two intervals with no point in common lie one behind the other.
pub apart_of_disjoint :
    (a m b n : ℕ)
    → 0 < m
    → 0 < n
    → ((j : ℕ) → a ≤ j → j < a + m → b ≤ j → j < b + n → ⊥)
    → (a + m ≤ b) ⊎ (b + n ≤ a)
apart_of_disjoint a m b n p q d = elim (dec_lt b (a + m)) [
  | no above ↦ inl (omega arith)
  | yes under ↦ elim (dec_lt a (b + n)) [
    | no below ↦ inr (omega arith)
    | yes over ↦ absurd (elim (dec_lt a b) [
      | yes l ↦ d b (omega arith) (omega arith) (omega arith) (omega arith)
      | no g ↦ d a (omega arith) (omega arith) (omega arith) (omega arith)
    ])
  ]
]

-- The same in units of `k`.
pub apart_scaled :
    (a m b n k : ℕ) → (a + m ≤ b) ⊎ (b + n ≤ a) → (a * k + m * k ≤ b * k) ⊎ (b * k + n * k ≤ a * k)
apart_scaled a m b n k (inl h) = inl (omega (arith, mul-le-mul_right k h))
apart_scaled a m b n k (inr h) = inr (omega (arith, mul-le-mul_right k h))
