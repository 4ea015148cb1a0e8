-- ===== src/Common/Prism.antt =====
-- Prism/Utility/Math.hpp, the arithmetic that the kernel takes from the Prism library, with the
-- behaviour that it relies on.
use Prim.Native.Nat.{ℕ, zero, suc, ◌+◌, ◌-◌, ◌*◌, ◌/◌, ◌%◌, ◌^◌, ◌≤◌, ◌<◌}
use mathlib.Core.Path.{◌≡◌, refl}
use mathlib.Core.Bool.{Bool, true, false, ◌&&◌, ◌||◌}
use native.Mathlib.Omega.{arith}
use native.Mathlib.Nat.{div-mul-le_self, lt-div-mul-add, mul-mod_left}
use cryptix_os.Common.Tests.{ltb, ◌==◌, if◌then◌else◌}

pub record MathOps : Type 0 where
  pub is_power_of_two : ℕ → Bool
  pub max : ℕ → ℕ → ℕ
  pub align_up : ℕ → ℕ → ℕ
  pub is_power_of_two-pos : (n : ℕ) → is_power_of_two n ≡ true → 0 < n
  pub max_lem : (a b : ℕ) → max a b ≡ (if ltb a b then b else a)
  pub le-align_up : (n a : ℕ) → 0 < a → n ≤ align_up n a
  pub align_up-mod : (n a : ℕ) → 0 < a → align_up n a % a ≡ 0
  pub align_up-lt : (n a : ℕ) → 0 < a → align_up n a < n + a

-- Functions with that behaviour.
abbrev pub is_power_below : ℕ → ℕ → Bool
is_power_below zero n = false
is_power_below (suc k) n = ltb 0 n && 2 ^ k == n || is_power_below k n

pub is_power_below-pos : (k n : ℕ) → is_power_below k n ≡ true → 0 < n
is_power_below-pos zero n h = ground arith
is_power_below-pos (suc k) zero h = is_power_below-pos k zero h
is_power_below-pos (suc k) (suc n) h = omega arith

abbrev pub round_up : ℕ → ℕ → ℕ
round_up n a = (n + (a - 1)) / a * a

pub round_up_bounds : (n a : ℕ) → 0 < a → (n ≤ round_up n a) × (round_up n a < n + a)
round_up_bounds n a h = (
  omega (arith, lt-div-mul-add {a = n + (a - 1)} h),
  omega (arith, div-mul-le_self (n + (a - 1)) a),
)

pub round_up-mod : (n a : ℕ) → round_up n a % a ≡ 0
round_up-mod n a = mul-mod_left ((n + (a - 1)) / a) a

abbrev pub math_ops : MathOps
math_ops = record {
  is_power_of_two = is_power_below 64;
  max = λ a b. if ltb a b then b else a;
  align_up = round_up;
  is_power_of_two-pos = is_power_below-pos 64;
  max_lem = λ a b. refl;
  le-align_up = λ n a h. (round_up_bounds n a h).0;
  align_up-mod = λ n a h. round_up-mod n a;
  align_up-lt = λ n a h. (round_up_bounds n a h).1;
}
