-- ===== src/Common/Words.antt =====
-- Unsigned 64-bit words (`usize`, `u64`, `upointer`) with their wrap-around.
use Prim.Native.Nat.{ℕ, ◌+◌, ◌-◌, ◌*◌, ◌%◌, ◌^◌, ◌≤◌, ◌<◌}
use mathlib.Core.Path.{◌≡◌}
use native.Mathlib.Omega.{arith}

abbrev pub u64_mod : ℕ
u64_mod = 2 ^ 64

unfoldable pub add64 : ℕ → ℕ → ℕ
add64 a b = (a + b) % u64_mod

unfoldable pub sub64 : ℕ → ℕ → ℕ
sub64 a b = (a + (u64_mod - b % u64_mod)) % u64_mod

unfoldable pub mul64 : ℕ → ℕ → ℕ
mul64 a b = a * b % u64_mod

pub add64-eq_add : (a b : ℕ) → a + b < u64_mod → add64 a b ≡ a + b
unfolding add64
add64-eq_add a b h = omega arith

pub sub64-eq_sub : (a b : ℕ) → b ≤ a → a < u64_mod → sub64 a b ≡ a - b
unfolding sub64
sub64-eq_sub a b h k = omega arith

pub mul64-eq_mul : (a b : ℕ) → a * b < u64_mod → mul64 a b ≡ a * b
unfolding mul64
mul64-eq_mul a b h = omega arith

-- Taking back what was added gives the word again, wrapped or not.
pub sub64-add64 : (a b : ℕ) → a < u64_mod → sub64 (add64 a b) b ≡ a
unfolding add64 sub64
sub64-add64 a b h = omega arith

pub add64-lt : (a b : ℕ) → add64 a b < u64_mod
unfolding add64
add64-lt a b = omega arith

-- Adding to the first summand adds to the sum.
pub add64_add : (a b c : ℕ) → add64 (add64 a c) b ≡ add64 (add64 a b) c
unfolding add64
add64_add a b c = omega arith

-- Adding to the second summand adds to the sum.
pub add64_add_right : (a b c : ℕ) → add64 a (add64 b c) ≡ add64 (add64 a b) c
unfolding add64
add64_add_right a b c = omega arith
