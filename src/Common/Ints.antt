-- ===== src/Common/Ints.antt =====
-- Signed machine integers: ℤ, and the 32-bit type i32 (two's complement).
use Prim.Native.Nat.{ℕ, zero, suc, ◌+◌, ◌-◌, ◌%◌, ◌^◌, ◌<◌}
use mathlib.Core.Path.{◌≡◌, refl, ap}
use mathlib.Core.Bool.{Bool, true, false}
use native.Mathlib.Omega.{arith}
use cryptix_os.Common.Words.{u64_mod, add64, add64-eq_add}
use cryptix_os.Common.Tests.{ltb, ◌==◌, if◌then◌else◌, lt→ltb}

-- pos n is n, negsuc n is - (n + 1).
pub data ℤ : Type 0 where
  pos negsuc : ℕ → ℤ

abbrev pub i32_mod : ℕ
i32_mod = 2 ^ 32

abbrev pub i32_max : ℕ
i32_max = 2 ^ 31

abbrev of_bits : ℕ → ℤ
of_bits r = if ltb r i32_max then pos r else negsuc (i32_mod - 1 - r)

-- The conversion to i32.
unfoldable pub to_i32 : ℤ → ℤ
to_i32 (pos n) = of_bits (n % i32_mod)
to_i32 (negsuc n) = of_bits (i32_mod - 1 - n % i32_mod)

unfoldable pub increment : ℤ → ℤ
increment (pos n) = pos (n + 1)
increment (negsuc zero) = pos 0
increment (negsuc (suc n)) = negsuc n

unfoldable pub is_negative : ℤ → Bool
is_negative (pos n) = false
is_negative (negsuc n) = true

unfoldable pub int_eq : ℤ → ℤ → Bool
int_eq (pos m) (pos n) = m == n
int_eq (negsuc m) (negsuc n) = m == n
int_eq (pos m) (negsuc n) = false
int_eq (negsuc m) (pos n) = false

pub to_i32_small : (n : ℕ) → n < i32_max → to_i32 (pos n) ≡ pos n
unfolding to_i32
to_i32_small n h = let e : n % i32_mod ≡ n = omega arith in rw (e, lt→ltb n i32_max h)

abbrev pub magnitude : ℤ → ℕ
magnitude (pos n) = n
magnitude (negsuc n) = n

pub pos_injective : (m n : ℕ) → pos m ≡ pos n → m ≡ n
pos_injective m n e = ap magnitude e

-- The conversions between i64 and u64.
unfoldable pub to_u64 : ℤ → ℕ
to_u64 (pos n) = n % u64_mod
to_u64 (negsuc n) = u64_mod - 1 - n % u64_mod

unfoldable pub to_i64 : ℕ → ℤ
to_i64 r = if ltb r (2 ^ 63) then pos r else negsuc (u64_mod - 1 - r)

-- Addition of i64.
unfoldable pub add_i64 : ℤ → ℤ → ℤ
unfolding to_u64 to_i64
add_i64 a b = to_i64 (add64 (to_u64 a) (to_u64 b))

pub to_i64_small : (n : ℕ) → n < 2 ^ 63 → to_i64 n ≡ pos n
unfolding to_i64
to_i64_small n h = let e : ltb n (2 ^ 63) ≡ true = lt→ltb n (2 ^ 63) h in rw e refl

pub add_i64-eq_add : (m n : ℕ) → m + n < 2 ^ 63 → add_i64 (pos m) (pos n) ≡ pos (m + n)
unfolding add_i64 to_u64
add_i64-eq_add m n h =
    let a : m % u64_mod ≡ m = omega arith in
    let b : n % u64_mod ≡ n = omega arith in
    let c : add64 m n ≡ m + n = add64-eq_add m n (omega arith) in
    rw (a, b, c) (to_i64_small (m + n) h)
