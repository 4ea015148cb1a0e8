-- ===== src/Library/Strings/Terminated.antt =====
-- strlen, strcmp and strncmp: loops that a zero byte or a difference ends.
use cryptix_os.Library.Strings.{Bytes, strlen, signed, difference, strcmp, strncmp}
use cryptix_os.Common.{
  ℕ, zero, suc, ◌+◌, ◌-◌, ◌≤◌, ◌<◌, ◌≡◌, refl, sym, ap, ◌≢◌, ◌⊎◌, inl, inr, true, false, not, ◌&&◌,
  some, arith, ℕ_discrete, ltb, ◌==◌, if◌then◌else◌, ==_iff, Bool-cases, u64_mod, sub64,
  sub64-eq_sub, pos,
}

strlen_from :
    (fuel : ℕ) (m : Bytes) (str l k : ℕ)
    → l ≤ k
    → k < l + fuel
    → m (str + k) ≡ 0
    → ((i : ℕ) → i < k → m (str + i) ≢ 0)
    → strlen fuel m str l ≡ some k
unfolding strlen
strlen_from zero m str l k le lt z nz = absurd (omega arith)
strlen_from (suc fuel) m str l k le lt z nz = elim (ℕ_discrete l k) [
  | yes e ↦ let h : (m (str + l) == 0) ≡ true = rw e ((==_iff _ 0).1 z) in rw (h, e) refl
  | no ne ↦
      let n = nz l (omega arith) in
      let h : (m (str + l) == 0) ≡ false = ground arith in
      rw h (strlen_from fuel m str (l + 1) k (omega arith) (omega arith) z nz)
]

-- With enough fuel strlen returns the distance to the first zero byte.
strlen_lem :
    (fuel : ℕ) (m : Bytes) (str k : ℕ)
    → k < fuel
    → m (str + k) ≡ 0
    → ((i : ℕ) → i < k → m (str + i) ≢ 0)
    → strlen fuel m str 0 ≡ some k
strlen_lem fuel m str k enough z nz = strlen_from fuel m str 0 k (omega arith) (omega arith) z nz

-- The first `k` bytes of the strings are the same, and none of them is zero.
abbrev pub Prefix : Bytes → ℕ → ℕ → ℕ → Type 0
Prefix m a b k = (i : ℕ) → i < k → (m (a + i) ≢ 0) × (m (a + i) ≡ m (b + i))

-- Behind `k` bytes one of the strings ends, or they differ.
abbrev pub Ends : Bytes → ℕ → ℕ → ℕ → Type 0
Ends m a b k = (m (a + k) ≡ 0) ⊎ (m (b + k) ≡ 0) ⊎ (m (a + k) ≢ m (b + k))

tail-Prefix : (m : Bytes) (a b k : ℕ) → Prefix m a b (suc k) → Prefix m (a + 1) (b + 1) k
tail-Prefix m a b k f i h =
    let p : a + 1 + i ≡ a + suc i = omega arith in
    let q : b + 1 + i ≡ b + suc i = omega arith in rw (p, q) (f (suc i) (omega arith))

head-Prefix :
    (m : Bytes) (a b k : ℕ)
    → Prefix m a b (suc k)
    → (not (m a == 0) && not (m b == 0) && m a == m b) ≡ true
head-Prefix m a b k f =
    let p : a + 0 ≡ a = omega arith in
    let q : b + 0 ≡ b = omega arith in
    let (nz, e) = f 0 (omega arith) in
    let nz' : m a ≢ 0 = rw p at nz in let e' : m a ≡ m b = rw (p, q) at e in ground arith

Ends-head :
    (m : Bytes) (a b : ℕ) → Ends m a b 0 → (not (m a == 0) && not (m b == 0) && m a == m b) ≡ false
Ends-head m a b f =
    let p : a + 0 ≡ a = omega arith in
    let q : b + 0 ≡ b = omega arith in
    let g : (m a ≡ 0) ⊎ (m b ≡ 0) ⊎ (m a ≢ m b) = rw (p, q) at f in ground arith

-- With enough fuel strcmp returns the difference of the bytes at which one of the strings ends or
-- they differ.
strcmp_lem :
    (fuel : ℕ) (m : Bytes) (a b k : ℕ)
    → k < fuel
    → Prefix m a b k
    → Ends m a b k
    → strcmp fuel m a b ≡ some (difference (m (a + k)) (m (b + k)))
unfolding strcmp
strcmp_lem zero m a b k enough same ends = absurd (omega arith)
strcmp_lem (suc fuel) m a b zero enough same ends =
    let p : a + 0 ≡ a = omega arith in
    let q : b + 0 ≡ b = omega arith in rw (Ends-head m a b ends, p, q) refl
strcmp_lem (suc fuel) m a b (suc k) enough same ends =
    let p : a + suc k ≡ a + 1 + k = omega arith in
    let q : b + suc k ≡ b + 1 + k = omega arith in
    let ends' : Ends m (a + 1) (b + 1) k = rw (p, q) at ends in
    rw (head-Prefix m a b k same, p, q)
      (strcmp_lem fuel m (a + 1) (b + 1) k (omega arith) (tail-Prefix m a b k same) ends')

difference_self : (x y : ℕ) → x ≡ y → difference x y ≡ pos 0
unfolding difference signed
difference_self x y e = ground arith

strncmp-zero : (fuel : ℕ) (m : Bytes) (a b : ℕ) → 0 < fuel → strncmp fuel m a b 0 ≡ some (pos 0)
unfolding strncmp sub64
strncmp-zero zero m a b h = absurd (omega arith)
strncmp-zero (suc fuel) m a b h =
    elim (Bool-cases (not (m a == 0) && not (m b == 0) && m a == m b)) [
      | inr other ↦ rw other refl
      | inl same ↦
          let e : m a ≡ m b = ground arith in rw same (ap some (difference_self (m a) (m b) e))
    ]

-- With enough fuel strncmp returns 0 if the strings are the same for `len` bytes without an end,
-- and otherwise the difference of the bytes at which one of them ends or they differ.
strncmp_lem :
    (fuel : ℕ) (m : Bytes) (a b len k : ℕ)
    → k < fuel
    → len < u64_mod
    → Prefix m a b k
    → (k ≡ len) ⊎ ((k < len) × Ends m a b k)
    → strncmp fuel m a b len ≡ some (if k == len then pos 0 else difference (m (a + k)) (m (b + k)))
unfolding strncmp
strncmp_lem fuel m a b len zero enough w same (inl e) =
    let z : len ≡ 0 = sym e in rw z (strncmp-zero fuel m a b enough)
strncmp_lem zero m a b len k enough w same (inr h) = absurd (omega arith)
strncmp_lem zero m a b len (suc k) enough w same (inl h) = absurd (omega arith)
strncmp_lem (suc fuel) m a b len zero enough w same (inr (l, ends)) =
    let p : a + 0 ≡ a = omega arith in
    let q : b + 0 ≡ b = omega arith in
    let n : (len == 0) ≡ false = ground arith in
    let n' : (0 == len) ≡ false = ground arith in rw (Ends-head m a b ends, p, q, n, n') refl
strncmp_lem (suc fuel) m a b len (suc k) enough w same h =
    let p : a + suc k ≡ a + 1 + k = omega arith in
    let q : b + suc k ≡ b + 1 + k = omega arith in
    let less : sub64 len 1 ≡ len - 1 = sub64-eq_sub len 1 (ground arith) w in
    let some_left : ltb 0 len ≡ true = ground arith in
    let c : (suc k == len) ≡ (k == len - 1) = ground arith in
    let h' : (k ≡ len - 1) ⊎ ((k < len - 1) × Ends m (a + 1) (b + 1) k) = elim h [
      | inl e ↦ inl (omega arith)
      | inr (l, ends) ↦ inr (omega arith, rw (p, q) at ends)
    ] in
    rw (head-Prefix m a b k same, some_left, less, p, q, c)
      (strncmp_lem fuel m (a + 1) (b + 1) (len - 1) k (omega arith) (omega arith)
        (tail-Prefix m a b k same) h')
