-- ===== src/Library/Strings/Compare.antt =====
-- memcmp and memchr.
use cryptix_os.Library.Strings.{Bytes, memcmp, memchr}
use cryptix_os.Common.{
  ℕ, zero, suc, ◌+◌, ◌-◌, ◌<◌, ◌≡◌, refl, ◌≢◌, ◌⊎◌, inl, inr, true, false, none, some, arith,
  dec_lt, ℕ_discrete, ltb, if◌then◌else◌, ==_iff, Bool-cases, ℤ, pos, negsuc, int_eq,
}

-- The `n` bytes from `p` and from `q` on are the same.
abbrev pub Same : Bytes → ℕ → ℕ → ℕ → Type 0
Same m p q n = (i : ℕ) → i < n → m (p + i) ≡ m (q + i)

shift-Same : (m : Bytes) (p q n : ℕ) → m p ≡ m q → Same m (p + 1) (q + 1) n → Same m p q (suc n)
shift-Same m p q n e s i h = elim (dec_lt 0 i) [
  | yes l ↦
      let a : p + i ≡ p + 1 + (i - 1) = omega arith in
      let b : q + i ≡ q + 1 + (i - 1) = omega arith in rw (a, b) (s (i - 1) (omega arith))
  | no z ↦ let a : p + i ≡ p = omega arith in let b : q + i ≡ q = omega arith in rw (a, b) e
]

-- memcmp answers 0 if the objects are the same; otherwise the sign of its answer is that of the
-- first bytes that differ.
memcmp_cases :
    (len : ℕ) (m : Bytes) (p q : ℕ)
    → ((memcmp len m p q ≡ pos 0) × Same m p q len)
      ⊎ (k : ℕ) × ((k < len)
          × Same m p q k
          × (m (p + k) ≢ m (q + k))
          × (memcmp len m p q ≡ (if ltb (m (p + k)) (m (q + k)) then negsuc 0 else pos 1)))
unfolding memcmp
memcmp_cases zero m p q = inl (refl, λ i h. absurd (omega arith))
memcmp_cases (suc len) m p q = elim (ℕ_discrete (m p) (m q)) [
  | no ne ↦ inr (0, (omega arith, (λ i h. absurd (omega arith)), (λ e. ground arith), ground arith))
  | yes e ↦ elim (memcmp_cases len m (p + 1) (q + 1)) [
    | inl (z, s) ↦ inl (rw ((==_iff (m p) (m q)).1 e) z, shift-Same m p q len e s)
    | inr (k, (l, s, ne, z)) ↦
        let a : p + suc k ≡ p + 1 + k = omega arith in
        let b : q + suc k ≡ q + 1 + k = omega arith in
        inr (
          suc k,
          (
            omega arith,
            shift-Same m p q k e s,
            rw (a, b) ne,
            rw (a, b, (==_iff (m p) (m q)).1 e) z,
          ),
        )
  ]
]

-- memchr answers the first address whose byte is `ch`, or nothing if no byte of the object is.
memchr_cases :
    (len : ℕ) (m : Bytes) (p : ℕ) (ch : ℤ)
    → ((memchr len m p ch ≡ none) × ((i : ℕ) → i < len → int_eq (pos (m (p + i))) ch ≡ false))
      ⊎ (k : ℕ) × ((k < len)
          × (memchr len m p ch ≡ some (p + k))
          × (int_eq (pos (m (p + k))) ch ≡ true)
          × ((i : ℕ) → i < k → int_eq (pos (m (p + i))) ch ≡ false))
unfolding memchr
memchr_cases zero m p ch = inl (refl, λ i h. absurd (omega arith))
memchr_cases (suc len) m p ch =
    let z : p + 0 ≡ p = omega arith in
    let step : (i : ℕ) → 0 < i → p + i ≡ p + 1 + (i - 1) = λ i h. omega arith in
    elim (Bool-cases (int_eq (pos (m p)) ch)) [
      | inl hit ↦ inr (0, (omega arith, rw (hit, z) refl, rw z hit, λ i h. absurd (omega arith)))
      | inr miss ↦ elim (memchr_cases len m (p + 1) ch) [
        | inl (e, out) ↦ inl (rw miss e, later p ch len miss out)
        | inr (k, (l, e, hit, out)) ↦
            let a : p + suc k ≡ p + 1 + k = omega arith in
            inr (suc k, (omega arith, rw (miss, a) e, rw a hit, later p ch k miss out))
      ]
    ]
  where
    later :
        (p : ℕ) (ch : ℤ) (n : ℕ)
        → int_eq (pos (m p)) ch ≡ false
        → ((i : ℕ) → i < n → int_eq (pos (m (p + 1 + i))) ch ≡ false)
        → (i : ℕ) → i < suc n
        → int_eq (pos (m (p + i))) ch ≡ false
    later p ch n miss out i h = elim (dec_lt 0 i) [
      | yes l ↦ let a : p + i ≡ p + 1 + (i - 1) = omega arith in rw a (out (i - 1) (omega arith))
      | no z ↦ let a : p + i ≡ p = omega arith in rw a miss
    ]
