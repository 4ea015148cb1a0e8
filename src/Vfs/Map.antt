-- ===== src/Vfs/Map.antt =====
-- Prism/Containers/UnorderedMap.hpp, which the kernel takes from the Prism library: a finite map
-- from integers, with the behaviour that the kernel relies on.
use cryptix_os.Common.{
  ℕ, ◌≤◌, ◌≡◌, refl, ◌≢◌, true, false, Option, none, some, List, [], ◌∷◌, arith, if◌then◌else◌, ℤ,
  pos, negsuc, int_eq, magnitude, pos_injective, ◌+◌, ap, ℕ_discrete,
}

pub record MapOps (V : Type 0) : Type 1 where
  pub Map : Type 0
  pub empty : Map
  pub find : Map → ℤ → Option V
  pub assign : Map → ℤ → V → Map
  pub erase : Map → ℤ → Map
  -- Above all the keys of a map.
  pub above : Map → ℕ
  pub find-empty : (k : ℤ) → find empty k ≡ none
  pub find-assign : (m : Map) (k : ℤ) (v : V) → find (assign m k v) k ≡ some v
  pub find-assign_ne : (m : Map) (k j : ℤ) (v : V) → k ≢ j → find (assign m k v) j ≡ find m j
  pub find-erase : (m : Map) (k : ℤ) → find (erase m k) k ≡ none
  pub find-erase_ne : (m : Map) (k j : ℤ) → k ≢ j → find (erase m k) j ≡ find m j
  pub find-above : (m : Map) (n : ℕ) → above m ≤ n → find m (pos n) ≡ none

pub int_eq_refl : (k : ℤ) → int_eq k k ≡ true
unfolding int_eq
int_eq_refl (pos n) = ground arith
int_eq_refl (negsuc n) = ground arith

pub int_eq_ne : (k j : ℤ) → k ≢ j → int_eq k j ≡ false
unfolding int_eq
int_eq_ne (pos m) (pos n) h = elim (ℕ_discrete m n) [
  | yes q ↦ absurd (h (ap pos q))
  | no q ↦ ground arith
]
int_eq_ne (negsuc m) (negsuc n) h = elim (ℕ_discrete m n) [
  | yes q ↦ absurd (h (ap negsuc q))
  | no q ↦ ground arith
]
int_eq_ne (pos m) (negsuc n) h = refl
int_eq_ne (negsuc m) (pos n) h = refl

-- Association lists over the numbers, in which the latest entry of a key counts.
module _ {V : Type 0} where
  abbrev pub lookup : List (ℤ × Option V) → ℤ → Option V
  lookup [] k = none
  lookup (e ∷ es) k = let later = lookup es k in if int_eq e.0 k then e.1 else later

  abbrev pub key_bound : List (ℤ × Option V) → ℕ
  key_bound [] = 0
  key_bound (e ∷ es) = magnitude e.0 + 1 + key_bound es

  pub lookup-above : (m : List (ℤ × Option V)) (n : ℕ) → key_bound m ≤ n → lookup m (pos n) ≡ none
  lookup-above [] n h = refl
  lookup-above ((pos k, v) ∷ es) n h =
      let q : int_eq (pos k) (pos n) ≡ false =
        int_eq_ne (pos k) (pos n) (λ e. omega (arith, pos_injective k n e)) in
      rw q (lookup-above es n (omega arith))
  lookup-above ((negsuc k, v) ∷ es) n h =
      rw (int_eq_ne (negsuc k) (pos n) (λ e. absurd (cc))) (lookup-above es n (omega arith))

abbrev pub assoc_ops : (V : Type 0) → MapOps V
assoc_ops V = record {
  Map = List (ℤ × Option V);
  empty = [];
  find = lookup;
  assign = λ m k v. (k, some v) ∷ m;
  erase = λ m k. (k, none) ∷ m;
  above = key_bound;
  find-empty = λ k. refl;
  find-assign = λ m k v. rw (int_eq_refl k) refl;
  find-assign_ne = λ m k j v h. rw (int_eq_ne k j h) refl;
  find-erase = λ m k. rw (int_eq_refl k) refl;
  find-erase_ne = λ m k j h. rw (int_eq_ne k j h) refl;
  find-above = lookup-above;
}
