-- ===== src/Common/Lists.antt =====
-- Lists measured and indexed by native numbers, and predicates by recursion on a list.
use Prim.Native.Nat.{ℕ, zero, suc, ◌+◌}
use mathlib.Core.Path.{◌≡◌}
use mathlib.Core.List.{List, [], ◌∷◌, ◌++◌}
use mathlib.Core.Option.{Option, none, some}
use native.Mathlib.Omega.{arith}

module _ {ℓ} {A : Type ℓ} where
  abbrev pub length : List A → ℕ
  length [] = 0
  length (x ∷ xs) = suc (length xs)

  abbrev pub get_elem? : List A → ℕ → Option A
  get_elem? [] i = none
  get_elem? (x ∷ xs) zero = some x
  get_elem? (x ∷ xs) (suc i) = get_elem? xs i

  -- A write out of bounds changes nothing.
  abbrev pub set : List A → ℕ → A → List A
  set [] i v = []
  set (x ∷ xs) zero v = v ∷ xs
  set (x ∷ xs) (suc i) v = x ∷ set xs i v

  pub length-append : (xs ys : List A) → length (xs ++ ys) ≡ length xs + length ys
  length-append [] ys = omega arith
  length-append (x ∷ xs) ys = omega (arith, length-append xs ys)

  -- `P` holds of every element.
  abbrev pub All {κ} : (A → Type κ) → List A → Type κ
  All P [] = Unit
  All P (x ∷ xs) = P x × All P xs

module _ {ℓ} {A : Type ℓ} where
  -- `x` is put somewhere into `xs`, and the rest keeps its order.
  pub data Inserted (x : A) : List A → List A → Type ℓ where
    here : (xs : List A) → Inserted x xs (x ∷ xs)
    there : (y : A) {xs ys : List A} → Inserted x xs ys → Inserted x (y ∷ xs) (y ∷ ys)

  module _ {κ} (P : A → Type κ) where
    pub Inserted-All : {x : A} {xs ys : List A} → Inserted x xs ys → P x → All P xs → All P ys
    Inserted-All (here xs) p ps = (p, ps)
    Inserted-All (there y i) p (q, ps) = (q, Inserted-All i p ps)

    pub All-Inserted : {x : A} {xs ys : List A} → Inserted x xs ys → All P ys → P x × All P xs
    All-Inserted (here xs) (p, ps) = (p, ps)
    All-Inserted (there y i) (q, ps) = let (p, rest) = All-Inserted i ps in (p, (q, rest))

  pub All-map {κ μ} :
      {P : A → Type κ} {Q : A → Type μ} (f : (a : A) → P a → Q a) (xs : List A)
      → All P xs
      → All Q xs
  All-map f [] ps = tt
  All-map f (x ∷ xs) (p, ps) = (f x p, All-map f xs ps)
