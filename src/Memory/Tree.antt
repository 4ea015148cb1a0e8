-- ===== src/Memory/Tree.antt =====
-- Prism/Containers/RedBlackTree.hpp, which the kernel takes from the Prism library: a map from
-- addresses that is walked in the order of its keys, with the behaviour that the kernel relies on.
use cryptix_os.Common.{
  ℕ, ◌<◌, ◌≡◌, refl, ◌≢◌, false, List, [], ◌∷◌, arith, dec_lt, ltb, ◌==◌, if◌then◌else◌, All,
  Inserted, here, there, Bool-cases, inl, inr, le→not-ltb, ==_iff, All-Inserted,
}
use mathlib.Core.Path.{subst}

-- No entry has the key `k`.
abbrev pub Fresh : {V : Type 0} → ℕ → List (ℕ × V) → Type 0
Fresh k = All (λ e. e.0 ≢ k)

-- The keys rise along the list, from above `k` on.
abbrev pub Sorted : {V : Type 0} → List (ℕ × V) → Type 0
Sorted [] = Unit
Sorted (e ∷ es) = All (λ f. e.0 < f.0) es × Sorted es

pub record TreeOps (V : Type 0) : Type 1 where
  pub Tree : Type 0
  pub empty : Tree
  pub entries : Tree → List (ℕ × V)
  pub insert : Tree → ℕ → V → Tree
  pub erase : Tree → ℕ → Tree
  pub entries-empty : entries empty ≡ []
  pub entries-Sorted : (t : Tree) → Sorted (entries t)
  pub insert-Inserted :
      (t : Tree) (k : ℕ) (v : V)
      → Fresh k (entries t)
      → Inserted (k, v) (entries t) (entries (insert t k v))
  pub erase-Inserted :
      (t : Tree) (k : ℕ) (v : V) (rest : List (ℕ × V))
      → Inserted (k, v) rest (entries t)
      → entries (erase t k) ≡ rest
  pub erase-fresh : (t : Tree) (k : ℕ) → Fresh k (entries t) → entries (erase t k) ≡ entries t

-- A sorted list of entries, which has that behaviour.
module _ {V : Type 0} where
  abbrev pub put : ℕ → V → List (ℕ × V) → List (ℕ × V)
  put k v [] = (k, v) ∷ []
  put k v (e ∷ es) =
      let later = put k v es in
      if ltb k e.0 then (k, v) ∷ e ∷ es else if e.0 == k then (k, v) ∷ es else e ∷ later

  abbrev pub drop_key : ℕ → List (ℕ × V) → List (ℕ × V)
  drop_key k [] = []
  drop_key k (e ∷ es) = let later = drop_key k es in if e.0 == k then es else e ∷ later

  All-above : (i j : ℕ) (es : List (ℕ × V)) → i < j → All (λ f. j < f.0) es → All (λ f. i < f.0) es
  All-above i j [] h a = tt
  All-above i j (e ∷ es) h (a, as_) = (omega arith, All-above i j es h as_)

  put-above :
      (i k : ℕ) (v : V) (es : List (ℕ × V))
      → i < k
      → All (λ f. i < f.0) es
      → All (λ f. i < f.0) (put k v es)
  put-above i k v [] h a = (h, tt)
  put-above i k v (e ∷ es) h (a, as_) = ground (arith, put-above i k v es h as_)

  pub put-Sorted : (k : ℕ) (v : V) (es : List (ℕ × V)) → Sorted es → Sorted (put k v es)
  put-Sorted k v [] s = (tt, tt)
  put-Sorted k v (e ∷ es) (a, s) = elim (dec_lt k e.0) [
    | yes l ↦ ground (arith, All-above k e.0 es l a)
    | no g ↦ elim (dec_lt e.0 k) [
      | yes l ↦ ground (arith, put-above e.0 k v es l a, put-Sorted k v es s)
      | no n ↦
          let q : e.0 ≡ k = omega arith in
          let above : All (λ f. k < f.0) es = subst (λ m. All (λ f. m < f.0) es) q a in
          rw (le→not-ltb k e.0 (omega arith), (==_iff e.0 k).1 q) (above, s)
    ]
  ]

  pub put-Inserted :
      (k : ℕ) (v : V) (es : List (ℕ × V)) → Fresh k es → Inserted (k, v) es (put k v es)
  put-Inserted k v [] f = here []
  put-Inserted k v (e ∷ es) (n, f) = elim (Bool-cases (ltb k e.0)) [
    | inl l ↦ rw l (here (e ∷ es))
    | inr g ↦
        let q : (e.0 == k) ≡ false = ground arith in rw (g, q) (there e (put-Inserted k v es f))
  ]

  drop_key-above :
      (i k : ℕ) (es : List (ℕ × V)) → All (λ f. i < f.0) es → All (λ f. i < f.0) (drop_key k es)
  drop_key-above i k [] a = tt
  drop_key-above i k (e ∷ es) (a, as_) = ground (arith, drop_key-above i k es as_)

  pub drop_key-Sorted : (k : ℕ) (es : List (ℕ × V)) → Sorted es → Sorted (drop_key k es)
  drop_key-Sorted k [] s = tt
  drop_key-Sorted k (e ∷ es) (a, s) =
      ground (arith, drop_key-above e.0 k es a, drop_key-Sorted k es s)

  pub drop_key-Fresh : (k : ℕ) (es : List (ℕ × V)) → Fresh k es → drop_key k es ≡ es
  drop_key-Fresh k [] f = refl
  drop_key-Fresh k (e ∷ es) (n, f) = ground (arith, drop_key-Fresh k es f)

  pub drop_key-Inserted :
      (k : ℕ) (v : V) (rest es : List (ℕ × V))
      → Inserted (k, v) rest es
      → Sorted es
      → drop_key k es ≡ rest
  drop_key-Inserted k v rest es (here _) s = rw ((==_iff k k).1 refl)
  drop_key-Inserted k v rest es (there y i) (a, s) =
      let (later, _) = All-Inserted (λ f. y.0 < f.0) i a in
      let q : (y.0 == k) ≡ false = ground arith in rw (q, drop_key-Inserted k v _ _ i s)

pub record SortedList (V : Type 0) : Type 0 where
  pub items : List (ℕ × V)
  pub sorted : Sorted items

abbrev pub list_ops : (V : Type 0) → TreeOps V
list_ops V = record {
  Tree = SortedList V;
  empty = record { items = []; sorted = tt };
  entries = λ t. t.items;
  insert = λ t k v. record { items = put k v t.items; sorted = put-Sorted k v t.items t.sorted };
  erase = λ t k. record { items = drop_key k t.items; sorted = drop_key-Sorted k t.items t.sorted };
  entries-empty = refl;
  entries-Sorted = λ t. t.sorted;
  insert-Inserted = λ t k v f. put-Inserted k v t.items f;
  erase-Inserted = λ t k v rest i. drop_key-Inserted k v rest t.items i t.sorted;
  erase-fresh = λ t k f. drop_key-Fresh k t.items f;
}
