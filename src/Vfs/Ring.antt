-- ===== src/Vfs/Ring.antt =====
-- Prism/Containers/RingBuffer.hpp, which the kernel takes from the Prism library: a queue of bytes
-- of bounded size, with the behaviour that the kernel relies on.
use cryptix_os.Common.{
  ℕ, zero, suc, ◌+◌, ◌≤◌, ◌<◌, ◌≡◌, refl, ap, List, [], ◌∷◌, ◌++◌, arith, length, length-append,
  dec_lt,
}

-- The first `n` elements.
abbrev pub take : ℕ → List ℕ → List ℕ
take zero xs = []
take (suc n) [] = []
take (suc n) (x ∷ xs) = x ∷ take n xs

pub record RingOps : Type 1 where
  pub Ring : Type 0
  pub contents : Ring → List ℕ
  pub used : Ring → ℕ
  pub capacity : Ring → ℕ
  pub read : Ring → ℕ → List ℕ × Ring
  pub write : Ring → List ℕ → ℕ × Ring
  pub used-contents : (r : Ring) → used r ≡ length (contents r)
  pub used_bound : (r : Ring) → used r ≤ capacity r
  pub read-contents :
      (r : Ring) (n : ℕ) → n ≤ used r → (read r n).0 ++ contents (read r n).1 ≡ contents r
  pub read-length : (r : Ring) (n : ℕ) → n ≤ used r → length (read r n).0 ≡ n
  pub read-capacity : (r : Ring) (n : ℕ) → capacity (read r n).1 ≡ capacity r
  pub write-contents :
      (r : Ring) (xs : List ℕ)
      → used r + length xs ≤ capacity r
      → contents (write r xs).1 ≡ contents r ++ xs
  pub write-length :
      (r : Ring) (xs : List ℕ) → used r + length xs ≤ capacity r → (write r xs).0 ≡ length xs
  pub write-capacity : (r : Ring) (xs : List ℕ) → capacity (write r xs).1 ≡ capacity r

abbrev pub drop : ℕ → List ℕ → List ℕ
drop zero xs = xs
drop (suc n) [] = []
drop (suc n) (x ∷ xs) = drop n xs

pub length-take : (n : ℕ) (xs : List ℕ) → n ≤ length xs → length (take n xs) ≡ n
length-take zero xs h = refl
length-take (suc n) [] h = absurd (omega arith)
length-take (suc n) (x ∷ xs) h = ap suc (length-take n xs (omega arith))

pub take-drop : (n : ℕ) (xs : List ℕ) → take n xs ++ drop n xs ≡ xs
take-drop zero xs = refl
take-drop (suc n) [] = refl
take-drop (suc n) (x ∷ xs) = ap (λ l. x ∷ l) (take-drop n xs)

pub length-drop : (n : ℕ) (xs : List ℕ) → length (drop n xs) ≤ length xs
length-drop zero xs = omega arith
length-drop (suc n) [] = omega arith
length-drop (suc n) (x ∷ xs) = let h = length-drop n xs in omega arith

-- A list of bytes with a bound on its length.
pub record Queue : Type 0 where
  pub limit : ℕ
  pub items : List ℕ
  pub bounded : length items ≤ limit

abbrev pub put_all :
    (q : Queue) → (xs : List ℕ) → Dec (q.limit < length q.items + length xs) → ℕ × Queue
put_all q xs (yes _) = (0, q)
put_all q xs (no h) = (
  length xs,
  record {
    limit = q.limit;
    items = q.items ++ xs;
    bounded = omega (arith, length-append q.items xs);
  },
)

pub put_all-items :
    (q : Queue) (xs : List ℕ) (d : Dec (q.limit < length q.items + length xs))
    → length q.items + length xs ≤ q.limit
    → (put_all q xs d).1.items ≡ q.items ++ xs
put_all-items q xs (yes l) h = absurd (omega arith)
put_all-items q xs (no _) h = refl

pub put_all-length :
    (q : Queue) (xs : List ℕ) (d : Dec (q.limit < length q.items + length xs))
    → length q.items + length xs ≤ q.limit
    → (put_all q xs d).0 ≡ length xs
put_all-length q xs (yes l) h = absurd (omega arith)
put_all-length q xs (no _) h = refl

pub put_all-limit :
    (q : Queue) (xs : List ℕ) (d : Dec (q.limit < length q.items + length xs))
    → (put_all q xs d).1.limit ≡ q.limit
put_all-limit q xs (yes _) = refl
put_all-limit q xs (no _) = refl

abbrev pub queue_ops : RingOps
queue_ops = record {
  Ring = Queue;
  contents = λ q. q.items;
  used = λ q. length q.items;
  capacity = λ q. q.limit;
  read = λ q n. (
    take n q.items,
    record {
      limit = q.limit;
      items = drop n q.items;
      bounded = omega (arith, length-drop n q.items, q.bounded);
    },
  );
  write = λ q xs. put_all q xs (dec_lt q.limit (length q.items + length xs));
  used-contents = λ q. refl;
  used_bound = λ q. q.bounded;
  read-contents = λ q n h. take-drop n q.items;
  read-length = λ q n h. length-take n q.items h;
  read-capacity = λ q n. refl;
  write-contents = λ q xs h. put_all-items q xs _ h;
  write-length = λ q xs h. put_all-length q xs _ h;
  write-capacity = λ q xs. put_all-limit q xs _;
}
