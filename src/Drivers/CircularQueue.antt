-- ===== src/Drivers/CircularQueue.antt =====
-- Prism/Containers/CircularQueue.hpp, which the kernel takes from the Prism library: a queue of
-- bytes with room for a fixed number of them, with the behaviour that the kernel relies on.
use cryptix_os.Common.{
  ℕ, ◌<◌, ◌≡◌, refl, ap, ◌∙◌, List, [], ◌∷◌, ◌++◌, ltb, if◌then◌else◌, lt→ltb, length,
}

pub record QueueOps : Type 1 where
  pub Queue : Type 0
  pub capacity : ℕ
  pub items : Queue → List ℕ
  pub size : Queue → ℕ
  pub push : Queue → ℕ → Queue
  -- Pop gives the element at the front; PopFront is another name of it.
  pub pop : Queue → ℕ × Queue
  pub pop_front : Queue → ℕ × Queue
  pub back : Queue → ℕ
  pub clear : Queue → Queue
  pub size-items : (q : Queue) → size q ≡ length (items q)
  pub push-items :
      (q : Queue) (b : ℕ) → length (items q) < capacity → items (push q b) ≡ items q ++ b ∷ []
  pub pop-items :
      (q : Queue) (b : ℕ) (rest : List ℕ)
      → items q ≡ b ∷ rest
      → ((pop q).0 ≡ b) × (items (pop q).1 ≡ rest)
  pub pop_front-items :
      (q : Queue) (b : ℕ) (rest : List ℕ)
      → items q ≡ b ∷ rest
      → ((pop_front q).0 ≡ b) × (items (pop_front q).1 ≡ rest)
  pub back-items : (q : Queue) (b : ℕ) (front : List ℕ) → items q ≡ front ++ b ∷ [] → back q ≡ b
  pub clear-items : (q : Queue) → items (clear q) ≡ []

-- A list, in which a push of one byte too many is dropped.
abbrev pub first : List ℕ → ℕ × List ℕ
first [] = (0, [])
first (b ∷ rest) = (b, rest)

abbrev pub last : List ℕ → ℕ
last [] = 0
last (b ∷ []) = b
last (b ∷ c ∷ rest) = last (c ∷ rest)

pub last-snoc : (xs : List ℕ) (b : ℕ) → last (xs ++ b ∷ []) ≡ b
last-snoc [] b = refl
last-snoc (x ∷ []) b = refl
last-snoc (x ∷ y ∷ xs) b = last-snoc (y ∷ xs) b

abbrev pub push_below : ℕ → List ℕ → ℕ → List ℕ
push_below limit q b = if ltb (length q) limit then q ++ b ∷ [] else q

pub push_below_lem :
    (limit : ℕ) (q : List ℕ) (b : ℕ) → length q < limit → push_below limit q b ≡ q ++ b ∷ []
push_below_lem limit q b h = rw (lt→ltb (length q) limit h)

pub first_lem :
    (q : List ℕ) (b : ℕ) (rest : List ℕ) → q ≡ b ∷ rest → ((first q).0 ≡ b) × ((first q).1 ≡ rest)
first_lem q b rest e = rw e (refl, refl)

abbrev pub list_queue : QueueOps
list_queue = record {
  Queue = List ℕ;
  capacity = 4096;
  items = λ q. q;
  size = length;
  push = push_below 4096;
  pop = first;
  pop_front = first;
  back = last;
  clear = λ q. [];
  size-items = λ q. refl;
  push-items = push_below_lem 4096;
  pop-items = first_lem;
  pop_front-items = first_lem;
  back-items = λ q b front e. ap last e ∙ last-snoc front b;
  clear-items = λ q. refl;
}
