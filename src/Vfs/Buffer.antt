-- ===== src/Vfs/Buffer.antt =====
-- Buffer of the Prism library, the bytes of a file: what SynthFsINode relies on. What Resize puts
-- into new bytes, and what a call out of range does, is left open.
use cryptix_os.Common.{ℕ, zero, suc, ◌+◌, ◌≤◌, ◌≡◌, refl, ap, List, [], ◌∷◌, arith, length}

pub record BufferOps : Type 1 where
  pub Buffer : Type 0
  pub empty : Buffer
  pub size : Buffer → ℕ
  pub read : Buffer → ℕ → ℕ → List ℕ
  pub write : Buffer → ℕ → List ℕ → Buffer
  pub resize : Buffer → ℕ → Buffer
  pub size-empty : size empty ≡ 0
  pub size-write : (b : Buffer) (at : ℕ) (xs : List ℕ) → size (write b at xs) ≡ size b
  pub size-resize : (b : Buffer) (n : ℕ) → size (resize b n) ≡ n
  pub length-read : (b : Buffer) (at n : ℕ) → at + n ≤ size b → length (read b at n) ≡ n
  pub read-write :
      (b : Buffer) (at : ℕ) (xs : List ℕ)
      → at + length xs ≤ size b
      → read (write b at xs) at (length xs) ≡ xs
  pub read-write-before :
      (b : Buffer) (at : ℕ) (xs : List ℕ) (from n : ℕ)
      → at + length xs ≤ size b
      → from + n ≤ at
      → read (write b at xs) from n ≡ read b from n
  pub read-resize :
      (b : Buffer) (m from n : ℕ)
      → from + n ≤ size b
      → from + n ≤ m
      → read (resize b m) from n ≡ read b from n

-- Buffers as lists of bytes, with zeros for new bytes.
abbrev pub slice : List ℕ → ℕ → ℕ → List ℕ
slice [] at n = []
slice (x ∷ xs) zero zero = []
slice (x ∷ xs) zero (suc n) = x ∷ slice xs zero n
slice (x ∷ xs) (suc at) n = slice xs at n

abbrev pub overwrite : List ℕ → ℕ → List ℕ → List ℕ
overwrite [] at bs = []
overwrite (x ∷ xs) zero [] = x ∷ xs
overwrite (x ∷ xs) zero (b ∷ bs) = b ∷ overwrite xs zero bs
overwrite (x ∷ xs) (suc at) bs = x ∷ overwrite xs at bs

abbrev pub resized : List ℕ → ℕ → List ℕ
resized xs zero = []
resized [] (suc n) = 0 ∷ resized [] n
resized (x ∷ xs) (suc n) = x ∷ resized xs n

pub length-overwrite :
    (xs : List ℕ) (at : ℕ) (bs : List ℕ) → length (overwrite xs at bs) ≡ length xs
length-overwrite [] at bs = refl
length-overwrite (x ∷ xs) zero [] = refl
length-overwrite (x ∷ xs) zero (b ∷ bs) = ap suc (length-overwrite xs zero bs)
length-overwrite (x ∷ xs) (suc at) bs = ap suc (length-overwrite xs at bs)

pub length-resized : (xs : List ℕ) (n : ℕ) → length (resized xs n) ≡ n
length-resized xs zero = refl
length-resized [] (suc n) = ap suc (length-resized [] n)
length-resized (x ∷ xs) (suc n) = ap suc (length-resized xs n)

pub length-slice : (xs : List ℕ) (at n : ℕ) → at + n ≤ length xs → length (slice xs at n) ≡ n
length-slice [] at n h = omega arith
length-slice (x ∷ xs) zero zero h = refl
length-slice (x ∷ xs) zero (suc n) h = ap suc (length-slice xs zero n (omega arith))
length-slice (x ∷ xs) (suc at) n h = length-slice xs at n (omega arith)

pub slice-overwrite :
    (xs : List ℕ) (at : ℕ) (bs : List ℕ)
    → at + length bs ≤ length xs
    → slice (overwrite xs at bs) at (length bs) ≡ bs
slice-overwrite [] at [] h = refl
slice-overwrite [] at (b ∷ bs) h = absurd (omega arith)
slice-overwrite (x ∷ xs) zero [] h = refl
slice-overwrite (x ∷ xs) zero (b ∷ bs) h =
    ap (λ ys. b ∷ ys) (slice-overwrite xs zero bs (omega arith))
slice-overwrite (x ∷ xs) (suc at) bs h = slice-overwrite xs at bs (omega arith)

pub slice-overwrite-before :
    (xs : List ℕ) (at : ℕ) (bs : List ℕ) (from n : ℕ)
    → from + n ≤ at
    → slice (overwrite xs at bs) from n ≡ slice xs from n
slice-overwrite-before [] at bs from n h = refl
slice-overwrite-before (x ∷ xs) zero [] from n h = refl
slice-overwrite-before (x ∷ xs) zero (b ∷ bs) zero zero h = refl
slice-overwrite-before (x ∷ xs) zero (b ∷ bs) (suc from) n h = absurd (omega arith)
slice-overwrite-before (x ∷ xs) zero (b ∷ bs) zero (suc n) h = absurd (omega arith)
slice-overwrite-before (x ∷ xs) (suc at) bs zero zero h = refl
slice-overwrite-before (x ∷ xs) (suc at) bs zero (suc n) h =
    ap (λ ys. x ∷ ys) (slice-overwrite-before xs at bs zero n (omega arith))
slice-overwrite-before (x ∷ xs) (suc at) bs (suc from) n h =
    slice-overwrite-before xs at bs from n (omega arith)

pub slice-resized :
    (xs : List ℕ) (m from n : ℕ)
    → from + n ≤ length xs
    → from + n ≤ m
    → slice (resized xs m) from n ≡ slice xs from n
slice-resized [] zero from n h k = refl
slice-resized [] (suc m) zero zero h k = refl
slice-resized [] (suc m) zero (suc n) h k = absurd (omega arith)
slice-resized [] (suc m) (suc from) n h k = absurd (omega arith)
slice-resized (x ∷ xs) zero zero zero h k = refl
slice-resized (x ∷ xs) zero zero (suc n) h k = absurd (omega arith)
slice-resized (x ∷ xs) zero (suc from) n h k = absurd (omega arith)
slice-resized (x ∷ xs) (suc m) zero zero h k = refl
slice-resized (x ∷ xs) (suc m) zero (suc n) h k =
    ap (λ ys. x ∷ ys) (slice-resized xs m zero n (omega arith) (omega arith))
slice-resized (x ∷ xs) (suc m) (suc from) n h k =
    slice-resized xs m from n (omega arith) (omega arith)

abbrev pub list_buffer : BufferOps
list_buffer = record {
  Buffer = List ℕ;
  empty = [];
  size = length;
  read = slice;
  write = overwrite;
  resize = resized;
  size-empty = refl;
  size-write = length-overwrite;
  size-resize = length-resized;
  length-read = length-slice;
  read-write = slice-overwrite;
  read-write-before = λ b at xs from n _ h. slice-overwrite-before b at xs from n h;
  read-resize = slice-resized;
}
