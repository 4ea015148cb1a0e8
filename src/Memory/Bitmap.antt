-- ===== src/Memory/Bitmap.antt =====
-- Prism/Containers/Bitmap.hpp, which the kernel takes from the Prism library: its operations and
-- the behaviour that the allocators rely on. `capacity` is the number of bits it was allocated for.
use cryptix_os.Common.{ℕ, ◌<◌, ◌≡◌, refl, Bool, true, false, ◌==◌, if◌then◌else◌}

pub record BitmapOps : Type 1 where
  pub Bitmap : Type 0
  pub capacity : Bitmap → ℕ
  pub get_size : Bitmap → ℕ
  pub get_index : Bitmap → ℕ → Bool
  pub set_index : Bitmap → ℕ → Bool → Bitmap
  pub allocate : ℕ → Bitmap
  pub set_all : Bitmap → ℕ → Bitmap
  pub get_index-set_index :
      (b : Bitmap) (i : ℕ) (v : Bool) (j : ℕ)
      → i < capacity b
      → get_index (set_index b i v) j ≡ (if i == j then v else get_index b j)
  pub capacity-set_index : (b : Bitmap) (i : ℕ) (v : Bool) → capacity (set_index b i v) ≡ capacity b
  pub capacity-allocate : (n : ℕ) → capacity (allocate n) ≡ n
  pub capacity-set_all : (b : Bitmap) (v : ℕ) → capacity (set_all b v) ≡ capacity b
  pub get_index-set_all :
      (b : Bitmap) (i : ℕ) → i < capacity b → get_index (set_all b 0xff) i ≡ true

-- A bitmap as a function, which has that behaviour.
pub record Bits : Type 0 where
  pub limit : ℕ
  pub bit : ℕ → Bool

abbrev pub bits_ops : BitmapOps
bits_ops = record {
  Bitmap = Bits;
  capacity = λ b. b.limit;
  get_size = λ b. b.limit;
  get_index = λ b i. b.bit i;
  set_index = λ b i v. record b { bit = λ j. if i == j then v else b.bit j };
  allocate = λ n. record { limit = n; bit = λ _. false };
  set_all = λ b v. record b { bit = λ _. if v == 0xff then true else false };
  get_index-set_index = λ b i v j h. refl;
  capacity-set_index = λ b i v. refl;
  capacity-allocate = λ n. refl;
  capacity-set_all = λ b v. refl;
  get_index-set_all = λ b i h. refl;
}
