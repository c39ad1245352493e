-- ===== src/Bitmap/View.antt =====
-- The bits of a bitmap by number: what the operations on one bit of pintos-kaist/lib/kernel/bitmap.c do
-- to them.
use w12_13_vm.Common.{
  ℕ, zero, suc, ◌≤◌, ◌<◌, ◌/◌, ◌%◌, ◌≡◌, refl, Bool, true, false, not, ◌&&◌, some, ◌==◌,
  if◌then◌else◌, arith,
}
use w12_13_vm.Bitmap.{
  Bitmap, elem_bits, bitmap_mark, bitmap_reset, bitmap_flip, bitmap_set, bitmap_test, is_nonzero,
}

-- The bit with a number.
unfoldable pub view : Bitmap → ℕ → Bool
view b i = b.bits (i / elem_bits) (i % elem_bits)

is_nonzero_above :
    (n : ℕ) (elem : ℕ → Bool) (k : ℕ) → n ≤ k → is_nonzero n (λ j. elem j && (j == k)) ≡ false
unfolding is_nonzero
is_nonzero_above zero elem k h = refl
is_nonzero_above (suc n) elem k h = ground (arith, is_nonzero_above n elem k)

is_nonzero_at :
    (n : ℕ) (elem : ℕ → Bool) (k : ℕ) → k < n → is_nonzero n (λ j. elem j && (j == k)) ≡ elem k
unfolding is_nonzero
is_nonzero_at zero elem k h = absurd (omega arith)
is_nonzero_at (suc n) elem k h = ground (arith, is_nonzero_at n elem k, is_nonzero_above n elem k)

pub bitmap_test_lem : (b : Bitmap) (i : ℕ) → i < b.bit_cnt → bitmap_test b i ≡ some (view b i)
unfolding bitmap_test view
bitmap_test_lem b i h =
    ground (arith, is_nonzero_at elem_bits (b.bits (i / elem_bits)) (i % elem_bits))

pub view-mark :
    (b : Bitmap) (i k : ℕ) → view (bitmap_mark b i) k ≡ (if i == k then true else view b k)
unfolding bitmap_mark view
view-mark b i k = ground arith

pub view-reset :
    (b : Bitmap) (i k : ℕ) → view (bitmap_reset b i) k ≡ (if i == k then false else view b k)
unfolding bitmap_reset view
view-reset b i k = ground arith

-- bitmap_flip turns the bit with the number and no other.
pub view-flip :
    (b : Bitmap) (i k : ℕ)
    → view (bitmap_flip b i) k ≡ (if i == k then not (view b k) else view b k)
unfolding bitmap_flip view
view-flip b i k = ground arith

-- bitmap_set changes the bit with the number and no other.
pub view-set :
    (b : Bitmap) (i : ℕ) (value : Bool)
    → i < b.bit_cnt
    → (b' : Bitmap) × (bitmap_set b i value ≡ some b')
      × (b'.bit_cnt ≡ b.bit_cnt)
      × ((k : ℕ) → view b' k ≡ (if i == k then value else view b k))
unfolding bitmap_set
view-set b i true h = (bitmap_mark b i, ground arith, refl, view-mark b i)
view-set b i false h = (bitmap_reset b i, ground arith, refl, view-reset b i)
