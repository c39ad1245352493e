-- ===== src/Bitmap/Multiple.antt =====
-- The operations of pintos-kaist/lib/kernel/bitmap.c that set, count or test several bits.
use w12_13_vm.Common.{
  ℕ, zero, suc, ◌+◌, ◌≤◌, ◌<◌, ◌≡◌, refl, ◌∙◌, Bool, true, false, not, ◌&&◌, Option, none, some,
  ltb, leb, if◌then◌else◌, arith, if_true,
}
use w12_13_vm.Bitmap.{
  Bitmap, is_range, same, set_loop, bitmap_set_multiple, bitmap_set_all, bitmap_create, count_loop,
  bitmap_count, contains_loop, bitmap_contains, bitmap_any, bitmap_all, bitmap_none,
}
use w12_13_vm.Bitmap.View.{view, view-set, bitmap_test_lem}

-- The number of bits fits a `size_t`.
abbrev pub IsSized : Bitmap → Type 0
IsSized b = b.bit_cnt < 18446744073709551616

-- The bits from `start` on, `cnt` of them, lie in the bitmap.
abbrev pub Holds : Bitmap → ℕ → ℕ → Type 0
Holds b start cnt = start + cnt ≤ b.bit_cnt

pub is_range-true :
    (b : Bitmap) (start cnt : ℕ) → IsSized b → Holds b start cnt → is_range b start cnt ≡ true
is_range-true b start cnt z h = ground arith

-- A bitmap after `value` has been put on some bits.
pub record Changed (b : Bitmap) (start cnt : ℕ) (value : Bool) (r : Option Bitmap) : Type 0 where
  pub after : Bitmap
  pub returned : r ≡ some after
  pub same_cnt : after.bit_cnt ≡ b.bit_cnt
  pub new_view :
      (k : ℕ) → view after k ≡ (if leb start k && ltb k (start + cnt) then value else view b k)

set_loop-Changed :
    (n i : ℕ) (value : Bool) (b : Bitmap)
    → i + n ≤ b.bit_cnt
    → Changed b i n value (set_loop n i value b)
unfolding set_loop
set_loop-Changed zero i value b h = record {
  after = b;
  returned = refl;
  same_cnt = refl;
  new_view = λ k. ground arith;
}
set_loop-Changed (suc n) i value b h =
    let (b', e, c, w) = view-set b i value (omega arith) in
    let r = set_loop-Changed n (i + 1) value b' (omega (arith, c)) in
    record {
      after = r.after;
      returned = rw e r.returned;
      same_cnt = r.same_cnt ∙ c;
      new_view = λ k. ground (arith, r.new_view k, w k);
    }

-- bitmap_set_multiple of bits that lie in the bitmap does not fail, and sets these and no others.
pub bitmap_set_multiple-Changed :
    (b : Bitmap) (start cnt : ℕ) (value : Bool)
    → IsSized b
    → Holds b start cnt
    → Changed b start cnt value (bitmap_set_multiple b start cnt value)
unfolding bitmap_set_multiple
bitmap_set_multiple-Changed b start cnt value z h =
    rw (is_range-true b start cnt z h) (set_loop-Changed cnt start value b h)

-- A created bitmap is all clear.
pub bitmap_create-clear :
    (memory : ℕ → ℕ → Bool) (bit_cnt : ℕ)
    → bit_cnt < 18446744073709551616
    → (b : Bitmap) × (bitmap_create true (some memory) bit_cnt ≡ some (some b))
      × (b.bit_cnt ≡ bit_cnt)
      × ((k : ℕ) → k < bit_cnt → view b k ≡ false)
unfolding bitmap_create bitmap_set_all
bitmap_create-clear memory bit_cnt z =
    let b0 : Bitmap = record { bit_cnt = bit_cnt; bits = memory } in
    let c = bitmap_set_multiple-Changed b0 0 bit_cnt false z (omega arith) in
    (c.after, rw (c.returned, bitmap_create) refl, c.same_cnt, λ k h. ground (arith, c.new_view k))

-- How many of the bits from `i` on have the value.
unfoldable pub count_bits : (ℕ → Bool) → ℕ → ℕ → Bool → ℕ
count_bits f i zero value = 0
count_bits f i (suc n) value = (if same (f i) value then 1 else 0) + count_bits f (i + 1) n value

count_loop_lem :
    (n i : ℕ) (value : Bool) (b : Bitmap)
    → i + n ≤ b.bit_cnt
    → count_loop n i value b ≡ some (count_bits (view b) i n value)
unfolding count_loop count_bits
count_loop_lem zero i value b h = refl
count_loop_lem (suc n) i value b h =
    ground (arith, bitmap_test_lem b i, count_loop_lem n (i + 1) value b)

contains_loop_lem :
    (n i : ℕ) (value : Bool) (b : Bitmap)
    → i + n ≤ b.bit_cnt
    → contains_loop n i value b ≡ some (ltb 0 (count_bits (view b) i n value))
unfolding contains_loop count_bits
contains_loop_lem zero i value b h = refl
contains_loop_lem (suc n) i value b h =
    ground (arith, bitmap_test_lem b i, contains_loop_lem n (i + 1) value b)

module _ (b : Bitmap) (start cnt : ℕ) (z : IsSized b) (h : Holds b start cnt) where
  -- On bits that lie in the bitmap, bitmap_count, bitmap_contains, bitmap_any, bitmap_none and bitmap_all
  -- do not fail, and answer by how many of the bits have the value: that many; at least one; one that is
  -- set; none that is set; none that is clear.
  pub bitmap_count-queries :
      (value : Bool)
      → (bitmap_count b start cnt value ≡ some (count_bits (view b) start cnt value))
        × (bitmap_contains b start cnt value ≡ some (ltb 0 (count_bits (view b) start cnt value)))
        × (bitmap_any b start cnt ≡ some (ltb 0 (count_bits (view b) start cnt true)))
        × (bitmap_none b start cnt ≡ some (not (ltb 0 (count_bits (view b) start cnt true))))
        × (bitmap_all b start cnt ≡ some (not (ltb 0 (count_bits (view b) start cnt false))))
  unfolding bitmap_count bitmap_contains bitmap_any bitmap_none bitmap_all
  bitmap_count-queries value =
      let r = is_range-true b start cnt z h in
      let contains = λ (v : Bool).
        if_true (contains_loop cnt start v b) none r ∙ contains_loop_lem cnt start v b h in
      (
        if_true _ none r ∙ count_loop_lem cnt start value b h,
        contains value,
        contains true,
        rw (contains true) refl,
        rw (contains false) refl,
      )
