-- ===== src/Bitmap.antt =====
-- pintos-kaist/lib/kernel/bitmap.c. An `elem_type` is the function of its 64 bits, and `bits` is the
-- array of elements. A `size_t` sum wraps around at 2 ^ 64. `none` is a failed ASSERT; where a result
-- may be BITMAP_ERROR, it is an Option, with `none` for that value.
pub mod View
pub mod Multiple
pub mod Scan
mod Examples
use w12_13_vm.Common.{
  ℕ, zero, suc, ◌+◌, ◌-◌, ◌*◌, ◌/◌, ◌%◌, Bool, true, false, not, ◌&&◌, ◌||◌, Option, none, some,
  ltb, leb, ◌==◌, if◌then◌else◌, ◌>>=◌, update,
}

pub record Bitmap : Type 0 where
  pub bit_cnt : ℕ
  pub bits : ℕ → ℕ → Bool

abbrev pub elem_bits : ℕ
elem_bits = 64

unfoldable pub elem_idx : ℕ → ℕ
elem_idx bit_idx = bit_idx / elem_bits

unfoldable pub bit_mask : ℕ → ℕ → Bool
bit_mask bit_idx j = j == bit_idx % elem_bits

unfoldable pub elem_cnt : ℕ → ℕ
elem_cnt bit_cnt = (bit_cnt + elem_bits - 1) / elem_bits

unfoldable pub byte_cnt : ℕ → ℕ
unfolding elem_cnt
byte_cnt bit_cnt = 8 * elem_cnt bit_cnt

-- The sum of two `size_t`.
abbrev pub add_size : ℕ → ℕ → ℕ
add_size a b = (a + b) % 18446744073709551616

abbrev pub same : Bool → Bool → Bool
same a b = if a then b else not b

unfoldable pub bitmap_mark : Bitmap → ℕ → Bitmap
unfolding elem_idx bit_mask
bitmap_mark b bit_idx =
    let idx = elem_idx bit_idx in
    record b { bits = update b.bits idx (λ j. b.bits idx j || bit_mask bit_idx j) }

unfoldable pub bitmap_reset : Bitmap → ℕ → Bitmap
unfolding elem_idx bit_mask
bitmap_reset b bit_idx =
    let idx = elem_idx bit_idx in
    record b { bits = update b.bits idx (λ j. b.bits idx j && not (bit_mask bit_idx j)) }

unfoldable pub bitmap_flip : Bitmap → ℕ → Bitmap
unfolding elem_idx bit_mask
bitmap_flip b bit_idx =
    let idx = elem_idx bit_idx in
    record b { bits = update b.bits idx (λ j. not (same (b.bits idx j) (bit_mask bit_idx j))) }

unfoldable pub bitmap_set : Bitmap → ℕ → Bool → Option Bitmap
unfolding bitmap_mark bitmap_reset
bitmap_set b idx value =
    if ltb idx b.bit_cnt
    then some (if value then bitmap_mark b idx else bitmap_reset b idx)
    else none

-- An element differs from 0 if one of its bits is set.
unfoldable pub is_nonzero : ℕ → (ℕ → Bool) → Bool
is_nonzero zero elem = false
is_nonzero (suc n) elem = elem n || is_nonzero n elem

unfoldable pub bitmap_test : Bitmap → ℕ → Option Bool
unfolding elem_idx bit_mask is_nonzero
bitmap_test b idx =
    if ltb idx b.bit_cnt
    then some (is_nonzero elem_bits (λ j. b.bits (elem_idx idx) j && bit_mask idx j))
    else none

-- The test with which the functions on several bits begin.
abbrev pub is_range : Bitmap → ℕ → ℕ → Bool
is_range b start cnt = leb start b.bit_cnt && leb (add_size start cnt) b.bit_cnt

unfoldable pub set_loop : ℕ → ℕ → Bool → Bitmap → Option Bitmap
unfolding bitmap_set
set_loop zero i value b = some b
set_loop (suc n) i value b = do b' ← bitmap_set b i value; set_loop n (i + 1) value b'

unfoldable pub bitmap_set_multiple : Bitmap → ℕ → ℕ → Bool → Option Bitmap
unfolding set_loop
bitmap_set_multiple b start cnt value =
    if is_range b start cnt then set_loop cnt start value b else none

unfoldable pub bitmap_set_all : Bitmap → Bool → Option Bitmap
unfolding bitmap_set_multiple
bitmap_set_all b value = bitmap_set_multiple b 0 b.bit_cnt value

-- Whether malloc has room for the struct, and the elements that it gives for the bits. The inner `none`
-- is NULL.
unfoldable pub bitmap_create : Bool → Option (ℕ → ℕ → Bool) → ℕ → Option (Option Bitmap)
unfolding bitmap_set_all
bitmap_create has_struct memory bit_cnt = elim memory [
  | some bits ↦
      let cleared = bitmap_set_all (record { bit_cnt = bit_cnt; bits = bits }) false in
      if has_struct then (do b ← cleared; some (some b)) else some none
  | none ↦ some (
      if has_struct && (bit_cnt == 0)
      then some (record { bit_cnt = bit_cnt; bits = λ _ _. false })
      else none)
]

unfoldable pub count_loop : ℕ → ℕ → Bool → Bitmap → Option ℕ
unfolding bitmap_test
count_loop zero i value b = some 0
count_loop (suc n) i value b = do
  t ← bitmap_test b i
  value_cnt ← count_loop n (i + 1) value b
  some (if same t value then value_cnt + 1 else value_cnt)

unfoldable pub bitmap_count : Bitmap → ℕ → ℕ → Bool → Option ℕ
unfolding count_loop
bitmap_count b start cnt value = if is_range b start cnt then count_loop cnt start value b else none

unfoldable pub contains_loop : ℕ → ℕ → Bool → Bitmap → Option Bool
unfolding bitmap_test
contains_loop zero i value b = some false
contains_loop (suc n) i value b = do
  t ← bitmap_test b i
  let rest = contains_loop n (i + 1) value b
  if same t value then some true else rest

unfoldable pub bitmap_contains : Bitmap → ℕ → ℕ → Bool → Option Bool
unfolding contains_loop
bitmap_contains b start cnt value =
    if is_range b start cnt then contains_loop cnt start value b else none

unfoldable pub bitmap_any : Bitmap → ℕ → ℕ → Option Bool
unfolding bitmap_contains
bitmap_any b start cnt = bitmap_contains b start cnt true

unfoldable pub bitmap_none : Bitmap → ℕ → ℕ → Option Bool
unfolding bitmap_contains
bitmap_none b start cnt = do c ← bitmap_contains b start cnt true; some (not c)

unfoldable pub bitmap_all : Bitmap → ℕ → ℕ → Option Bool
unfolding bitmap_contains
bitmap_all b start cnt = do c ← bitmap_contains b start cnt false; some (not c)

-- The for loop of bitmap_scan, with the rounds that are left.
unfoldable pub scan_loop : ℕ → ℕ → ℕ → Bool → Bitmap → Option (Option ℕ)
unfolding bitmap_contains
scan_loop zero i cnt value b = some none
scan_loop (suc n) i cnt value b = do
  c ← bitmap_contains b i cnt (not value)
  let rest = scan_loop n (i + 1) cnt value b
  if c then rest else some (some i)

unfoldable pub bitmap_scan : Bitmap → ℕ → ℕ → Bool → Option (Option ℕ)
unfolding scan_loop
bitmap_scan b start cnt value =
    if leb start b.bit_cnt
    then (if leb cnt b.bit_cnt
        then scan_loop (b.bit_cnt - cnt + 1 - start) start cnt value b
        else some none)
    else none

unfoldable pub bitmap_scan_and_flip : Bitmap → ℕ → ℕ → Bool → Option (Option ℕ × Bitmap)
unfolding bitmap_scan bitmap_set_multiple
bitmap_scan_and_flip b start cnt value = do
  idx ← bitmap_scan b start cnt value
  elim idx [
    | none ↦ some (none, b)
    | some i ↦ do b' ← bitmap_set_multiple b i cnt (not value); some (some i, b')
  ]
