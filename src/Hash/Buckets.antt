-- ===== src/Hash/Buckets.antt =====
-- The number of buckets in pintos-kaist/lib/kernel/hash.c.
use Prim.Native.Nat.{bit_and, bit_and-bitwise, digits}
use w12_13_vm.Common.{
  ℕ, zero, suc, ◌-◌, ◌/◌, ◌≤◌, ◌<◌, ◌≡◌, min, true, false, ltb, if◌then◌else◌, arith, Bool-cases,
  inl, inr,
}
use w12_13_vm.Hash.{
  Hash, find_bucket, turn_off_least_1bit, is_power_of_2, power_loop, best_bucket_cnt,
}

digits_le : (n a b : ℕ) → digits (λ b. zero) min n a b ≤ b
digits_le zero a b = omega arith
digits_le (suc n) zero b = omega arith
digits_le (suc n) (suc a) b = ground (arith, digits_le n (suc a / 2) (b / 2))

bit_and_le : (a b : ℕ) → bit_and a b ≤ b
bit_and_le a b = rw (bit_and-bitwise a b) (digits_le a a b)

-- A bucket's number lies in the table.
pub find_bucket_le : (h : Hash) (e : ℕ) → 0 < h.bucket_cnt → find_bucket h e < h.bucket_cnt
unfolding find_bucket
find_bucket_le h e p = omega (arith, bit_and_le (h.hash e) (h.bucket_cnt - 1))

turn_off_lt : (x : ℕ) → 0 < x → turn_off_least_1bit x < x
unfolding turn_off_least_1bit
turn_off_lt x p = omega (arith, bit_and_le x (x - 1))

still_positive : (x : ℕ) → 0 < x → is_power_of_2 x ≡ false → 0 < turn_off_least_1bit x
unfolding is_power_of_2
still_positive x p z = ground arith

pub power_positive : (x : ℕ) → is_power_of_2 x ≡ true → 0 < x
unfolding is_power_of_2
power_positive x z = ground arith

-- With the number as fuel the loop ends at a power of two.
power_loop_lem : (f x : ℕ) → 0 < x → x ≤ f → is_power_of_2 (power_loop f x) ≡ true
unfolding power_loop
power_loop_lem zero x p h = absurd (omega arith)
power_loop_lem (suc f) x p h = elim (Bool-cases (is_power_of_2 x)) [
  | inl z ↦ rw (z, power_loop) z
  | inr z ↦
      let next = turn_off_lt x p in
      rw (z, power_loop)
        (power_loop_lem f (turn_off_least_1bit x) (still_positive x p z) (omega (arith, next)))
]

pub best_bucket_cnt_lem : (elem_cnt : ℕ) → is_power_of_2 (best_bucket_cnt elem_cnt) ≡ true
unfolding best_bucket_cnt
best_bucket_cnt_lem elem_cnt =
    let at_least : ℕ = if ltb (elem_cnt / 2) 4 then 4 else elem_cnt / 2 in
    power_loop_lem at_least at_least (ground arith) (omega arith)
