-- ===== src/Threads/Mlfqs/Formula.antt =====
-- The formula of update_priority in pintos-kaist/threads/thread.c, without fixed-point numbers.
use w12_13_vm.Common.{
  ℕ, ◌+◌, ◌-◌, ◌*◌, ◌/◌, ◌≤◌, ◌<◌, ◌≡◌, ap, ◌∙◌, ltb, if◌then◌else◌, arith, Bool-cases, inl, inr,
}
use w12_13_vm.Common.Int.{ℤ, pos, negsuc, pos_part, neg_part, ◌+ℤ◌, ◌-ℤ◌, ◌*ℤ◌, ◌/ℤ◌}
use w12_13_vm.FixedPoint.{wrap_32, fp_to_int_round, div_fp_int}
use w12_13_vm.Threads.State.{Thread}
use w12_13_vm.Threads.Mlfqs.{raw_priority, clamp}

-- The magnitude of an integer.
abbrev pub magnitude : ℤ → ℕ
magnitude a = pos_part a + neg_part a

-- `p` is 63 - recent_cpu / 4 - 2 * nice, brought to the numbers from 0 to 63, where `recent_cpu` is `c` / 2^14 and
-- the quotient is rounded to an integer `r`. The quarter of `c` has been cut, so `r` is off by a half and three
-- parts of 2^16 at most.
pub record IsFormula (c nice : ℤ) (p : ℕ) : Type 0 where
  pub r : ℤ
  pub not_above : 65536 * pos_part r + neg_part c ≤ 65536 * neg_part r + pos_part c + 32771
  pub not_below : 65536 * neg_part r + pos_part c ≤ 65536 * pos_part r + neg_part c + 32771
  pub clamped : p ≡ (
      let over = 63 + neg_part r + 2 * neg_part nice - (pos_part r + 2 * pos_part nice) in
      if ltb 63 over then 63 else over)

wrap_32_lem : (a : ℤ) → magnitude a < 2147483648 → wrap_32 a ≡ a
unfolding wrap_32
wrap_32_lem (pos n) h = ground arith
wrap_32_lem (negsuc n) h = ground arith

quarter_parts :
    (c : ℤ)
    → magnitude c < 2147483648
    → (pos_part (div_fp_int c (pos 4)) ≡ pos_part c / 4)
      × (neg_part (div_fp_int c (pos 4)) ≡ neg_part c / 4)
unfolding div_fp_int ◌/ℤ◌ wrap_32
quarter_parts (pos n) h = (ground arith, ground arith)
quarter_parts (negsuc n) h = (ground arith, ground arith)

round_parts :
    (q : ℤ)
    → magnitude q < 536870912
    → (pos_part (fp_to_int_round q)
        ≡ (if ltb 0 (neg_part q) then 0 else (pos_part q + 8192) / 16384))
      × (neg_part (fp_to_int_round q)
          ≡ (if ltb 0 (neg_part q) then (neg_part q + 8192) / 16384 else 0))
unfolding fp_to_int_round ◌/ℤ◌ wrap_32 ◌+ℤ◌ ◌-ℤ◌
round_parts (pos n) h = (ground arith, ground arith)
round_parts (negsuc n) h = (ground arith, ground arith)

twice_parts :
    (n : ℤ) → (pos_part (n *ℤ pos 2) ≡ pos_part n * 2) × (neg_part (n *ℤ pos 2) ≡ neg_part n * 2)
unfolding ◌*ℤ◌
twice_parts (pos n) = (ground arith, ground arith)
twice_parts (negsuc n) = (ground arith, ground arith)

magnitude_minus : (a b : ℤ) → magnitude (a -ℤ b) ≤ magnitude a + magnitude b
unfolding ◌-ℤ◌
magnitude_minus a b = ground arith

-- The rounded quarter of a number of 32 bits.
record IsNear (c r : ℤ) : Type 0 where
  small : magnitude r < 16777216
  not_above : 65536 * pos_part r + neg_part c ≤ 65536 * neg_part r + pos_part c + 32771
  not_below : 65536 * neg_part r + pos_part c ≤ 65536 * pos_part r + neg_part c + 32771

IsNear-of :
    (c q r : ℤ)
    → magnitude c < 2147483648
    → (pos_part q ≡ pos_part c / 4) × (neg_part q ≡ neg_part c / 4)
    → (pos_part r ≡ (if ltb 0 (neg_part q) then 0 else (pos_part q + 8192) / 16384))
      × (neg_part r ≡ (if ltb 0 (neg_part q) then (neg_part q + 8192) / 16384 else 0))
    → IsNear c r
IsNear-of (pos n) q r h quarter rounded =
    let none_below : neg_part q ≡ 0 = omega (arith, quarter) in
    let low : neg_part r ≡ 0 = ground (arith, rounded, none_below) in
    let high : pos_part r ≡ (pos_part q + 8192) / 16384 = ground (arith, rounded, none_below) in
    record {
      small = omega (arith, low, high, quarter);
      not_above = omega (arith, low, high, quarter);
      not_below = omega (arith, low, high, quarter);
    }
IsNear-of (negsuc n) q r h quarter rounded = elim (Bool-cases (ltb 0 (neg_part q))) [
  | inl e ↦
      let high : pos_part r ≡ 0 = ground (arith, rounded, e) in
      let low : neg_part r ≡ (neg_part q + 8192) / 16384 = ground (arith, rounded, e) in
      record {
        small = omega (arith, low, high, quarter);
        not_above = omega (arith, low, high, quarter);
        not_below = omega (arith, low, high, quarter);
      }
  | inr e ↦
      let none_below : neg_part q ≡ 0 = ground (arith, e) in
      let high : pos_part r ≡ 0 = ground (arith, rounded, e, quarter) in
      let low : neg_part r ≡ 0 = ground (arith, rounded, e) in
      record {
        small = omega (arith, low, high);
        not_above = omega (arith, low, high, quarter, none_below);
        not_below = omega (arith, low, high, quarter, none_below);
      }
]

-- The subtractions of the formula, from which `wrap_32` takes nothing.
formula_value :
    (r n : ℤ)
    → magnitude r < 16777216
    → magnitude n < 16777216
    → wrap_32 (wrap_32 (pos 63 -ℤ r) -ℤ wrap_32 (n *ℤ pos 2)) ≡ pos 63 -ℤ r -ℤ n *ℤ pos 2
formula_value r n hr hn =
    let t = twice_parts n in
    let first = wrap_32_lem (pos 63 -ℤ r) (omega (arith, magnitude_minus (pos 63) r, hr)) in
    let second = wrap_32_lem (n *ℤ pos 2) (omega (arith, t)) in
    let third = wrap_32_lem (pos 63 -ℤ r -ℤ n *ℤ pos 2) (
      omega (
        arith,
        magnitude_minus (pos 63) r,
        magnitude_minus (pos 63 -ℤ r) (n *ℤ pos 2),
        t,
        hr,
        hn,
      )) in
    rw (first, second) third

clamp-minus :
    (r m : ℤ)
    → clamp (pos 63 -ℤ r -ℤ m) ≡ (
        let over = 63 + neg_part r + neg_part m - (pos_part r + pos_part m) in
        if ltb 63 over then 63 else over)
unfolding clamp ◌-ℤ◌
clamp-minus r m = ground arith

-- The priority that update_priority computes is that of the formula, for a `nice` of a magnitude below 2^24.
pub raw_priority-IsFormula :
    (th : Thread)
    → magnitude th.recent_cpu < 2147483648
    → magnitude th.nice < 16777216
    → IsFormula th.recent_cpu th.nice (clamp (raw_priority th))
unfolding raw_priority
raw_priority-IsFormula th c n =
    let quarter = quarter_parts th.recent_cpu c in
    let q = div_fp_int th.recent_cpu (pos 4) in
    let small : magnitude q < 536870912 = omega (arith, quarter, c) in
    let rounded = round_parts q small in
    let r = fp_to_int_round q in
    let near = IsNear-of th.recent_cpu q r c quarter rounded in
    let t = twice_parts th.nice in
    record {
      r = r;
      not_above = near.not_above;
      not_below = near.not_below;
      clamped =
          ap clamp (formula_value r th.nice near.small n)
          ∙ clamp-minus r (th.nice *ℤ pos 2)
          ∙ ground (arith, t);
    }
