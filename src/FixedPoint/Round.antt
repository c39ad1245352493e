-- ===== src/FixedPoint/Round.antt =====
-- Conversions between integers and fixed-point numbers of pintos-kaist/threads/fixed-point.c.
use w12_13_vm.Common.{ℕ, ◌*◌, ◌+◌, ◌<◌, ◌≤◌, ◌≡◌, arith}
use w12_13_vm.Common.Int.{ℤ, pos, negsuc, ◌+ℤ◌, ◌-ℤ◌, ◌*ℤ◌, ◌/ℤ◌, pos_part, neg_part}
use w12_13_vm.FixedPoint.{int_to_fp, fp_to_int, fp_to_int_round, wrap_32}

-- The numbers whose absolute values fit the 17 bits before the point.
abbrev pub IsSmall : ℤ → Type 0
IsSmall n = (pos_part n < 131072) × (neg_part n < 131072)

-- A number that fits 32 bits is stored as it is.
pub wrap_32-of_fits : (n : ℤ) → pos_part n < 2147483648 → neg_part n ≤ 2147483648 → wrap_32 n ≡ n
unfolding wrap_32
wrap_32-of_fits (pos n) a b = ground arith
wrap_32-of_fits (negsuc n) a b = ground arith

int_to_fp-pos : (n : ℕ) → n < 131072 → int_to_fp (pos n) ≡ pos (n * 16384)
unfolding int_to_fp ◌*ℤ◌
int_to_fp-pos n h = ground (arith, wrap_32-of_fits (pos (n * 16384)))

int_to_fp-negsuc : (n : ℕ) → n < 131072 → int_to_fp (negsuc n) ≡ negsuc (n * 16384 + 16383)
unfolding int_to_fp ◌*ℤ◌
int_to_fp-negsuc n h = ground (arith, wrap_32-of_fits (negsuc (n * 16384 + 16383)))

round-pos : (n : ℕ) → n < 131072 → fp_to_int_round (pos (n * 16384)) ≡ pos n
unfolding fp_to_int_round ◌/ℤ◌ ◌+ℤ◌
round-pos n h = ground (arith, wrap_32-of_fits (pos (n * 16384 + 8192)))

round-negsuc : (n : ℕ) → n < 131071 → fp_to_int_round (negsuc (n * 16384 + 16383)) ≡ negsuc n
unfolding fp_to_int_round ◌/ℤ◌ ◌-ℤ◌
round-negsuc n h = ground (arith, wrap_32-of_fits (negsuc (n * 16384 + 24575)))

-- An integer whose absolute value fits 17 bits comes back from its fixed-point number, be that cut off
-- or rounded.
pub fp_to_int-int_to_fp :
    (n : ℤ) → IsSmall n → (fp_to_int (int_to_fp n) ≡ n) × (fp_to_int_round (int_to_fp n) ≡ n)
unfolding fp_to_int ◌/ℤ◌
fp_to_int-int_to_fp (pos n) h = rw (int_to_fp-pos n h.0) (ground arith, round-pos n h.0)
fp_to_int-int_to_fp (negsuc n) h =
    rw (int_to_fp-negsuc n (omega (arith, h.1))) (ground arith, round-negsuc n (omega (arith, h.1)))
