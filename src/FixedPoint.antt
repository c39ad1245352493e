-- ===== src/FixedPoint.antt =====
-- The 17.14 fixed-point numbers of pintos-kaist/threads/fixed-point.c. An `int` is an integer that each
-- operation brings back into 32 bits.
mod Examples
pub mod Round
use w12_13_vm.Common.{ℕ, ◌-◌, ◌%◌, Bool, ltb, if◌then◌else◌}
use w12_13_vm.Common.Int.{ℤ, pos, negsuc, ◌+ℤ◌, ◌-ℤ◌, ◌*ℤ◌, ◌/ℤ◌, ltb_ℤ}

-- The value of a number that is stored in an `int`: modulo 2 ^ 32, from - 2 ^ 31 on.
unfoldable pub wrap_32 : ℤ → ℤ
wrap_32 (pos n) =
    let r = n % 4294967296 in if ltb r 2147483648 then pos r else negsuc (4294967295 - r)
wrap_32 (negsuc n) =
    let r = n % 4294967296 in if ltb r 2147483648 then negsuc r else pos (4294967295 - r)

abbrev pub scale : ℤ
scale = pos 16384

unfoldable pub int_to_fp : ℤ → ℤ
int_to_fp n = wrap_32 (n *ℤ scale)

unfoldable pub fp_to_int : ℤ → ℤ
fp_to_int x = x /ℤ scale

unfoldable pub fp_to_int_round : ℤ → ℤ
fp_to_int_round x =
    if ltb_ℤ x (pos 0) then wrap_32 (x -ℤ pos 8192) /ℤ scale else wrap_32 (x +ℤ pos 8192) /ℤ scale

unfoldable pub add_fp : ℤ → ℤ → ℤ
add_fp x y = wrap_32 (x +ℤ y)

unfoldable pub sub_fp : ℤ → ℤ → ℤ
sub_fp x y = wrap_32 (x -ℤ y)

unfoldable pub add_fp_int : ℤ → ℤ → ℤ
add_fp_int x n = wrap_32 (x +ℤ wrap_32 (n *ℤ scale))

unfoldable pub sub_fp_int : ℤ → ℤ → ℤ
sub_fp_int x n = wrap_32 (x -ℤ wrap_32 (n *ℤ scale))

-- The product of two numbers of 32 bits fits the `int64_t` that it is computed in.
unfoldable pub mul_fp : ℤ → ℤ → ℤ
mul_fp x y = wrap_32 (x *ℤ y /ℤ scale)

unfoldable pub mul_fp_int : ℤ → ℤ → ℤ
mul_fp_int x n = wrap_32 (x *ℤ n)

-- A division by 0 traps; the callers divide by other numbers.
unfoldable pub div_fp : ℤ → ℤ → ℤ
div_fp x y = wrap_32 (x *ℤ scale /ℤ y)

unfoldable pub div_fp_int : ℤ → ℤ → ℤ
div_fp_int x n = wrap_32 (x /ℤ n)
