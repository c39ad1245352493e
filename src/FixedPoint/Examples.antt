-- ===== src/FixedPoint/Examples.antt =====
-- The conversions of pintos-kaist/threads/fixed-point.c at a number.
use w12_13_vm.Common.{◌≡◌, arith}
use w12_13_vm.Common.Int.{negsuc}
use w12_13_vm.FixedPoint.{int_to_fp, fp_to_int, fp_to_int_round}
use w12_13_vm.FixedPoint.Round.{fp_to_int-int_to_fp}

fp_to_int-int_to_fp_example :
    (fp_to_int (int_to_fp (negsuc 19)) ≡ negsuc 19)
    × (fp_to_int_round (int_to_fp (negsuc 19)) ≡ negsuc 19)
fp_to_int-int_to_fp_example = fp_to_int-int_to_fp (negsuc 19) (omega arith, omega arith)
