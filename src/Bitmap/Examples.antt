-- ===== src/Bitmap/Examples.antt =====
-- The theorems on pintos-kaist/lib/kernel/bitmap.c at a bitmap of five bits.
use w12_13_vm.Common.{◌≡◌, refl, false, none, some, ◌==◌, arith}
use w12_13_vm.Bitmap.{Bitmap, bitmap_scan}
use w12_13_vm.Bitmap.Scan.{Scanned, bitmap_scan-IsFirstFit}

-- Bit 1 of the five is set.
abbrev one_bit : Bitmap
one_bit = record { bit_cnt = 5; bits = λ idx j. j == 1 }

scan_two : bitmap_scan one_bit 0 2 false ≡ some (some 2)
unfolding bitmap_scan
scan_two = refl

scan_four : bitmap_scan one_bit 0 4 false ≡ some none
unfolding bitmap_scan
scan_four = refl

bitmap_scan-IsFirstFit_example : Scanned one_bit 0 2 false (bitmap_scan one_bit 0 2 false)
bitmap_scan-IsFirstFit_example =
    bitmap_scan-IsFirstFit one_bit (omega arith) 2 false 0 (omega arith)
