-- ===== src/Swap/Full.antt =====
-- A swap disk without a free slot, in pintos-kaist/vm/anon.c.
use w12_13_vm.Common.{ℕ, ◌<◌, ◌≡◌, true, false, Option, none, some, arith}
use w12_13_vm.Bitmap.{Bitmap, bitmap_test, bitmap_scan_and_flip}
use w12_13_vm.Bitmap.View.{view}
use w12_13_vm.Bitmap.Multiple.{IsSized}
use w12_13_vm.Bitmap.Scan.{IsFirstFit, bitmap_scan_and_flip-Flipped}
use w12_13_vm.Swap.{Swap, anon_swap_out, table_idx_error}

out_of_table : (b : Bitmap) → IsSized b → bitmap_test b table_idx_error ≡ none
unfolding bitmap_test
out_of_table b z = ground arith

full-of :
    (p : ℕ) (s : Swap) (place : Option ℕ) (b : Bitmap)
    → IsSized s.swap_table
    → bitmap_scan_and_flip s.swap_table 0 1 false ≡ some (place, b)
    → IsFirstFit (view s.swap_table) s.swap_table.bit_cnt 0 1 false place
    → ((k : ℕ) → k < s.swap_table.bit_cnt → view s.swap_table k ≡ true)
    → anon_swap_out p s ≡ none
unfolding anon_swap_out
full-of p s none b z e fit full = rw (e, out_of_table s.swap_table z, anon_swap_out)
full-of p s (some i) b z e fit full =
    absurd (ground (arith, full i (omega (arith, fit.1)), fit.2 i (omega arith) (omega arith)))

-- Where no slot of the swap disk is free, anon_swap_out does not return: an ASSERT fails.
pub anon_swap_out-full :
    (p : ℕ) (s : Swap)
    → IsSized s.swap_table
    → ((k : ℕ) → k < s.swap_table.bit_cnt → view s.swap_table k ≡ true)
    → anon_swap_out p s ≡ none
anon_swap_out-full p s z full =
    let a = bitmap_scan_and_flip-Flipped s.swap_table 0 1 false z (omega arith) in
    full-of p s a.place a.after z a.returned a.first full
