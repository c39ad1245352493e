-- ===== src/Swap/Examples.antt =====
-- The theorems on the swap disk of pintos-kaist/vm/anon.c at a disk of three slots.
use w12_13_vm.Common.{ℕ, ◌<◌, ◌≡◌, refl, true, none, some, ◌==◌, arith}
use w12_13_vm.Common.Int.{pos}
use w12_13_vm.Bitmap.View.{view}
use w12_13_vm.Swap.{Swap, anon_swap_in, anon_swap_out}
use w12_13_vm.Swap.RoundTrip.{anon_swap_in-anon_swap_out}
use w12_13_vm.Swap.Full.{anon_swap_out-full}

-- Slot 0 is taken; page 6 is in frame 9.
abbrev three : Swap
three = record {
  swap_table = record { bit_cnt = 3; bits = λ idx j. j == 0 };
  swap_disk = λ t j. 0;
  pages = λ p. record { frame = some 9; swap_idx = none };
  frames = λ f. record { page = some 6; contents = λ j. j; r_cnt = pos 1 };
}

anon_swap_in-anon_swap_out_example :
    (out : Swap) × (s : Swap) × (anon_swap_out 6 three ≡ some (true, out))
    × (anon_swap_in 6 4 out ≡ some (true, s))
    × ((j : ℕ) → j < 4096 → (s.frames 4).contents j ≡ j)
    × ((i : ℕ) → view s.swap_table i ≡ view three.swap_table i)
    × ((s.pages 6).swap_idx ≡ none)
unfolding view
anon_swap_in-anon_swap_out_example =
    anon_swap_in-anon_swap_out 6 9 4 2 three (omega arith) refl (omega arith) refl

-- All slots are taken.
abbrev taken : Swap
taken = record three { swap_table = record { bit_cnt = 3; bits = λ idx j. true } }

taken_all : (k : ℕ) → k < 3 → view taken.swap_table k ≡ true
unfolding view
taken_all k h = refl

anon_swap_out-full_example : anon_swap_out 6 taken ≡ none
anon_swap_out-full_example = anon_swap_out-full 6 taken (omega arith) taken_all
