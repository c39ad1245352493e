-- ===== src/KernelList/Examples.antt =====
-- The theorems on the ordered lists of pintos-kaist/lib/kernel/list.c at lists of numbers.
use w12_13_vm.Common.{[], ◌∷◌, ltb, arith}
use w12_13_vm.KernelList.{list_sort?}
use w12_13_vm.KernelList.Order.{IsAsymmetric}
use w12_13_vm.KernelList.Sort.{list_sort?-Sorts, Sorts}
use w12_13_vm.KernelList.Extremes.{IsTransitive}

ltb-asym : IsAsymmetric ltb
ltb-asym x y e = ground arith

list_sort?-Sorts_example : Sorts ltb ltb-asym (3 ∷ 1 ∷ 2 ∷ []) (list_sort? ltb (3 ∷ 1 ∷ 2 ∷ []))
list_sort?-Sorts_example = list_sort?-Sorts ltb ltb-asym (3 ∷ 1 ∷ 2 ∷ [])

ltb_trans : IsTransitive ltb
ltb_trans x y z a b = ground arith
