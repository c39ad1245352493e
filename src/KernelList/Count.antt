-- ===== src/KernelList/Count.antt =====
-- How often a number stands in a list that list_insert_ordered or list_sort has made.
use mathlib.Core.List.{Perm, Permᴰ}
use mathlib.Core.Logic.{∥∥₁_elim}
use native.Mathlib.Nat.{ℕ_set}
use w12_13_vm.Common.{
  ℕ, ◌+◌, ◌≡◌, refl, ◌∙◌, List, [], ◌∷◌, Bool, if◌then◌else◌, ◌==◌, count, arith,
}
use w12_13_vm.KernelList.{list_insert_ordered, list_sort}
use w12_13_vm.KernelList.Order.{IsAsymmetric}
use w12_13_vm.KernelList.Sort.{list_sort-perm}

pub count-insert :
    (less : ℕ → ℕ → Bool) (a x : ℕ) (xs : List ℕ)
    → count a (list_insert_ordered less xs x) ≡ (if a == x then 1 else 0) + count a xs
unfolding list_insert_ordered
count-insert less a x [] = refl
count-insert less a x (e ∷ es) = ground (arith, count-insert less a x es)

count-permᴰ : (a : ℕ) {xs ys : List ℕ} → Permᴰ xs ys → count a xs ≡ count a ys
count-permᴰ a Permᴰ.nil = refl
count-permᴰ a (Permᴰ.cons e d) = ground (arith, e, count-permᴰ a d)
count-permᴰ a (Permᴰ.swap e f) = ground (arith, e, f)
count-permᴰ a (Permᴰ.trans d e) = count-permᴰ a d ∙ count-permᴰ a e

pub count-perm : (a : ℕ) {xs ys : List ℕ} → Perm xs ys → count a xs ≡ count a ys
count-perm a p = ∥∥₁_elim p (ℕ_set _ _) (count-permᴰ a)

pub count-sort :
    (less : ℕ → ℕ → Bool)
    → IsAsymmetric less
    → (a : ℕ) (xs : List ℕ) → count a (list_sort less xs) ≡ count a xs
count-sort less asym a xs = count-perm a (list_sort-perm less asym xs)
