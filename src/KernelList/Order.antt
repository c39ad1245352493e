-- ===== src/KernelList/Order.antt =====
-- The order that the kernel's lists are kept in, as is_sorted of pintos-kaist/lib/kernel/list.c
-- tests it.
use w12_13_vm.Common.{◌≡◌, List, [], ◌∷◌, Bool, true, false}

module _ {ℓ} {A : Type ℓ} (less : A → A → Bool) where
  -- `x` may stand before the list `ys`: its first element is not less than `x`.
  abbrev pub Leads : A → List A → Type 0
  Leads x [] = Unit {0}
  Leads x (y ∷ ys) = less y x ≡ false

  -- What is_sorted of list.c tests: no element is less than the one before it.
  abbrev pub IsSorted : List A → Type 0
  IsSorted [] = Unit {0}
  IsSorted (x ∷ xs) = Leads x xs × IsSorted xs

-- A `list_less_func` never orders two elements both ways.
abbrev pub IsAsymmetric {ℓ} : {A : Type ℓ} → (A → A → Bool) → Type ℓ
IsAsymmetric {A = A} less = (x y : A) → less x y ≡ true → less y x ≡ false
