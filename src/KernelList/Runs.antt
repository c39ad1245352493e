-- ===== src/KernelList/Runs.antt =====
-- The runs that list_sort of pintos-kaist/lib/kernel/list.c counts.
use w12_13_vm.Common.{
  ℕ, suc, ◌+◌, ◌≤◌, ◌≡◌, refl, List, [], ◌∷◌, ◌++◌, Bool, length, if◌then◌else◌, arith,
}
use w12_13_vm.KernelList.{find_end_of_run}
use w12_13_vm.KernelList.Order.{IsSorted}

module _ {ℓ} {A : Type ℓ} (less : A → A → Bool) where
  -- The places where a new run begins, behind a run that ends in `x`.
  descents : A → List A → ℕ
  descents x [] = 0
  descents x (y ∷ ys) = (if less y x then 1 else 0) + descents y ys

  -- The number of runs in a list.
  unfoldable pub runs : List A → ℕ
  unfolding descents
  runs [] = 0
  runs (x ∷ xs) = suc (descents x xs)

  pub runs-le-length : (xs : List A) → runs xs ≤ length xs
  unfolding runs
  runs-le-length [] = omega arith
  runs-le-length (x ∷ []) = omega arith
  runs-le-length (x ∷ y ∷ ys) = ground (arith, runs-le-length (y ∷ ys))

  pub runs-append : (xs ys : List A) → runs (xs ++ ys) ≤ runs xs + runs ys
  unfolding runs
  runs-append [] ys = omega arith
  runs-append (x ∷ []) [] = omega arith
  runs-append (x ∷ []) (y ∷ ys) = ground arith
  runs-append (x ∷ z ∷ zs) ys = ground (arith, runs-append (z ∷ zs) ys)

  pub IsSorted-runs : (xs : List A) → IsSorted less xs → runs xs ≤ 1
  unfolding runs
  IsSorted-runs [] s = omega arith
  IsSorted-runs (x ∷ []) s = omega arith
  IsSorted-runs (x ∷ y ∷ ys) s = ground (arith, IsSorted-runs (y ∷ ys) s.1)

  pub runs-IsSorted : (xs : List A) → runs xs ≤ 1 → IsSorted less xs
  unfolding runs
  runs-IsSorted [] h = tt
  runs-IsSorted (x ∷ []) h = (tt, tt)
  runs-IsSorted (x ∷ y ∷ ys) h = ground (arith, runs-IsSorted (y ∷ ys))

  -- find_end_of_run takes one run off.
  pub find_end_of_run-runs :
      (a : A) (xs : List A)
      → (runs (a ∷ xs) ≡ suc (runs (find_end_of_run less a xs).1))
        × (length (find_end_of_run less a xs).1 ≤ length xs)
  unfolding runs find_end_of_run
  find_end_of_run-runs a [] = (refl, omega arith)
  find_end_of_run-runs a (b ∷ bs) = ground (arith, find_end_of_run-runs b bs)
