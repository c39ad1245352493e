-- ===== src/KernelList/Insert.antt =====
-- list_insert_ordered of pintos-kaist/lib/kernel/list.c: order and contents.
use mathlib.Core.List.{Perm}
use mathlib.Core.List.Perm
use w12_13_vm.Common.{◌≡◌, List, [], ◌∷◌, Bool, false, Bool-cases, arith, inl, inr}
use w12_13_vm.KernelList.{list_insert_ordered}
use w12_13_vm.KernelList.Order.{Leads, IsSorted, IsAsymmetric}

module _ {ℓ} {A : Type ℓ} (less : A → A → Bool) (asym : IsAsymmetric less) where
  Leads-insert :
      (y : A) (xs : List A) (x : A)
      → Leads less y xs
      → less x y ≡ false
      → Leads less y (list_insert_ordered less xs x)
  unfolding list_insert_ordered
  Leads-insert y [] x h k = k
  Leads-insert y (e ∷ es) x h k = ground arith

  -- Where `less` is asymmetric, inserting into a sorted list leaves it sorted.
  pub list_insert_ordered-IsSorted :
      (xs : List A) (x : A) → IsSorted less xs → IsSorted less (list_insert_ordered less xs x)
  unfolding list_insert_ordered
  list_insert_ordered-IsSorted [] x s = (tt, tt)
  list_insert_ordered-IsSorted (e ∷ es) x s =
      ground (arith, asym x e, Leads-insert e es x s.0, list_insert_ordered-IsSorted es x s.1)

module _ {ℓ} {A : Type ℓ} (less : A → A → Bool) where
  -- The new element comes in, and nothing else changes.
  pub list_insert_ordered-perm :
      (xs : List A) (x : A) → Perm (list_insert_ordered less xs x) (x ∷ xs)
  unfolding list_insert_ordered
  list_insert_ordered-perm [] x = Perm.refl _
  list_insert_ordered-perm (e ∷ es) x = elim (Bool-cases (less x e)) [
    | inl h ↦ rw h (Perm.refl _)
    | inr h ↦ rw h (Perm.trans (Perm.cons e (list_insert_ordered-perm es x)) (Perm.swap x e es))
  ]
