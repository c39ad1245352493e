-- ===== src/KernelList/Unique.antt =====
-- list_unique of pintos-kaist/lib/kernel/list.c.
use mathlib.Core.List.{Perm, perm_middle, append-nil}
use mathlib.Core.List.Perm
use w12_13_vm.Common.{
  ◌≡◌, refl, sym, ap, List, [], ◌∷◌, ◌++◌, Bool, true, not, ◌&&◌, ◌||◌, some, Bool-cases, inl, inr,
  arith,
}
use w12_13_vm.KernelList.{unique_behind, list_unique}

module _ {ℓ} {A : Type ℓ} (less : A → A → Bool) where
  -- No element of `xs` is equivalent to the one before it, where `a` is before the first.
  abbrev pub AreDistinct : A → List A → Type 0
  AreDistinct a [] = Unit {0}
  AreDistinct a (x ∷ xs) = ((less a x || less x a) ≡ true) × AreDistinct x xs

  abbrev pub IsUnique : List A → Type 0
  IsUnique [] = Unit {0}
  IsUnique (x ∷ xs) = AreDistinct x xs

  behind-AreDistinct : (a : A) (xs : List A) → AreDistinct a (unique_behind less a xs).0
  unfolding unique_behind
  behind-AreDistinct a [] = tt
  behind-AreDistinct a (b ∷ bs) = elim (Bool-cases (not (less a b) && not (less b a))) [
    | inl h ↦ rw (h, unique_behind) (behind-AreDistinct a bs)
    | inr h ↦ rw (h, unique_behind) (ground arith, behind-AreDistinct b bs)
  ]

  behind-perm :
      (a : A) (xs : List A) → Perm ((unique_behind less a xs).0 ++ (unique_behind less a xs).1) xs
  unfolding unique_behind
  behind-perm a [] = Perm.refl []
  behind-perm a (b ∷ bs) = elim (Bool-cases (not (less a b) && not (less b a))) [
    | inl h ↦ rw (h, unique_behind) (Perm.trans (perm_middle _ _) (Perm.cons b (behind-perm a bs)))
    | inr h ↦ rw (h, unique_behind) (Perm.cons b (behind-perm b bs))
  ]

  -- list_unique leaves a list in which no element is equivalent to the one before it, and puts at the
  -- end of the other list what it took out: both parts together are the elements of the input.
  pub list_unique_lem :
      (xs ds : List A)
      → IsUnique (list_unique less xs (some ds)).0
        × (dups : List A) × ((list_unique less xs (some ds)).1 ≡ some (ds ++ dups))
        × Perm ((list_unique less xs (some ds)).0 ++ dups) xs
  unfolding list_unique
  list_unique_lem [] ds = (tt, [], ap some (sym (append-nil ds)), Perm.refl [])
  list_unique_lem (x ∷ xs) ds =
      (behind-AreDistinct x xs, (unique_behind less x xs).1, refl, Perm.cons x (behind-perm x xs))
