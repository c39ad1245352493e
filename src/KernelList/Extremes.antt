-- ===== src/KernelList/Extremes.antt =====
-- list_max and list_min of pintos-kaist/lib/kernel/list.c.
use w12_13_vm.Common.{
  ◌≡◌, refl, List, [], ◌∷◌, Bool, true, false, some, Bool-cases, inl, inr, arith, if◌then◌else◌,
}
use w12_13_vm.KernelList.{list_max, list_min, max_behind, min_behind}
use w12_13_vm.KernelList.Order.{IsAsymmetric}

abbrev pub IsTransitive {ℓ} : {A : Type ℓ} → (A → A → Bool) → Type ℓ
IsTransitive {A = A} less = (x y z : A) → less x y ≡ true → less y z ≡ true → less x z ≡ true

module _ {ℓ} {A : Type ℓ} (less : A → A → Bool) where
  -- No element of the list is greater than `m`.
  abbrev pub NoGreater : A → List A → Type 0
  NoGreater m [] = Unit {0}
  NoGreater m (x ∷ xs) = (less m x ≡ false) × NoGreater m xs

  abbrev pub NoLess : A → List A → Type 0
  NoLess m [] = Unit {0}
  NoLess m (x ∷ xs) = (less x m ≡ false) × NoLess m xs

  module _ (asym : IsAsymmetric less) (trans : IsTransitive less) where
    irreflexive : (x : A) → less x x ≡ false
    irreflexive x = ground (arith, asym x x)

    -- The greatest so far is not less than `m`, nor than anything that `m` is not less than.
    max_keeps : (m y : A) (xs : List A) → less m y ≡ false → less (max_behind less m xs) y ≡ false
    unfolding max_behind
    max_keeps m y [] h = h
    max_keeps m y (e ∷ es) h = elim (Bool-cases (less m e)) [
      | inl l ↦ rw (l, max_behind) (max_keeps e y es (ground (arith, trans m e y)))
      | inr l ↦ rw (l, max_behind) (max_keeps m y es h)
    ]

    max-NoGreater : (m : A) (xs : List A) → NoGreater (max_behind less m xs) xs
    unfolding max_behind
    max-NoGreater m [] = tt
    max-NoGreater m (e ∷ es) =
        let b = if less m e then e else m in
        (max_keeps b e es (ground (arith, irreflexive e)), max-NoGreater b es)

    min_keeps : (m y : A) (xs : List A) → less y m ≡ false → less y (min_behind less m xs) ≡ false
    unfolding min_behind
    min_keeps m y [] h = h
    min_keeps m y (e ∷ es) h = elim (Bool-cases (less e m)) [
      | inl l ↦ rw (l, min_behind) (min_keeps e y es (ground (arith, trans y e m)))
      | inr l ↦ rw (l, min_behind) (min_keeps m y es h)
    ]

    min-NoLess : (m : A) (xs : List A) → NoLess (min_behind less m xs) xs
    unfolding min_behind
    min-NoLess m [] = tt
    min-NoLess m (e ∷ es) =
        let b = if less e m then e else m in
        (min_keeps b e es (ground (arith, irreflexive e)), min-NoLess b es)

    -- Where `less` is asymmetric and transitive, list_max and list_min of a list that is not empty return
    -- elements: no element is greater than the one, and none is less than the other.
    pub list_max-list_min :
        (x : A) (xs : List A)
        → ((a : A) × (list_max less (x ∷ xs) ≡ some a) × NoGreater a (x ∷ xs))
          × (b : A) × (list_min less (x ∷ xs) ≡ some b)
          × NoLess b (x ∷ xs)
    unfolding list_max list_min
    list_max-list_min x xs = (
      (_, refl, (max_keeps x x xs (irreflexive x), max-NoGreater x xs)),
      _,
      refl,
      (min_keeps x x xs (irreflexive x), min-NoLess x xs),
    )
