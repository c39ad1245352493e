-- ===== src/KernelList/Merge.antt =====
-- find_end_of_run and inplace_merge of pintos-kaist/lib/kernel/list.c.
use mathlib.Core.List.{Perm, perm_middle, append-nil}
use mathlib.Core.List.Perm
use w12_13_vm.Common.{◌≡◌, refl, List, [], ◌∷◌, ◌++◌, Bool, Bool-cases, arith, inl, inr}
use w12_13_vm.KernelList.{find_end_of_run, inplace_merge}
use w12_13_vm.KernelList.Order.{Leads, IsSorted, IsAsymmetric}

module _ {ℓ} {A : Type ℓ} (less : A → A → Bool) where
  -- A run and its rest are the list.
  pub find_end_of_run-append :
      (a : A) (xs : List A) → let (run, rest) = find_end_of_run less a xs in run ++ rest ≡ xs
  unfolding find_end_of_run
  find_end_of_run-append a [] = refl
  find_end_of_run-append a (b ∷ bs) = ground (arith, find_end_of_run-append b bs)

  pub find_end_of_run-IsSorted :
      (a : A) (xs : List A) → IsSorted less (a ∷ (find_end_of_run less a xs).0)
  unfolding find_end_of_run
  find_end_of_run-IsSorted a [] = (tt, tt)
  find_end_of_run-IsSorted a (b ∷ bs) = ground (arith, find_end_of_run-IsSorted b bs)

  pub inplace_merge-perm : (as' bs : List A) → Perm (inplace_merge less as' bs) (as' ++ bs)
  unfolding inplace_merge
  inplace_merge-perm [] bs = Perm.refl bs
  inplace_merge-perm (a ∷ as') [] = rw append-nil (Perm.refl _)
  inplace_merge-perm (a ∷ as') (b ∷ bs) = elim (Bool-cases (less b a)) [
    | inl h ↦
        rw (h, inplace_merge)
          (Perm.trans (Perm.cons b (inplace_merge-perm (a ∷ as') bs))
            (Perm.symm (perm_middle (a ∷ as') bs)))
    | inr h ↦ rw (h, inplace_merge) (Perm.cons a (inplace_merge-perm as' (b ∷ bs)))
  ]

  -- The merge of sorted runs is sorted; `p` is the element before them.
  module _ (asym : IsAsymmetric less) where
    Leads-merge :
        (p : A) (as' bs : List A)
        → Leads less p as'
        → Leads less p bs
        → Leads less p (inplace_merge less as' bs)
    unfolding inplace_merge
    Leads-merge p [] bs h k = k
    Leads-merge p (a ∷ as') [] h k = h
    Leads-merge p (a ∷ as') (b ∷ bs) h k = ground arith

    pub inplace_merge-IsSorted :
        (as' bs : List A)
        → IsSorted less as'
        → IsSorted less bs
        → IsSorted less (inplace_merge less as' bs)
    unfolding inplace_merge
    inplace_merge-IsSorted [] bs s t = t
    inplace_merge-IsSorted (a ∷ as') [] s t = s
    inplace_merge-IsSorted (a ∷ as') (b ∷ bs) s t = elim (Bool-cases (less b a)) [
      | inl h ↦
          rw (h, inplace_merge)
            (Leads-merge b (a ∷ as') bs (asym b a h) t.0, inplace_merge-IsSorted (a ∷ as') bs s t.1)
      | inr h ↦
          rw (h, inplace_merge)
            (Leads-merge a as' (b ∷ bs) s.0 h, inplace_merge-IsSorted as' (b ∷ bs) s.1 t)
    ]
