-- ===== src/KernelList.antt =====
-- pintos-kaist/lib/kernel/list.c: the ordered operations of the kernel's linked lists, on the
-- sequence of elements that a list links. `less` is the `list_less_func` with its `aux`.
pub mod Order
pub mod Insert
pub mod Merge
pub mod Runs
pub mod Sort
pub mod Count
pub mod Unique
pub mod Extremes
mod Examples
use w12_13_vm.Common.{
  ℕ, zero, suc, ◌+◌, List, [], ◌∷◌, ◌++◌, Bool, true, false, not, ◌&&◌, Option, none, some, length,
  ltb, if◌then◌else◌,
}

module _ {ℓ} {A : Type ℓ} (less : A → A → Bool) where
  -- The new element goes before the first one that it is less than, or to the end.
  unfoldable pub list_insert_ordered : List A → A → List A
  list_insert_ordered [] x = x ∷ []
  list_insert_ordered (e ∷ es) x = if less x e then x ∷ e ∷ es else e ∷ list_insert_ordered es x

  -- The elements behind `a` that continue its run, and what stands behind the run.
  unfoldable pub find_end_of_run : A → List A → List A × List A
  find_end_of_run a [] = ([], [])
  find_end_of_run a (b ∷ bs) =
      let (run, rest) = find_end_of_run b bs in if less b a then ([], b ∷ bs) else (b ∷ run, rest)

  -- The two runs `a0 … a1b0` and `a1b0 … b1`, merged in place.
  unfoldable pub inplace_merge : List A → List A → List A
  inplace_merge [] bs = bs
  inplace_merge (a ∷ as') [] = a ∷ as'
  inplace_merge (a ∷ as') (b ∷ bs) = elim (less b a) [
    | true ↦ b ∷ inplace_merge (a ∷ as') bs
    | false ↦ a ∷ inplace_merge as' (b ∷ bs)
  ]

  -- One pass: adjacent runs are merged in pairs; the number is `output_run_cnt`. The fuel is a
  -- bound on the rounds of the for loop.
  unfoldable pub merge_pass : ℕ → List A → List A × ℕ
  unfolding find_end_of_run inplace_merge
  merge_pass zero xs = (xs, 0)
  merge_pass (suc f) [] = ([], 0)
  merge_pass (suc f) (x ∷ xs) =
      let (run, rest) = find_end_of_run x xs in
      elim rest [
        | [] ↦ (x ∷ run, 1)
        | y ∷ ys ↦
            let (run', rest') = find_end_of_run y ys in
            let (out, n) = merge_pass f rest' in (inplace_merge (x ∷ run) (y ∷ run') ++ out, n + 1)
      ]

  -- The do loop: passes until one leaves at most one run. `none` means that the fuel ran out.
  unfoldable pub sort_passes : ℕ → List A → Option (List A)
  unfolding merge_pass
  sort_passes zero xs = none
  sort_passes (suc f) xs =
      let (out, n) = merge_pass (length xs) xs in
      elim (ltb 1 n) [ true ↦ sort_passes f out | false ↦ some out ]

  -- A list has at most as many runs as elements, so this many passes are enough.
  unfoldable pub list_sort? : List A → Option (List A)
  unfolding sort_passes
  list_sort? xs = sort_passes (suc (length xs)) xs

  -- `KernelList.Sort` shows that the second case does not occur.
  unfoldable pub list_sort : List A → List A
  unfolding list_sort?
  list_sort xs = elim (list_sort? xs) [ some out ↦ out | none ↦ xs ]

  -- The loop of list_unique behind `elem`: the elements that stay, and the duplicates.
  unfoldable pub unique_behind : A → List A → List A × List A
  unique_behind a [] = ([], [])
  unique_behind a (b ∷ bs) = elim (not (less a b) && not (less b a)) [
    | true ↦ let (kept, dups) = unique_behind a bs in (kept, b ∷ dups)
    | false ↦ let (kept, dups) = unique_behind b bs in (b ∷ kept, dups)
  ]

  -- `duplicates` is `none` for NULL. The duplicates go to its end.
  unfoldable pub list_unique : List A → Option (List A) → List A × Option (List A)
  unfolding unique_behind
  list_unique [] duplicates = ([], duplicates)
  list_unique (x ∷ xs) duplicates =
      let (kept, dups) = unique_behind x xs in
      (x ∷ kept, elim duplicates [ none ↦ none | some ds ↦ some (ds ++ dups) ])

  max_behind : A → List A → A
  max_behind m [] = m
  max_behind m (e ∷ es) = max_behind (if less m e then e else m) es

  -- `none` is the tail of an empty list.
  pub list_max : List A → Option A
  unfolding max_behind
  list_max [] = none
  list_max (x ∷ xs) = some (max_behind x xs)

  min_behind : A → List A → A
  min_behind m [] = m
  min_behind m (e ∷ es) = min_behind (if less e m then e else m) es

  pub list_min : List A → Option A
  unfolding min_behind
  list_min [] = none
  list_min (x ∷ xs) = some (min_behind x xs)
