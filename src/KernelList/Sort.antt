-- ===== src/KernelList/Sort.antt =====
-- list_sort of pintos-kaist/lib/kernel/list.c: the passes end, the result is sorted, and it has the
-- elements of the input.
use mathlib.Core.List.{Perm, append-nil, append_assoc}
use mathlib.Core.List.Perm
use w12_13_vm.Common.{
  ℕ, zero, suc, ◌+◌, ◌*◌, ◌≤◌, ◌<◌, ◌≡◌, refl, sym, ap, List, [], ◌∷◌, ◌++◌, Bool, length,
  Bool-cases, arith, ◌∙◌, inl, inr, Option, some, ltb, ltb→lt,
}
use w12_13_vm.KernelList.{find_end_of_run, inplace_merge, merge_pass, sort_passes, list_sort?}
use w12_13_vm.KernelList.Order.{IsSorted, IsAsymmetric}
use w12_13_vm.KernelList.{list_sort}
use w12_13_vm.KernelList.Merge.{
  find_end_of_run-append, find_end_of_run-IsSorted, inplace_merge-perm, inplace_merge-IsSorted,
}
use w12_13_vm.KernelList.Runs.{
  runs, runs-le-length, runs-append, IsSorted-runs, runs-IsSorted, find_end_of_run-runs,
}

module _ {ℓ} {A : Type ℓ} (less : A → A → Bool) where
  -- What one pass does: the elements stay, and of m runs at most ⌈m / 2⌉ are left.
  record Passed (xs : List A) (r : List A × ℕ) : Type ℓ where
    same : Perm r.0 xs
    fewer : r.1 * 2 ≤ runs less xs + 1
    left : runs less r.0 ≤ r.1

  module _ (asym : IsAsymmetric less) where
    merge_pass-step :
        (f : ℕ) (x : A) (xs : List A) (rest : List A)
        → (find_end_of_run less x xs).1 ≡ rest
        → ((zs : List A) → length zs ≤ f → Passed zs (merge_pass less f zs))
        → length xs ≤ f
        → Passed (x ∷ xs) (merge_pass less (suc f) (x ∷ xs))
    unfolding merge_pass
    merge_pass-step f x xs [] e ih h =
        let run = (find_end_of_run less x xs).0 in
        rw (e, merge_pass)
          (record {
            same =
                rw (sym (append-nil run), sym e, find_end_of_run-append less x xs)
                  (Perm.refl (x ∷ xs));
            fewer = omega (arith, find_end_of_run-runs less x xs);
            left = IsSorted-runs less (x ∷ run) (find_end_of_run-IsSorted less x xs);
          })
    merge_pass-step f x xs (y ∷ ys) e ih h =
        let run = (find_end_of_run less x xs).0 in
        let run' = (find_end_of_run less y ys).0 in
        let rest = (find_end_of_run less y ys).1 in
        let rec = ih rest (
          omega
            (arith, ap length e, find_end_of_run-runs less x xs, find_end_of_run-runs less y ys)) in
        let whole =
          append_assoc run (y ∷ run') rest
          ∙ ap (λ t. run ++ (y ∷ t)) (find_end_of_run-append less y ys)
          ∙ ap (λ t. run ++ t) (sym e)
          ∙ find_end_of_run-append less x xs in
        let merged = inplace_merge less (x ∷ run) (y ∷ run') in
        rw (e, merge_pass)
          (record {
            same =
                Perm.trans (Perm.append (inplace_merge-perm less (x ∷ run) (y ∷ run')) rec.same)
                  (rw whole (Perm.refl _));
            fewer = omega (
              arith,
              ap (runs less) e,
              find_end_of_run-runs less x xs,
              find_end_of_run-runs less y ys,
              rec.fewer,
            );
            left = omega (
              arith,
              runs-append less merged (merge_pass less f rest).0,
              IsSorted-runs less merged (
                  inplace_merge-IsSorted less asym (x ∷ run) (y ∷ run')
                    (find_end_of_run-IsSorted less x xs) (find_end_of_run-IsSorted less y ys)),
              rec.left,
            );
          })

    merge_pass-Passed : (f : ℕ) (xs : List A) → length xs ≤ f → Passed xs (merge_pass less f xs)
    unfolding merge_pass runs
    merge_pass-Passed zero [] h = record {
      same = Perm.refl [];
      fewer = omega arith;
      left = omega arith;
    }
    merge_pass-Passed zero (x ∷ xs) h = absurd (omega arith)
    merge_pass-Passed (suc f) [] h = record {
      same = Perm.refl [];
      fewer = omega arith;
      left = omega arith;
    }
    merge_pass-Passed (suc f) (x ∷ xs) h =
        merge_pass-step f x xs _ refl (merge_pass-Passed f) (omega arith)

    -- A sorted list with the elements of `xs`.
    pub record Sorts (xs : List A) (r : Option (List A)) : Type ℓ where
      pub out : List A
      pub returned : r ≡ some out
      pub sorted : IsSorted less out
      pub same : Perm out xs

    Sorts-perm : {xs ys : List A} {r : Option (List A)} → Perm ys xs → Sorts ys r → Sorts xs r
    Sorts-perm p s = record {
      out = s.out;
      returned = s.returned;
      sorted = s.sorted;
      same = Perm.trans s.same p;
    }

    sort_passes-Sorts : (f : ℕ) (xs : List A) → runs less xs < f → Sorts xs (sort_passes less f xs)
    unfolding sort_passes
    sort_passes-Sorts zero xs h = absurd (omega arith)
    sort_passes-Sorts (suc f) xs h =
        let pass = merge_pass-Passed (length xs) xs (omega arith) in
        let out = (merge_pass less (length xs) xs).0 in
        let n = (merge_pass less (length xs) xs).1 in
        elim (Bool-cases (ltb 1 n)) [
          | inl more ↦
              rw (more, sort_passes)
                (Sorts-perm pass.same
                  (sort_passes-Sorts f out (omega (arith, ltb→lt 1 n more, pass.fewer, pass.left))))
          | inr done ↦
              rw (done, sort_passes)
                (record {
                  out = out;
                  returned = refl;
                  sorted = runs-IsSorted less out (ground (arith, pass.left));
                  same = pass.same;
                })
        ]

    -- Where `less` is asymmetric, list_sort ends within its fuel, and what it leaves is sorted and has
    -- the elements of the input.
    pub list_sort?-Sorts : (xs : List A) → Sorts xs (list_sort? less xs)
    unfolding list_sort?
    list_sort?-Sorts xs =
        sort_passes-Sorts (suc (length xs)) xs (omega (arith, runs-le-length less xs))

    list_sort-eq : (xs : List A) → list_sort less xs ≡ (list_sort?-Sorts xs).out
    unfolding list_sort
    list_sort-eq xs = rw ((list_sort?-Sorts xs).returned, list_sort)

    -- The list that list_sort leaves.
    pub list_sort-IsSorted : (xs : List A) → IsSorted less (list_sort less xs)
    list_sort-IsSorted xs = rw (list_sort-eq xs) (list_sort?-Sorts xs).sorted

    pub list_sort-perm : (xs : List A) → Perm (list_sort less xs) xs
    list_sort-perm xs = rw (list_sort-eq xs) (list_sort?-Sorts xs).same

  runs-eq-zero : (xs : List A) → runs less xs ≡ 0 → xs ≡ []
  unfolding runs
  runs-eq-zero [] h = refl
  runs-eq-zero (x ∷ xs) h = absurd (omega arith)

  merge_pass-of_sorted :
      (f : ℕ) (x : A) (xs : List A)
      → IsSorted less (x ∷ xs)
      → merge_pass less (suc f) (x ∷ xs) ≡ (x ∷ xs, 1)
  unfolding merge_pass
  merge_pass-of_sorted f x xs s =
      let one =
        runs-eq-zero (find_end_of_run less x xs).1
          (omega (arith, IsSorted-runs less (x ∷ xs) s, find_end_of_run-runs less x xs)) in
      let whole =
        sym (append-nil (find_end_of_run less x xs).0)
        ∙ ap (λ t. (find_end_of_run less x xs).0 ++ t) (sym one)
        ∙ find_end_of_run-append less x xs in
      rw (one, merge_pass) (ap (λ t. (x ∷ t, 1)) whole)

  sort_passes-of_one :
      (f : ℕ) (xs out : List A)
      → merge_pass less (length xs) xs ≡ (out, 1)
      → sort_passes less (suc f) xs ≡ some out
  unfolding sort_passes
  sort_passes-of_one f xs out e = ground (arith, e)

  -- A sorted list is left as it is.
  pub list_sort-of_sorted : (xs : List A) → IsSorted less xs → list_sort less xs ≡ xs
  unfolding list_sort list_sort?
  list_sort-of_sorted [] s = refl
  list_sort-of_sorted (x ∷ xs) s =
      rw
        (
          sort_passes-of_one (suc (length xs)) (x ∷ xs) (x ∷ xs)
              (merge_pass-of_sorted (length xs) x xs s),
          list_sort,
          list_sort?,
        )
        refl
