-- ===== src/Hash/Delete.antt =====
-- hash_delete of pintos-kaist/lib/kernel/hash.c takes one element out of the set.
use mathlib.Core.Path.{subst}
use w12_13_vm.Common.{
  ℕ, ◌+◌, ◌-◌, ◌<◌, ◌≡◌, refl, sym, ap, ◌∙◌, List, [], ◌∷◌, Bool, Option, none, some, ◌==◌,
  if◌then◌else◌, arith, Bool-cases, inl, inr, update, count, length,
}
use w12_13_vm.Hash.{
  Hash, find_bucket, find_elem, remove_elem, unlink, rehash, hash_find, hash_delete,
}
use w12_13_vm.Hash.Buckets.{find_bucket_le}
use w12_13_vm.Hash.Rehash.{total-update, IsPlaced, members, rehash-Rehashed}
use w12_13_vm.Hash.Table.{
  Respects, IsHash, IsFound, InList, find_elem-InList, IsFound-of, Rehashed-IsHash, finds_lem,
  hash_find-IsFound,
}

count-unlink :
    (e x : ℕ) (xs : List ℕ) → count x (unlink e xs) ≡ count x xs - (if x == e then 1 else 0)
unfolding unlink
count-unlink e x [] = ground arith
count-unlink e x (y ∷ ys) = elim (Bool-cases (e == y)) [
  | inl h ↦ rw (h, unlink) (ground arith)
  | inr h ↦ rw (h, unlink) (ground (arith, count-unlink e x ys))
]

length-unlink : (e : ℕ) (xs : List ℕ) → 0 < count e xs → length (unlink e xs) + 1 ≡ length xs
unfolding unlink
length-unlink e [] h = absurd (omega arith)
length-unlink e (y ∷ ys) h = elim (Bool-cases (e == y)) [
  | inl q ↦ rw (q, unlink) (omega arith)
  | inr q ↦ rw (q, unlink) (omega (arith, length-unlink e ys (omega (arith, rw q at h))))
]

one_unlinked :
    (b : ℕ → List ℕ) (k e j x : ℕ)
    → count x (update b k (unlink e (b k)) j)
      ≡ count x (b j) - (if k == j then (if x == e then 1 else 0) else 0)
one_unlinked b k e j x = elim (Bool-cases (k == j)) [
  | inl q ↦ let k_is_j : k ≡ j = ground arith in rw (q, k_is_j) (count-unlink e x (b j))
  | inr q ↦ rw q (omega arith)
]

module _ (h : Hash) (v : IsHash h) (e : ℕ) (is_in : 0 < members h e) where
  abbrev pub without : Hash
  without = remove_elem h (find_bucket h e) e

  without-members : (x : ℕ) → members without x ≡ members h x - (if x == e then 1 else 0)
  unfolding find_bucket remove_elem
  without-members x =
      let k = find_bucket h e in
      one_unlinked h.buckets k e (find_bucket h x) x ∙ elim (Bool-cases (x == e)) [
        | inl q ↦
            let bucket : k ≡ find_bucket h x = ap (find_bucket h) (ground arith) in
            rw (q, bucket) (ground arith)
        | inr q ↦ rw q (ground arith)
      ]

  without-IsPlaced : IsPlaced without
  unfolding find_bucket remove_elem
  without-IsPlaced =
      let k = find_bucket h e in
      let shorter = length-unlink e (h.buckets k) is_in in
      record {
        some_buckets = v.placed.some_buckets;
        placed = λ i x p. v.placed.placed i x (ground (arith, p, one_unlinked h.buckets k e i x));
        sized = omega (
          arith,
          v.placed.sized,
          shorter,
          total-update h.buckets k (unlink e (h.buckets k)) h.bucket_cnt
              (find_bucket_le h e v.placed.some_buckets),
        );
      }

  without-IsHash : IsHash without
  unfolding remove_elem
  without-IsHash = record {
    placed = without-IsPlaced;
    once = λ x. omega (arith, without-members x, v.once x);
    distinct = λ x y p q same.
        v.distinct x y (omega (arith, p, without-members x)) (omega (arith, q, without-members y))
          same;
  }

-- What hash_delete of `e` leaves: the element that it returns is gone.
pub record Deleted (h : Hash) (e : ℕ) (r : Option ℕ × Hash) : Type 0 where
  pub table : IsHash r.1
  pub same_hash : r.1.hash ≡ h.hash
  pub same_less : r.1.less ≡ h.less
  pub found : IsFound h e r.0
  pub gone :
      (y : ℕ) → r.0 ≡ some y → (x : ℕ) → members r.1 x ≡ members h x - (if x == y then 1 else 0)
  pub kept : r.0 ≡ none → r.1 ≡ h
  pub finds : (k : ℕ) → IsFound r.1 k (hash_find r.1 k)

module _ (h : Hash) (v : IsHash h) (ok : Respects h.hash h.less) where
  Deleted-of :
      (has_room : Bool) (e : ℕ) (found : Option ℕ)
      → find_elem h.less (h.buckets (find_bucket h e)) e ≡ found
      → IsFound h e found
      → InList h.less (h.buckets (find_bucket h e)) e found
      → Deleted h e (hash_delete has_room h e)
  unfolding hash_delete
  Deleted-of has_room e none q f i =
      rw (q, hash_delete)
        (record {
          table = v;
          same_hash = refl;
          same_less = refl;
          found = f;
          gone = λ y z. cc;
          kept = λ z. refl;
          finds = hash_find-IsFound h v ok;
        })
  Deleted-of has_room e (some y) q f i =
      let k = find_bucket h e in
      let here : find_bucket h y ≡ k = v.placed.placed k y i.0 in
      let t = without h v y f.0 in
      let w = rehash-Rehashed t (without-IsPlaced h v y f.0) has_room in
      let state : remove_elem h k y ≡ t = ap (λ b. remove_elem h b y) (sym here) in
      rw (q, hash_delete)
        (subst (λ u. Deleted h e (some y, rehash has_room u)) (sym state)
          (record {
            table = Rehashed-IsHash t _ (without-IsHash h v y f.0) w;
            same_hash = w.same_hash;
            same_less = w.same_less;
            found = f;
            gone = λ z e' x.
                let y_is_z : y ≡ z = cc in
                w.same_members x
                ∙ without-members h v y f.0 x
                ∙ ap (λ n. members h x - (if x == n then 1 else 0)) y_is_z;
            kept = λ z. cc;
            finds =
                finds_lem h _ (Rehashed-IsHash t _ (without-IsHash h v y f.0) w) w.same_hash
                  w.same_less ok;
          }))

  -- hash_delete keeps the table a set without two elements that are the same, whether or not there is room
  -- for new buckets. It returns the element that is the same as `e`, which is not in the set any more,
  -- while all others are; if there is none, the table does not change. After it hash_find gives the element
  -- of the set that is the same as its argument, if there is one. The hash agrees with `less`, which is
  -- irreflexive.
  pub hash_delete-Deleted : (has_room : Bool) (e : ℕ) → Deleted h e (hash_delete has_room h e)
  hash_delete-Deleted has_room e =
      let i = find_elem-InList h.less (h.buckets (find_bucket h e)) e in
      Deleted-of has_room e _ refl (IsFound-of h v ok e _ i) i
